-- ===== src/Runtime/Ids.antt =====
-- pallets/ethereum-chain-id and pallets/parachain-info: a number each, set at genesis and read by
-- other pallets.
use moonbeam.Base.{ℕ, Option, some, unwrap_or}

-- The storage items, `none` before genesis
pub record Ids : Type 0 where
  pub chain_id : Option ℕ
  pub parachain_id : Option ℕ

-- `Get<u64> for Module<T>` and `Get<ParaId> for Module<T>`, with the defaults
abbrev pub get_chain_id : Ids → ℕ
get_chain_id ids = unwrap_or ids.chain_id 0

abbrev pub get_parachain_id : Ids → ℕ
get_parachain_id ids = unwrap_or ids.parachain_id 200

-- The genesis builds
abbrev pub build_chain_id : ℕ → Ids → Ids
build_chain_id chain_id ids = record ids { chain_id = some chain_id }

abbrev pub build_parachain_id : ℕ → Ids → Ids
build_parachain_id parachain_id ids = record ids { parachain_id = some parachain_id }
