-- ===== src/Node/Inherents.antt =====
-- node/src/inherents.rs: which providers of inherent data a node registers, and the mocked ones.
pub mod Mock
use moonbeam.Base.{
  ℕ, ◌+◌, ◌*◌, ◌%◌, ◌^◌, Bool, true, false, Option, none, some, List, [], ◌∷◌, ◌++◌, ◌==◌, ◌||◌,
  map,
}
use moonbeam.Runtime.Constants.{minimum_period}

-- A provider of one of the kinds that the node knows, by what it holds.
pub data Provider : Type 0 where
  author : List ℕ → Provider
  mock_timestamp : ℕ → Provider
  mock_validation_data timestamp : Provider

-- Inherent identifiers: `author__`, and those of the timestamp and the parachain system
pub data Identifier : Type 0 where
  author_identifier timestamp_identifier system_identifier : Identifier

unfoldable pub inherent_identifier : Provider → Identifier
inherent_identifier (author bytes) = author_identifier
inherent_identifier (mock_timestamp duration) = timestamp_identifier
inherent_identifier mock_validation_data = system_identifier
inherent_identifier timestamp = timestamp_identifier

-- `InherentDataProviders::register_provider` of another crate, where an error is `none`
abbrev pub Register : Type 0
Register = Provider → List Provider → Option (List Provider)

-- `providers.register_provider(..)?`
abbrev pub register_next : Register → Provider → Option (List Provider) → Option (List Provider)
register_next register_provider p none = none
register_next register_provider p (some providers) = register_provider p providers

module _ (register_provider : Register) (encode : ℕ → List ℕ) where
  unfoldable pub register_author : Option ℕ → Option (List Provider) → Option (List Provider)
  register_author none providers = providers
  register_author (some account) providers =
      register_next register_provider (author (encode account)) providers

  unfoldable pub register_others : Bool → Option (List Provider) → Option (List Provider)
  register_others true providers =
      register_next register_provider mock_validation_data
        (register_next register_provider (mock_timestamp (minimum_period * 2)) providers)
  register_others false providers = register_next register_provider timestamp providers

  unfoldable pub build_inherent_data_providers : Option ℕ → Bool → Option (List Provider)
  unfolding register_author register_others
  build_inherent_data_providers account mock =
      register_others mock (register_author account (some []))

-- `provide_inherent_data` of the mocked timestamp: the thread's `TIMESTAMP` after it, which is what
-- it puts into the data
unfoldable pub next_timestamp : ℕ → ℕ → ℕ
next_timestamp duration x = (x + duration) % 2 ^ 64

-- `PersistedValidationData` and `SystemInherentData` with the fields that are not of the
-- `RelayStateSproofBuilder`, here those that can be read as numbers
pub record ValidationData : Type 0 where
  pub parent_head : List ℕ
  pub block_number : ℕ
  pub relay_storage_root : ℕ
  pub max_pov_size : ℕ

-- The validation data that the mock provides, on the root that the builder gives.
abbrev pub mock_data : ℕ → ValidationData
mock_data relay_storage_root = record {
  parent_head = [];
  block_number = 0;
  relay_storage_root = relay_storage_root;
  max_pov_size = 0;
}
