-- ===== src/Node/ChainSpec.antt =====
-- node/src/chain_spec.rs: the genesis of the development and the default chain. The accounts of the
-- specification are numbers; the wasm code of the runtime is left out.
use Prim.Native.String.{String}
use moonbeam.Base.{ℕ, ◌*◌, ◌/◌, ◌^◌, Option, none, some, List, [], ◌∷◌, map}
use moonbeam.Stake.Types.{InflationInfo}
use moonbeam.Runtime.Constants.{glmr}

-- `6Be02d1d3665660d22FF9624b7BE0551ee1Ac91b`
abbrev pub gerald : ℕ
gerald = 615843276542061846064033011250091563131396198683

-- `Perbill::from_percent(p).deconstruct() / 8766`
abbrev pub hourly : ℕ → ℕ
hourly percent = percent * 10000000 / 8766

unfoldable pub moonbeam_inflation_config : InflationInfo
moonbeam_inflation_config = record {
  expect = record { min = 100000 * glmr; ideal = 200000 * glmr; max = 500000 * glmr };
  round = record { min = hourly 4; ideal = hourly 5; max = hourly 5 };
}

-- The parts of `GenesisConfig` that the specification chooses.
pub record GenesisConfig : Type 0 where
  pub balances : List (ℕ × ℕ)
  pub sudo_key : ℕ
  pub parachain_id : ℕ
  pub chain_id : ℕ
  pub stakers : List (ℕ × Option ℕ × ℕ)
  pub inflation_config : InflationInfo

unfoldable pub testnet_genesis :
    ℕ → List (ℕ × Option ℕ × ℕ) → InflationInfo → List ℕ → ℕ → ℕ → GenesisConfig
testnet_genesis root_key stakers inflation_config endowed_accounts para_id chain_id = record {
  balances = map (λ k. (k, 2 ^ 80)) endowed_accounts;
  sudo_key = root_key;
  parachain_id = para_id;
  chain_id = chain_id;
  stakers = stakers;
  inflation_config = inflation_config;
}

abbrev pub default_stakers : List (ℕ × Option ℕ × ℕ)
default_stakers = (gerald, none, 1000 * glmr) ∷ []

-- `sc_service::ChainType`, the two that the node uses
pub data ChainType : Type 0 where
  development local : ChainType

pub record Extensions : Type 0 where
  pub relay_chain : String
  pub para_id : ℕ

-- `ChainSpec::from_genesis`, with the endpoints of the telemetry and the decimals of the token
pub record ChainSpec : Type 0 where
  pub name : String
  pub id : String
  pub chain_type : ChainType
  pub genesis : GenesisConfig
  pub telemetry_endpoints : Option (List (String × ℕ))
  pub token_decimals : ℕ
  pub extensions : Extensions

-- The default parachain id is 0.
unfoldable pub development_chain_spec : ChainSpec
unfolding testnet_genesis moonbeam_inflation_config
development_chain_spec = record {
  name = "Moonbase Development Testnet";
  id = "development";
  chain_type = development;
  genesis = testnet_genesis gerald default_stakers moonbeam_inflation_config (gerald ∷ []) 0 1281;
  telemetry_endpoints = some (("wss://telemetry.polkadot.io/submit/", 0) ∷ []);
  token_decimals = 18;
  extensions = record { relay_chain = "dev-service"; para_id = 0 };
}

unfoldable pub get_chain_spec : ℕ → ChainSpec
unfolding testnet_genesis moonbeam_inflation_config
get_chain_spec para_id = record {
  name = "Moonbase Development Testnet";
  id = "local_testnet";
  chain_type = local;
  genesis =
      testnet_genesis gerald default_stakers moonbeam_inflation_config (gerald ∷ []) para_id 1280;
  telemetry_endpoints = none;
  token_decimals = 18;
  extensions = record { relay_chain = "local_testnet"; para_id = para_id };
}
