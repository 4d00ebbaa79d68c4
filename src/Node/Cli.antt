-- ===== src/Node/Cli.antt =====
-- The arguments of the node: node/src/cli.rs. Accounts are numbers and texts are texts; what the argument
-- parser and `sc_cli` read for themselves is left out.
use Prim.Native.String.{String}
use moonbeam.Base.{ℕ, Bool, Option, List, none, some}
use moonbeam.Node.Sealing.{Sealing}

-- `ExportGenesisStateCommand`
pub record ExportGenesisStateCommand : Type 0 where
  pub output : Option String
  pub parachain_id : ℕ
  pub raw : Bool
  pub chain : Option String

-- `ExportGenesisWasmCommand`
pub record ExportGenesisWasmCommand : Type 0 where
  pub output : Option String
  pub raw : Bool
  pub chain : Option String

-- `Subcommand`; the commands of `sc_cli` have their arguments there.
pub data Subcommand : Type 0 where
  export_genesis_state : ExportGenesisStateCommand → Subcommand
  export_genesis_wasm : ExportGenesisWasmCommand → Subcommand
  build_spec check_block export_blocks export_state import_blocks purge_chain revert : Subcommand

-- `RunCmd`, with the two flags of `sc_cli::RunCmd` that the node reads
pub record RunCmd : Type 0 where
  pub validator : Bool
  pub dev : Bool
  pub parachain_id : Option ℕ
  pub dev_service : Bool
  pub sealing : Sealing
  pub author_id : Option ℕ

pub record Cli : Type 0 where
  pub subcommand : Option Subcommand
  pub run : RunCmd
  pub collator : Bool
  pub relaychain_args : List String

-- `parse_h160`, over the parser of another crate; the error is "Failed to parse H160".
abbrev pub parse_h160 : (String → Option ℕ) → String → Option ℕ
parse_h160 parse input = elim (parse input) [ none ↦ none | some account ↦ some account ]

-- `RelayChainCli`, whose base are the arguments of the relay chain
pub record RelayChainCli : Type 0 where
  pub base : List String
  pub chain_id : Option String
  pub base_path : Option String

-- `RelayChainCli::new`
abbrev pub new : Option String → Option String → List String → RelayChainCli
new base_path chain_id relay_chain_args = record {
  base = relay_chain_args;
  chain_id = chain_id;
  base_path = base_path;
}
