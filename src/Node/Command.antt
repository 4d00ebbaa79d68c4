-- ===== src/Node/Command.antt =====
-- node/src/command.rs: which specification an id loads, and what the node does by its arguments.
pub mod Asks
pub mod Authors
pub mod ParachainId
pub mod Runs
use Prim.Native.String.{String}
use text.Mathlib.Text.{◌==◌ as str_eq}
use moonbeam.Base.{
  ℕ, Bool, true, false, Option, none, some, List, [], ◌∷◌, ◌&&◌, ◌||◌, if◌then◌else◌, is_none,
  unwrap_or,
}
use moonbeam.Base.Map
use moonbeam.Base.Map.{Map}
use moonbeam.Node.ChainSpec.{ChainSpec, Extensions, development_chain_spec, get_chain_spec, gerald}
use moonbeam.Node.Cli
use moonbeam.Node.Cli.{
  Cli, RunCmd, Subcommand, RelayChainCli, ExportGenesisStateCommand, ExportGenesisWasmCommand,
  export_genesis_state, export_genesis_wasm, build_spec, check_block, export_blocks, export_state,
  import_blocks, purge_chain, revert,
}
use moonbeam.Node.Effects.{
  Effect, ran_command, wrote_output, no_chain_specified, wasm_missing, author_missing, other, M,
  pure, fail, run_call, try_call, ok_or, ◌>>=◌, ◌>>◌,
}
use moonbeam.Node.Service.{Crates, Configuration, new_partial, start_node, new_dev}

-- What the node asks of other crates, of the files and of the arguments that `sc_cli` reads, where `none` is
-- an error: the embedded and other specifications, the extension of one, the storage and the encoded header of
-- its genesis block, and the relay chain's specifications by number. `chain_id` is the id that `sc_cli` finds
-- in the arguments, and `relay_chain_id` the one that Polkadot finds in those of the relay chain.
pub record Tools : Type 0 where
  pub chain_id : String
  pub config : Configuration
  pub base_path : Option String
  pub alphanet : Option ChainSpec
  pub stagenet : Option ChainSpec
  pub from_json_file : String → Option ChainSpec
  pub get_extension : ChainSpec → Option Extensions
  pub build_storage : ChainSpec → Option (Map (List ℕ))
  pub code_key : ℕ
  pub genesis_header : ChainSpec → Option (List ℕ)
  pub hex : List ℕ → List ℕ
  pub relay_alphanet : Option ℕ
  pub relay_stagenet : Option ℕ
  pub polkadot_load_spec : String → Option ℕ
  pub relay_chain_id : List String → String
  pub error : ℕ

abbrev pub is_empty_text : String → Bool
is_empty_text s = str_eq s ""

-- `impl DefaultConfigurationValues for RelayChainCli`
abbrev pub p2p_listen_port : ℕ
p2p_listen_port = 30334

abbrev pub rpc_ws_listen_port : ℕ
rpc_ws_listen_port = 9945

abbrev pub rpc_http_listen_port : ℕ
rpc_http_listen_port = 9934

abbrev pub prometheus_listen_port : ℕ
prometheus_listen_port = 9616

-- `map` and `or` of `Option`
abbrev pub map_option {ℓ κ} : {A : Type ℓ} {B : Type κ} → (A → B) → Option A → Option B
map_option f none = none
map_option f (some a) = some (f a)

abbrev pub or {ℓ} : {A : Type ℓ} → Option A → Option A → Option A
or none o = o
or (some a) o = some a

-- `relay_chain_id == Some(text)`
abbrev pub is_text : String → Option String → Bool
is_text text none = false
is_text text (some s) = str_eq s text

-- `RelayChainCli::base_path`, over the path of the shared parameters
abbrev pub relay_base_path : Option String → RelayChainCli → Option String
relay_base_path shared cli = or shared cli.base_path

module _ (tools : Tools) where
  unfoldable pub load_spec : String → ℕ → M ChainSpec
  load_spec id para_id =
      if str_eq id "alphanet"
      then ok_or tools.alphanet (other tools.error)
      else if str_eq id "stagenet"
      then ok_or tools.stagenet (other tools.error)
      else if str_eq id "dev" || str_eq id "development"
      then pure development_chain_spec
      else if str_eq id "local"
      then pure (get_chain_spec para_id)
      else if is_empty_text id
      then fail no_chain_specified
      else ok_or (tools.from_json_file id) (other tools.error)

  -- `Cli::load_spec`
  unfoldable pub cli_load_spec : Cli → String → M ChainSpec
  unfolding load_spec
  cli_load_spec cli id = load_spec id (unwrap_or cli.run.parachain_id 1000)

  -- `RelayChainCli::load_spec`
  unfoldable pub relay_load_spec : String → M ℕ
  relay_load_spec id =
      if str_eq id "moonbase_alpha_relay"
      then ok_or tools.relay_alphanet (other tools.error)
      else if str_eq id "moonbase_stage_relay"
      then ok_or tools.relay_stagenet (other tools.error)
      else ok_or (tools.polkadot_load_spec id) (other tools.error)

  -- `RelayChainCli::chain_id`
  unfoldable pub relay_chain_id : RelayChainCli → String
  relay_chain_id cli =
      let chain_id = tools.relay_chain_id cli.base in
      if is_empty_text chain_id then unwrap_or cli.chain_id "" else chain_id

  -- `SubstrateCli::create_configuration` for the relay chain, which asks for the id and loads it
  unfoldable pub relay_configuration : RelayChainCli → M ℕ
  relay_configuration cli = relay_load_spec (relay_chain_id cli)

  unfoldable pub extract_genesis_wasm : ChainSpec → M (List ℕ)
  extract_genesis_wasm chain_spec = do
    storage ← ok_or (tools.build_storage chain_spec) (other tools.error)
    ok_or (Map.lookup tools.code_key storage) wasm_missing

  -- `output_buf`
  abbrev pub output_buf : Bool → List ℕ → List ℕ
  output_buf raw bytes = if raw then bytes else tools.hex bytes

  module _ (crates : Crates) where
    unfoldable pub run_export_state : ExportGenesisStateCommand → M (Unit {0})
    run_export_state params = do
      spec ← load_spec (unwrap_or params.chain "") params.parachain_id
      header ← ok_or (tools.genesis_header spec) (other tools.error)
      try_call crates.fails (wrote_output params.output (output_buf params.raw header))
      pure tt

    unfoldable pub run_export_wasm : Cli → ExportGenesisWasmCommand → M (Unit {0})
    run_export_wasm cli params = do
      spec ← cli_load_spec cli (unwrap_or params.chain "")
      raw_wasm_blob ← extract_genesis_wasm spec
      try_call crates.fails (wrote_output params.output (output_buf params.raw raw_wasm_blob))
      pure tt

    -- A command that runs on the configuration alone, and one that runs on the parts of a node
    unfoldable pub sync_run : Cli → Subcommand → M (Unit {0})
    sync_run cli cmd = do
      config ← cli_load_spec cli tools.chain_id
      try_call crates.fails (ran_command cmd)
      pure tt

    unfoldable pub async_run : Cli → Subcommand → M (Unit {0})
    async_run cli cmd = do
      config ← cli_load_spec cli tools.chain_id
      parts ← new_partial crates none false
      try_call crates.fails (ran_command cmd)
      pure tt

    unfoldable pub run_subcommand : Cli → Subcommand → M (Unit {0})
    unfolding run_export_state run_export_wasm sync_run async_run
    run_subcommand cli (export_genesis_state params) = run_export_state params
    run_subcommand cli (export_genesis_wasm params) = run_export_wasm cli params
    run_subcommand cli build_spec = sync_run cli build_spec
    run_subcommand cli check_block = async_run cli check_block
    run_subcommand cli export_blocks = async_run cli export_blocks
    run_subcommand cli export_state = async_run cli export_state
    run_subcommand cli import_blocks = async_run cli import_blocks
    run_subcommand cli purge_chain = sync_run cli purge_chain
    run_subcommand cli revert = async_run cli revert

    -- The development service of `run_node_until_exit`
    unfoldable pub run_dev : Cli → Bool → M (Unit {0})
    run_dev cli collator =
        new_dev crates tools.config cli.run.sealing (or cli.run.author_id (some gerald))
          (collator || cli.run.dev)

    -- The rest of `run_node_until_exit`; the base path of the relay chain has "polkadot" joined to it.
    unfoldable pub run_parachain : Cli → Bool → ChainSpec → Option Extensions → M (Unit {0})
    run_parachain cli collator spec extension = do
      let relay_chain_id' = map_option (λ e. e.relay_chain) extension
      let para_id = map_option (λ e. e.para_id) extension
      let polkadot_cli = Cli.new tools.base_path relay_chain_id' cli.relaychain_args
      let id = unwrap_or (or cli.run.parachain_id para_id) 1000
      block ← ok_or (tools.genesis_header spec) (other tools.error)
      polkadot_config ← relay_configuration polkadot_cli
      start_node crates tools.config cli.run.author_id polkadot_config id collator

    -- The choice of the service in `run_node_until_exit`
    unfoldable pub run_node : Cli → Bool → ChainSpec → M (Unit {0})
    run_node cli collator spec =
        let extension = tools.get_extension spec in
        if cli.run.dev_service || is_text "dev-service" (map_option (λ e. e.relay_chain) extension)
        then run_dev cli collator
        else run_parachain cli collator spec extension

    unfoldable pub run_main : Cli → M (Unit {0})
    run_main cli = do
      spec ← cli_load_spec cli tools.chain_id
      let collator = cli.run.validator || cli.collator
      if collator && is_none cli.run.author_id then fail author_missing else pure tt
      run_node cli collator spec

    unfoldable pub run : Cli → M (Unit {0})
    run cli = elim cli.subcommand [ none ↦ run_main cli | some cmd ↦ run_subcommand cli cmd ]
