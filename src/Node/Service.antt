-- ===== src/Node/Service.antt =====
-- node/src/service.rs: the parts of a node, the node of a parachain, and the development node, by the calls
-- that they make of other crates and the answers to these.
pub mod Outcomes
pub mod Starts
use moonbeam.Base.{ℕ, Bool, true, false, Option, none, some, ◌&&◌, if◌then◌else◌, List}
use moonbeam.Node.Inherents.{Provider, Register, build_inherent_data_providers}
use moonbeam.Node.Rpc.{Interface, create_full}
use moonbeam.Node.Sealing.{Sealing, instant, manual, interval}
use moonbeam.Node.Effects.{
  Effect, started_relay_node, opened_database, created_import_queue, built_network,
  started_offchain_workers, spawned_tasks, spawned_filter_pool_task,
  spawned_pending_transactions_task, spawned_authorship_task, started_collator, started_full_node,
  started_network, light_client_not_supported, other, M, pure, fail, run_call, try_call, ok_or,
  ◌>>=◌, ◌>>◌,
}

-- The other crates: the registration of inherent data providers with the error that it may have, the
-- encoding of an account, and the errors of the calls that may fail.
pub record Crates : Type 0 where
  pub register_provider : Register
  pub register_error : ℕ
  pub encode : ℕ → List ℕ
  pub fails : Effect → Option ℕ

-- `Configuration`, as far as the node itself reads it
pub record Configuration : Type 0 where
  pub is_light : Bool
  pub offchain_worker_enabled : Bool

-- `PartialComponents`: the providers, and whether the pools of Frontier are there.
pub record PartialComponents : Type 0 where
  pub inherent_data_providers : List Provider
  pub pending_transactions : Bool
  pub filter_pool : Bool

-- Whether the match on the sealing in `new_dev` makes a channel and keeps its sink.
abbrev pub makes_sink : Sealing → Bool
makes_sink instant = false
makes_sink manual = true
makes_sink (interval millis) = false

module _ (crates : Crates) where
  unfoldable pub new_partial : Option ℕ → Bool → M PartialComponents
  new_partial author mock_inherents = do
    providers ←
        ok_or
          (build_inherent_data_providers crates.register_provider crates.encode author
            mock_inherents)
          (other crates.register_error)
    try_call crates.fails opened_database
    try_call crates.fails (created_import_queue providers)
    pure (record {
      inherent_data_providers = providers;
      pending_transactions = true;
      filter_pool = true;
    })

  -- `if filter_pool.is_some() { .. }` and `if pending_transactions.is_some() { .. }`
  unfoldable pub spawn_maintenance : PartialComponents → M (Unit {0})
  spawn_maintenance params = do
    if params.filter_pool then run_call spawned_filter_pool_task else pure tt
    if params.pending_transactions then run_call spawned_pending_transactions_task else pure tt
    pure tt

  -- The closure `rpc_extensions_builder`
  unfoldable pub rpc_extensions : PartialComponents → Bool → Bool → Bool → List Interface
  rpc_extensions params collator command_sink deny_unsafe = create_full (record {
    deny_unsafe = deny_unsafe;
    is_authority = collator;
    pending_transactions = params.pending_transactions;
    filter_pool = params.filter_pool;
    command_sink = command_sink;
  })

  -- `start_node_impl`, which `start_node` calls
  unfoldable pub start_node : Configuration → Option ℕ → ℕ → ℕ → Bool → M (Unit {0})
  start_node parachain_config author_id polkadot_config id collator = do
    if parachain_config.is_light then fail light_client_not_supported else pure tt
    try_call crates.fails (started_relay_node polkadot_config)
    params ← new_partial author_id false
    try_call crates.fails (built_network (some id))
    try_call crates.fails (spawned_tasks (rpc_extensions params collator false))
    spawn_maintenance params
    if collator
        then try_call crates.fails (started_collator id params.inherent_data_providers)
        else try_call crates.fails (started_full_node id)
    run_call started_network
    pure tt

  unfoldable pub new_dev : Configuration → Sealing → Option ℕ → Bool → M (Unit {0})
  new_dev config sealing author_id collator = do
    params ← new_partial author_id true
    try_call crates.fails (built_network none)
    if config.offchain_worker_enabled then run_call started_offchain_workers else pure tt
    if collator
        then run_call (spawned_authorship_task sealing params.inherent_data_providers)
        else pure tt
    let command_sink = collator && makes_sink sealing
    try_call crates.fails (spawned_tasks (rpc_extensions params collator command_sink))
    spawn_maintenance params
    run_call started_network
    pure tt
