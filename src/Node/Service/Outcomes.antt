-- ===== src/Node/Service/Outcomes.antt =====
-- The outcomes of starting a node of node/src/service.rs, by its calls of other crates.
use moonbeam.Base.{
  ℕ, ◌≡◌, Bool, true, false, Option, none, some, List, [], ◌∷◌, ◌&&◌, if◌then◌else◌, All,
}
use moonbeam.Node.Inherents.{Provider, author, timestamp, mock_timestamp, mock_validation_data}
use moonbeam.Node.Rpc.{
  Interface, system, transaction_payment, eth, eth_filter, net, web3, eth_pub_sub, tx_pool,
  manual_seal,
}
use moonbeam.Node.Sealing.{Sealing}
use moonbeam.Node.Effects.{
  Effect, started_relay_node, opened_database, created_import_queue, built_network,
  started_offchain_workers, spawned_tasks, spawned_filter_pool_task,
  spawned_pending_transactions_task, spawned_authorship_task, started_collator, started_full_node,
  started_network, Result, ok, err,
}
use moonbeam.Node.Service.{Crates, Configuration, PartialComponents, makes_sink}

-- The providers of a node, by its author and by whether it mocks the relay chain.
abbrev pub timestamps : Bool → List Provider
timestamps mock = if mock then mock_timestamp 6000 ∷ mock_validation_data ∷ [] else timestamp ∷ []

abbrev pub providers_of : (ℕ → List ℕ) → Option ℕ → Bool → List Provider
providers_of encode none mock = timestamps mock
providers_of encode (some account) mock = author (encode account) ∷ timestamps mock

-- A call that starts neither a collator, a full node nor the network; an authorship task is one only with
-- the providers that `authorship` names.
abbrev pub Preparation : Option (List Provider) → Effect → Type 0
Preparation authorship (started_collator id others) = ⊥
Preparation authorship (started_full_node id) = ⊥
Preparation authorship started_network = ⊥
Preparation authorship (spawned_authorship_task sealing others) = some others ≡ authorship
Preparation authorship _ = Unit

abbrev pub Prepares : Option (List Provider) → List Effect → Type 0
Prepares authorship = All (Preparation authorship)

-- The interfaces of a node with both pools, by whether unsafe calls are denied.
abbrev pub node_interfaces : Bool → Bool → Bool → List Interface
node_interfaces collator is_manual deny_unsafe =
    system deny_unsafe
    ∷ transaction_payment
    ∷ eth true collator
    ∷ eth_filter 500
    ∷ net
    ∷ web3
    ∷ eth_pub_sub
    ∷ tx_pool
    ∷ (if is_manual then manual_seal ∷ [] else [])

-- A call that is made under a condition, after the calls `t`
abbrev pub after : Bool → Effect → List Effect → List Effect
after true e t = e ∷ t
after false e t = t

pub All-after :
    (P : Effect → Type 0) (b : Bool) (e : Effect) (t : List Effect)
    → P e
    → All P t
    → All P (after b e t)
All-after P true e t p h = (p, h)
All-after P false e t p h = h

-- The parts of a node: the two pools and the providers.
abbrev pub parts : List Provider → PartialComponents
parts providers = record {
  inherent_data_providers = providers;
  pending_transactions = true;
  filter_pool = true;
}

module _ (crates : Crates) where
  -- How `start_node` ends.
  abbrev pub NodeStarts :
      Configuration → Option ℕ → ℕ → ℕ → Bool → Result (Unit {0}) → List Effect → Type 0
  NodeStarts config author_id relay id collator (ok a) u =
      let providers = providers_of crates.encode author_id false in
      (config.is_light ≡ false)
      × (u
          ≡ started_network
            ∷ (if collator then started_collator id providers else started_full_node id)
            ∷ spawned_pending_transactions_task
            ∷ spawned_filter_pool_task
            ∷ spawned_tasks (node_interfaces collator false)
            ∷ built_network (some id)
            ∷ created_import_queue providers
            ∷ opened_database
            ∷ started_relay_node relay
            ∷ [])
  NodeStarts config author_id relay id collator (err e) u = Prepares none u

  -- How `new_dev` ends.
  abbrev pub DevStarts :
      Configuration → Sealing → Option ℕ → Bool → Result (Unit {0}) → List Effect → Type 0
  DevStarts config sealing author_id collator (ok a) u =
      let providers = providers_of crates.encode author_id true in
      u
      ≡ started_network
        ∷ spawned_pending_transactions_task
        ∷ spawned_filter_pool_task
        ∷ spawned_tasks (node_interfaces collator (collator && makes_sink sealing))
        ∷ after collator (spawned_authorship_task sealing providers) (
            after config.offchain_worker_enabled started_offchain_workers
              (built_network none ∷ created_import_queue providers ∷ opened_database ∷ []))
  DevStarts config sealing author_id collator (err e) u =
      Prepares (some (providers_of crates.encode author_id true)) u
