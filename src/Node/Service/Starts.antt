-- ===== src/Node/Service/Starts.antt =====
-- What has been started when the start of a node ends, well or with an error.
use mathlib.Core.Path.{subst, sym}
use moonbeam.Base.{
  ℕ, ◌≡◌, refl, Bool, true, false, Option, none, some, List, [], ◌∷◌, ◌&&◌, if◌then◌else◌,
}
use moonbeam.Node.Inherents.{Provider, build_inherent_data_providers}
use moonbeam.Node.Inherents.Mock.{Registers, build_inherent_data_providers_lem}
use moonbeam.Node.Rpc.{create_full}
use moonbeam.Node.Sealing.{Sealing}
use moonbeam.Node.Effects.{
  Effect, opened_database, created_import_queue, spawned_tasks, spawned_filter_pool_task,
  spawned_pending_transactions_task, spawned_authorship_task, started_network, NodeError, Result,
  ok, err, M, Ends, Ends-pure, Ends-run, Ends-try, Ends-if, Ends-skip, Ends-stop, Ends-ok_or,
  Ends-bind, Ends-imp, run_call, try_call, pure, ◌>>=◌, ◌>>◌,
}
use moonbeam.Node.Service.{
  Crates, Configuration, PartialComponents, new_partial, spawn_maintenance, rpc_extensions,
  start_node, new_dev, makes_sink,
}
use moonbeam.Node.Service.Outcomes.{
  providers_of, Prepares, node_interfaces, after, parts, NodeStarts, DevStarts,
}

module _ (crates : Crates) (registers : Registers crates.register_provider) where
  build_providers :
      (author_id : Option ℕ) (mock : Bool)
      → build_inherent_data_providers crates.register_provider crates.encode author_id mock
        ≡ some (providers_of crates.encode author_id mock)
  build_providers none mock =
      (build_inherent_data_providers_lem crates.register_provider crates.encode 0 mock registers).0
  build_providers (some account) mock =
      (build_inherent_data_providers_lem crates.register_provider crates.encode account mock
        registers).1

  -- How `new_partial` ends after the calls `t`.
  Parts :
      Option (List Provider)
      → Option ℕ
      → Bool
      → List Effect
      → Result PartialComponents
      → List Effect
      → Type 0
  Parts authorship author_id mock t (ok params) u =
      let providers = providers_of crates.encode author_id mock in
      (params ≡ parts providers) × (u ≡ created_import_queue providers ∷ opened_database ∷ t)
  Parts authorship author_id mock t (err e) u = Prepares authorship u

  new_partial-Parts :
      (authorship : Option (List Provider)) (author_id : Option ℕ) (mock : Bool) (t : List Effect)
      → Prepares authorship t
      → Ends (Parts authorship author_id mock t) (new_partial crates author_id mock t)
  unfolding new_partial Parts
  new_partial-Parts authorship author_id mock t h =
      Ends-ok_or _ _ _ _ (providers_of crates.encode author_id mock)
        (build_providers author_id mock)
        (Ends-try _ _ _ _ (λ code. h)
          (Ends-try _ _ _ _ (λ code. (tt, h)) (Ends-pure _ _ (refl, refl))))

  pub Ends-parts :
      {B : Type 0} {P : Result B → List Effect → Type 0} (authorship : Option (List Provider))
      (author_id : Option ℕ) (mock : Bool) (f : PartialComponents → M B) (t : List Effect)
      → Prepares authorship t
      → ((e : NodeError) (u : List Effect) → Prepares authorship u → P (err e) u)
      → (let providers = providers_of crates.encode author_id mock in
          Ends P (f (parts providers) (created_import_queue providers ∷ opened_database ∷ t)))
      → Ends P ((new_partial crates author_id mock >>= f) t)
  unfolding Parts
  Ends-parts {P} authorship author_id mock f t h errors rest =
      Ends-bind (Parts authorship author_id mock t) _ f t
        (new_partial-Parts authorship author_id mock t h) errors
        λ params u q.
          subst (λ v. Ends P (f params v)) (sym q.1)
            (subst
              (λ p. Ends P (
                f p (
                  created_import_queue (providers_of crates.encode author_id mock)
                  ∷ opened_database
                  ∷ t)))
              (sym q.0) rest)

  spawn_maintenance-Ends :
      {B : Type 0} {P : Result B → List Effect → Type 0} (providers : List Provider) (k : M B)
      (t : List Effect)
      → Ends P (k (spawned_pending_transactions_task ∷ spawned_filter_pool_task ∷ t))
      → Ends P ((spawn_maintenance crates (parts providers) >> k) t)
  unfolding spawn_maintenance run_call pure ◌>>◌
  spawn_maintenance-Ends providers k t rest = rest

  rpc_extensions_lem :
      (providers : List Provider) (collator sink : Bool)
      → rpc_extensions crates (parts providers) collator sink ≡ node_interfaces collator sink
  unfolding rpc_extensions create_full
  rpc_extensions_lem providers collator true = refl
  rpc_extensions_lem providers collator false = refl

  start_node-Ends :
      (config : Configuration) (author_id : Option ℕ) (relay id : ℕ) (collator : Bool)
      → Ends
          (NodeStarts crates config author_id relay id collator)
          (start_node crates config author_id relay id collator [])
  unfolding start_node
  start_node-Ends config author_id relay id collator =
      Ends-if _ _ _ _ _ (λ light. Ends-stop _ _ _ tt)
        λ full. Ends-skip _ _ (
          Ends-try _ _ _ _ (λ code. tt)
            (Ends-parts none author_id false _ _ (tt, tt) (λ e u q. q)
              (Ends-try _ _ _ _ (λ code. (tt, (tt, (tt, tt))))
                (Ends-try _ _ _ _ (λ code. (tt, (tt, (tt, (tt, tt)))))
                  (spawn_maintenance-Ends _ _ _ (
                    Ends-if collator _ _ _ _
                      (λ collates.
                        Ends-try _ _ _ _ (λ code. (tt, (tt, (tt, (tt, (tt, (tt, (tt, tt))))))))
                          (Ends-run _ _ _
                            (Ends-pure _ _ (full, rw (rpc_extensions_lem, collates) refl))))
                      (λ follows.
                        Ends-try _ _ _ _ (λ code. (tt, (tt, (tt, (tt, (tt, (tt, (tt, tt))))))))
                          (Ends-run _ _ _
                            (Ends-pure _ _ (full, rw (rpc_extensions_lem, follows) refl))))))))))

  -- A starting node that registers its providers as the registration documents ends well with its calls made
  -- in one order: the relay chain's node, the parts with the providers of the author, the network that
  -- validates the announcements of its parachain, the RPC, both maintenance tasks, the collator or the full
  -- node, and the network's start, and it is no light client. If it ends with an error, neither the collator,
  -- the full node nor the network has been started.
  pub start_node-NodeStarts :
      (config : Configuration) (author_id : Option ℕ) (relay id : ℕ) (collator : Bool)
      → NodeStarts crates config author_id relay id collator
          (start_node crates config author_id relay id collator []).0
          (start_node crates config author_id relay id collator []).1
  start_node-NodeStarts config author_id relay id collator =
      (start_node-Ends config author_id relay id collator).holds

  -- The calls of `new_dev` from the authorship task on, after the preparations `t`.
  DevEnds : Sealing → Bool → List Provider → List Effect → Result (Unit {0}) → List Effect → Type 0
  DevEnds sealing collator providers t (ok a) u =
      u
      ≡ started_network
        ∷ spawned_pending_transactions_task
        ∷ spawned_filter_pool_task
        ∷ spawned_tasks (node_interfaces collator (collator && makes_sink sealing))
        ∷ after collator (spawned_authorship_task sealing providers) t
  DevEnds sealing collator providers t (err e) u = Prepares (some providers) u

  dev_rest :
      (sealing : Sealing) (collator : Bool) (providers : List Provider) (t : List Effect)
      → Prepares (some providers) t
      → Ends (DevEnds sealing collator providers t) (
          ((if collator then run_call (spawned_authorship_task sealing providers) else pure tt)
              >> (try_call crates.fails (
                    spawned_tasks (
                      rpc_extensions crates
                        (parts providers)
                        collator
                        (collator && makes_sink sealing)))
                  >> (spawn_maintenance crates (parts providers)
                      >> (run_call started_network >> pure tt))))
            t)
  unfolding DevEnds
  dev_rest sealing collator providers t h =
      Ends-if collator _ _ _ _
        (λ collates. Ends-run _ _ _ (
          Ends-try _ _ _ _ (λ code. (refl, h))
            (spawn_maintenance-Ends _ _ _
              (Ends-run _ _ _ (Ends-pure _ _ (rw (rpc_extensions_lem, collates) refl))))))
        (λ follows. Ends-skip _ _ (
          Ends-try _ _ _ _ (λ code. h)
            (spawn_maintenance-Ends _ _ _
              (Ends-run _ _ _ (Ends-pure _ _ (rw (rpc_extensions_lem, follows) refl))))))

  new_dev-Ends :
      (config : Configuration) (sealing : Sealing) (author_id : Option ℕ) (collator : Bool)
      → Ends
          (DevStarts crates config sealing author_id collator)
          (new_dev crates config sealing author_id collator [])
  unfolding new_dev DevEnds
  new_dev-Ends config sealing author_id collator =
      Ends-parts (some (providers_of crates.encode author_id true)) author_id true _ _ tt
        (λ e u q. q)
        (Ends-try _ _ _ _ (λ code. (tt, (tt, tt)))
          (Ends-if config.offchain_worker_enabled _ _ _ _
            (λ offchain. Ends-run _ _ _ (
              Ends-imp _ (dev_rest sealing collator _ _ (tt, (tt, (tt, (tt, tt)))))
                (λ a u q. rw offchain q) (λ e u q. q)))
            (λ online. Ends-skip _ _ (
              Ends-imp _ (dev_rest sealing collator _ _ (tt, (tt, (tt, tt)))) (λ a u q. rw online q)
                (λ e u q. q)))))

  pub new_dev-DevStarts :
      (config : Configuration) (sealing : Sealing) (author_id : Option ℕ) (collator : Bool)
      → DevStarts crates config sealing author_id collator
          (new_dev crates config sealing author_id collator []).0
          (new_dev crates config sealing author_id collator []).1
  new_dev-DevStarts config sealing author_id collator =
      (new_dev-Ends config sealing author_id collator).holds
