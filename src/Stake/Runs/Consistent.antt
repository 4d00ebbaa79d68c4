-- ===== src/Stake/Runs/Consistent.antt =====
-- The storage stays consistent through every history.
use moonbeam.Base.{ℕ, ◌≡◌, ◌≢◌, refl, inl, inr, Bool, Option, none, some, List, [], ◌∷◌}
use moonbeam.Base.Map
use moonbeam.OrderedSet
use moonbeam.Stake.Types.{Range}
use moonbeam.Stake.Storage.{Config, State, Result, ok, err, panicked, Call}
use moonbeam.Stake.Storage.Ends.{
  Ends-gets, Ends-then, Ends-log, Ends-modify, Ends-ensure, Ends-origin, Ends-or_panic, Ends-event,
  Ends-imp, Ends-also, Ends-call, Ends-pure, Ends-or_panic_last,
}
use moonbeam.Stake.Payouts.Frame.{note_author-SameStakes}
use moonbeam.Stake.Rounds.{
  forget_error, ignore_error, genesis_call, genesis_staker, genesis_stakers, genesis_build,
}
use moonbeam.Stake.Rounds.Selection.{SortsByAmount}
use moonbeam.Stake.Rounds.Finalize.{
  Finalized, on_finalize-Ends, SameStakes-IsConsistent, SameStorage-IsConsistent,
  best_candidates-Ends,
}
use moonbeam.Stake.Admin.{set_staking_expectations, set_inflation}
use moonbeam.Stake.Agrees.{IsConsistent}
use moonbeam.Stake.Agrees.Candidates.{
  Keeps, join_candidates-Keeps, leave_candidates-Keeps, go_offline-Keeps, go_online-Keeps,
  candidate_bond_more-Keeps, candidate_bond_less-Keeps,
}
use moonbeam.Stake.Agrees.Nominators.{
  join_nominators-Keeps, leave_nominators-Keeps, nominate_new-Keeps, switch_nomination-Keeps,
  revoke_nomination-Keeps, nominator_bond_more-Keeps, nominator_bond_less-Keeps,
}
use moonbeam.Stake.Runs.{Step, step, run}

module _ {L : Type 0} (s : State L) (h : IsConsistent s) where
  set_staking_expectations-Keeps :
      (origin : Bool) (r : Range) → Keeps (set_staking_expectations origin r s)
  unfolding set_staking_expectations
  set_staking_expectations-Keeps origin r =
      Ends-origin _ _ _ h λ allowed.
        Ends-ensure _ _ _ _ h λ valid. Ends-gets _ _ _ (Ends-log _ _ _ (Ends-modify _ _ h))

  set_inflation-Keeps :
      (cfg : Config L) (origin : Bool) (r : Range) → Keeps (set_inflation cfg origin r s)
  unfolding set_inflation
  set_inflation-Keeps cfg origin r = Ends-origin _ _ _ h λ allowed. Ends-ensure _ _ _ _ h λ valid.
      Ends-gets _ _ _ (Ends-or_panic _ _ _ (λ e. h) λ config e. Ends-log _ _ _ (Ends-modify _ _ h))

module _ {L : Type 0} (cfg : Config L) (sorts : SortsByAmount cfg.sort_unstable_by_amount)
    (running : cfg.blocks_per_round ≢ 0) where
  Finalized-IsConsistent :
      (n : ℕ) (s : State L)
      → IsConsistent s
      → {r : Result (Unit {0})} {t : State L} → Finalized cfg n s r t
      → IsConsistent t
  Finalized-IsConsistent n s h (e, inl (last, end)) = end.consistent
  Finalized-IsConsistent n s h (e, inr (inside, same)) = rw same h

  -- Every step keeps the storage consistent.
  step-Keeps : (x : Step L) (s : State L) → IsConsistent s → Keeps (step cfg x s)
  unfolding step
  step-Keeps (Step.set_staking_expectations origin r) s h =
      set_staking_expectations-Keeps s h origin r
  step-Keeps (Step.set_inflation origin r) s h = set_inflation-Keeps s h cfg origin r
  step-Keeps (Step.join_candidates origin fee bond) s h =
      join_candidates-Keeps cfg s h origin fee bond
  step-Keeps (Step.leave_candidates origin) s h = leave_candidates-Keeps cfg s h origin
  step-Keeps (Step.go_offline origin) s h = go_offline-Keeps s h origin
  step-Keeps (Step.go_online origin) s h = go_online-Keeps s h origin
  step-Keeps (Step.candidate_bond_more origin more) s h =
      candidate_bond_more-Keeps cfg s h origin more
  step-Keeps (Step.candidate_bond_less origin less) s h =
      candidate_bond_less-Keeps cfg s h origin less
  step-Keeps (Step.join_nominators origin v amount) s h =
      join_nominators-Keeps cfg s origin v amount h
  step-Keeps (Step.leave_nominators origin) s h = leave_nominators-Keeps cfg s origin h
  step-Keeps (Step.nominate_new origin v amount) s h = nominate_new-Keeps cfg s origin v amount h
  step-Keeps (Step.switch_nomination origin old new) s h =
      switch_nomination-Keeps cfg s origin old new h
  step-Keeps (Step.revoke_nomination origin v) s h = revoke_nomination-Keeps cfg s origin v h
  step-Keeps (Step.nominator_bond_more origin c more) s h =
      nominator_bond_more-Keeps cfg s origin c more h
  step-Keeps (Step.nominator_bond_less origin c less) s h =
      nominator_bond_less-Keeps cfg s origin c less h
  step-Keeps (Step.note_author author) s h =
      Ends-modify _ _ (SameStakes-IsConsistent (note_author-SameStakes author s) h)
  step-Keeps (Step.on_finalize n) s h =
      Ends-imp _ (on_finalize-Ends cfg sorts n s running h) (Finalized-IsConsistent n s h)
  step-Keeps (Step.ledger_changes l) s h = Ends-modify _ _ h

  run-Keeps : (xs : List (Step L)) (s : State L) → IsConsistent s → IsConsistent (run cfg xs s)
  unfolding run
  run-Keeps [] s h = h
  run-Keeps (x ∷ xs) s h = run-Keeps xs _ (step-Keeps x s h).holds

-- The storage items before genesis.
pub record IsBlank {L : Type 0} (s : State L) : Type 0 where
  pub candidates : s.candidates ≡ []
  pub candidate_pool : s.candidate_pool ≡ []
  pub exit_queue : s.exit_queue ≡ []

blank-IsConsistent : {L : Type 0} {s : State L} → IsBlank s → IsConsistent s
unfolding Map.lookup OrderedSet.find
blank-IsConsistent b =
    rw (b.candidates, b.candidate_pool, b.exit_queue)
      (record {
        pool_sorted = tt;
        exits_sorted = tt;
        pool_agrees = λ a. refl;
        exits_agree = λ a. refl;
      })

module _ {L : Type 0} (cfg : Config L) (sorts : SortsByAmount cfg.sort_unstable_by_amount) where
  ignore_error-Keeps : (m : Call L) (s : State L) → Keeps (m s) → Keeps (ignore_error m s)
  unfolding ignore_error
  ignore_error-Keeps m s kept = go (m s).0 (m s).1 kept.holds
    where
      go : (r : Result (Unit {0})) (t : State L) → IsConsistent t → Keeps (forget_error (r, t))
      go (ok a) t h = record { holds = h }
      go (err e) t h = record { holds = h }
      go panicked t h = record { holds = h }

  genesis_call-Keeps :
      (actor : ℕ) (opt_val : Option ℕ) (balance : ℕ) (s : State L)
      → IsConsistent s
      → Keeps (genesis_call cfg actor opt_val balance s)
  unfolding genesis_call
  genesis_call-Keeps actor none balance s h = join_candidates-Keeps cfg s h (some actor) 0 balance
  genesis_call-Keeps actor (some v) balance s h =
      join_nominators-Keeps cfg s (some actor) v balance h

  genesis_stakers-Keeps :
      (xs : List (ℕ × Option ℕ × ℕ)) (s : State L)
      → IsConsistent s
      → Keeps (genesis_stakers cfg xs s)
  unfolding genesis_stakers genesis_staker
  genesis_stakers-Keeps [] s h = Ends-pure _ _ h
  genesis_stakers-Keeps ((actor, opt_val, balance) ∷ xs) s h =
      Ends-also _ _ _
        (Ends-gets _ _ _ (
          Ends-also _ _ _ (Ends-or_panic_last _ _ h (λ a. h))
            λ t k. ignore_error-Keeps _ t (genesis_call-Keeps actor opt_val balance t k)))
        λ t k. genesis_stakers-Keeps xs t k

  genesis_build-Keeps :
      (xs : List (ℕ × Option ℕ × ℕ)) (s : State L) → IsConsistent s → Keeps (genesis_build cfg xs s)
  unfolding genesis_build
  genesis_build-Keeps xs s h = Ends-also _ _ _ (genesis_stakers-Keeps xs s h) λ t k.
      Ends-call _ _ _ _ (best_candidates-Ends cfg sorts 1 t k) (λ e u q. absurd q.0)
        (λ u q. absurd q.0)
        λ counts u q. Ends-then _ _ _ (Ends-event _ _ (SameStorage-IsConsistent t u q.1 k))

  -- After the genesis build on blank storage and any history of dispatchables, hooks and changes of
  -- the ledger elsewhere, the storage is consistent, and `on_finalize` at any block still returns
  -- without a panic and without an error.
  pub run-IsConsistent :
      (stakers : List (ℕ × Option ℕ × ℕ)) (xs : List (Step L)) (n : ℕ) (s : State L)
      → cfg.blocks_per_round ≢ 0
      → IsBlank s
      → let t = run cfg xs (genesis_build cfg stakers s).1 in
        IsConsistent t × ((step cfg (Step.on_finalize n) t).0 ≡ ok tt)
  unfolding step
  run-IsConsistent stakers xs n s running blank =
      let start = (genesis_build-Keeps stakers s (blank-IsConsistent blank)).holds in
      let kept = run-Keeps cfg sorts running xs _ start in
      (kept, (on_finalize-Ends cfg sorts n _ running kept).holds.0)
