-- ===== src/Stake/Rounds/Finalize.antt =====
-- `on_finalize`: no panic, when a round ends, and what it leaves behind.
use mathlib.Core.List.{Mem, mem-cons_self, mem-cons_of_mem}
use moonbeam.Base.{
  ℕ, ◌%◌, ◌≡◌, ◌≢◌, refl, ap, ◌∙◌, ◌⊎◌, inl, inr, List, [], ◌∷◌, true, arith, ◌==◌, is_some,
  add_u32,
}
use moonbeam.Base.Map
use moonbeam.OrderedSet
use moonbeam.Stake.Storage.{Config, State, Result, ok, err, panicked}
use moonbeam.Stake.Storage.Ends.{
  Ends, Ends-gets, Ends-then, Ends-event, Ends-or_panic, Ends-pure, Ends-call, Ends-log, Ends-if,
  Ends-imp,
}
use moonbeam.Stake.Payouts.{pay_stakers}
use moonbeam.Stake.Payouts.Frame.{SameStakes, pay_stakers-SameStakes}
use moonbeam.Stake.Agrees.{IsConsistent}
use moonbeam.Stake.Rounds.{
  select, snapshot_each, best_candidates_become_validators, execute_delayed_validator_exits,
  end_round, on_finalize,
}
use moonbeam.Stake.Rounds.Exits.{
  after_exits, lookup-execute_delayed_validator_exits, execute_delayed_validator_exits-IsConsistent,
  execute_delayed_validator_exits-pool,
}
use moonbeam.Stake.Rounds.Selection.{SortsByAmount, select-find}

abbrev pub IsOk : {A : Type 0} → Result A → Type 0
IsOk (ok a) = Unit
IsOk (err e) = ⊥
IsOk panicked = ⊥

-- What the snapshots leave alone.
abbrev pub SameStorage : {L : Type 0} → State L → State L → Type 0
SameStorage s t =
    (t.candidates ≡ s.candidates)
    × (t.candidate_pool ≡ s.candidate_pool)
    × (t.exit_queue ≡ s.exit_queue)
    × (t.round ≡ s.round)
    × (t.total ≡ s.total)

module _ {L : Type 0} where
  snapshot_each-Ends :
      (next : ℕ) (accounts : List ℕ) (count total : ℕ) (s t : State L)
      → SameStorage s t
      → ((a : ℕ) → Mem a accounts → is_some (Map.lookup a s.candidates) ≡ true)
      → Ends (λ r u. IsOk r × SameStorage s u) (snapshot_each next accounts count total t)
  unfolding snapshot_each
  snapshot_each-Ends next [] count total s t same known = Ends-pure _ _ (tt, same)
  snapshot_each-Ends next (a ∷ accounts) count total s t same known = Ends-gets _ _ _ (
      Ends-or_panic _ _ _ (λ missing. absurd (ground (arith, known a mem-cons_self)))
        λ v found. Ends-then _ _ _ (
          Ends-log _ _ _
            (snapshot_each-Ends next accounts _ _ s _ same (λ b m. known b (mem-cons_of_mem a m)))))

pub SameStorage-IsConsistent :
    {L : Type 0} (s t : State L) → SameStorage s t → IsConsistent s → IsConsistent t
SameStorage-IsConsistent s t q h = rw (q.0, q.1, q.2) h

pub SameStakes-IsConsistent :
    {L : Type 0} {s t : State L} → SameStakes s t → IsConsistent s → IsConsistent t
SameStakes-IsConsistent q h = rw (q.candidates, q.candidate_pool, q.exit_queue) h

-- What the end of a round leaves behind, from the state `s` before it.
pub record RoundEnd {L : Type 0} (cfg : Config L) (s t : State L) : Type 0 where
  pub consistent : IsConsistent t
  pub round : t.round ≡ add_u32 s.round 1
  pub pool : t.candidate_pool ≡ s.candidate_pool
  pub exits :
      (a : ℕ)
      → Map.lookup a t.candidates ≡ after_exits (add_u32 s.round 1) (Map.lookup a s.candidates)
  pub chosen : t.validators ≡ OrderedSet.sort (λ (a : ℕ). a) (select cfg s.candidate_pool)
  pub staked : t.staked (add_u32 s.round 1) ≡ t.total

module _ {L : Type 0} (cfg : Config L) where
  -- What `on_finalize` does at block `n`.
  abbrev pub Finalized : ℕ → State L → Result (Unit {0}) → State L → Type 0
  Finalized n s r t =
      (r ≡ ok tt)
      × (((n % cfg.blocks_per_round ≡ 0) × RoundEnd cfg s t)
          ⊎ ((n % cfg.blocks_per_round ≢ 0) × (t ≡ s)))

module _ {L : Type 0} (cfg : Config L) (sorts : SortsByAmount cfg.sort_unstable_by_amount) where
  pool_known :
      (s : State L) (a : ℕ)
      → IsConsistent s
      → Mem a (select cfg s.candidate_pool)
      → is_some (Map.lookup a s.candidates) ≡ true
  pool_known s a h m = ground (arith, select-find cfg sorts s.candidate_pool a m, h.pool_agrees a)

  pub best_candidates-Ends :
      (next : ℕ) (s : State L)
      → IsConsistent s
      → Ends
          (λ r t.
            IsOk r
            × SameStorage s t
            × (t.validators ≡ OrderedSet.sort (λ (a : ℕ). a) (select cfg s.candidate_pool)))
          (best_candidates_become_validators cfg next s)
  unfolding best_candidates_become_validators
  best_candidates-Ends next s h = Ends-gets _ _ _ (
      Ends-call (λ r t. IsOk r × SameStorage s t) _ _ _
        (snapshot_each-Ends next (select cfg s.candidate_pool) 0 0 s s
          (refl, refl, refl, refl, refl) (λ a m. pool_known s a h m))
        (λ e t q. absurd q.0) (λ t q. absurd q.0)
        λ chosen t q. Ends-then _ _ _ (Ends-pure _ _ (tt, q.1, refl)))

  -- The state once the stakers are paid and the exits executed.
  abbrev settled : State L → State L
  settled s =
      execute_delayed_validator_exits cfg (add_u32 s.round 1)
        (pay_stakers cfg (add_u32 s.round 1) s)

  settled_lem :
      (s : State L)
      → IsConsistent s
      → IsConsistent (settled s)
        × ((settled s).candidate_pool ≡ s.candidate_pool)
        × ((a : ℕ)
            → Map.lookup a (settled s).candidates
              ≡ after_exits (add_u32 s.round 1) (Map.lookup a s.candidates))
  settled_lem s h =
      let next = add_u32 s.round 1 in
      let paid = pay_stakers cfg next s in
      let same = pay_stakers-SameStakes cfg next s in
      let paid_ok : IsConsistent paid = SameStakes-IsConsistent same h in
      (
        execute_delayed_validator_exits-IsConsistent cfg next paid paid_ok,
        execute_delayed_validator_exits-pool cfg next paid ∙ same.candidate_pool,
        λ a.
            lookup-execute_delayed_validator_exits cfg next a paid paid_ok
            ∙ ap (λ m. after_exits next (Map.lookup a m)) same.candidates,
      )

  end_round-Ends :
      (n : ℕ) (s : State L)
      → IsConsistent s
      → Ends (λ r t. IsOk r × RoundEnd cfg s t) (end_round cfg n s)
  unfolding end_round
  end_round-Ends n s h =
      let (ok_before, same_pool, left) = settled_lem s h in
      Ends-gets _ _ _ (
        Ends-then _ _ _ (
          Ends-then _ _ _ (
            Ends-call _ _ _ _ (best_candidates-Ends (add_u32 s.round 1) (settled s) ok_before)
              (λ e t q. absurd q.0) (λ t q. absurd q.0)
              λ counts t q. Ends-then _ _ _ (
                Ends-event _ _ (
                  tt,
                  record {
                    consistent = SameStorage-IsConsistent (settled s) t q.1 ok_before;
                    round = refl;
                    pool = q.1.1 ∙ same_pool;
                    exits = λ a. ap (Map.lookup a) q.1.0 ∙ left a;
                    chosen =
                        q.2 ∙ ap (λ p. OrderedSet.sort (λ (a : ℕ). a) (select cfg p)) same_pool;
                    staked = ground arith;
                  },
                )))))

  ok-eq : (r : Result (Unit {0})) → IsOk r → r ≡ ok tt
  ok-eq (ok a) h = refl
  ok-eq (err e) h = absurd h
  ok-eq panicked h = absurd h

  pub on_finalize-Ends :
      (n : ℕ) (s : State L)
      → cfg.blocks_per_round ≢ 0
      → IsConsistent s
      → Ends (Finalized cfg n s) (on_finalize cfg n s)
  unfolding on_finalize
  on_finalize-Ends n s running h =
      Ends-or_panic _ _ _ (λ e. absurd (ground arith))
        λ rest e.
          Ends-if (rest == 0) _ _ _
            (λ last.
              Ends-imp _ (end_round-Ends n s h) (λ q. (ok-eq _ q.0, inl (ground arith, q.1))))
            (λ inside. Ends-pure _ _ (refl, inr (ground arith, refl)))

  -- From a consistent storage `on_finalize` never panics nor fails. Unless the block is the last
  -- of a round it changes nothing; at the last block it ends the round: the storage stays
  -- consistent, exactly the candidates whose exit is due are gone, and the validators are those
  -- selected from the pool.
  pub on_finalize-Finalized :
      (n : ℕ) (s : State L)
      → cfg.blocks_per_round ≢ 0
      → IsConsistent s
      → Finalized cfg n s (on_finalize cfg n s).0 (on_finalize cfg n s).1
  on_finalize-Finalized n s running h = (on_finalize-Ends n s running h).holds
