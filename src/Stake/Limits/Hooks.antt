-- ===== src/Stake/Limits/Hooks.antt =====
-- The hooks of pallets/stake/src/lib.rs and the number of nominations of a nominator.
use moonbeam.Base.{ℕ, List, [], ◌∷◌, arith, ltb, ◌==◌, Option-cases, Bool-cases, inl, inr}
use moonbeam.Base.Map
use moonbeam.Stake.Types.{Bond}
use moonbeam.Stake.Nominator
use moonbeam.Stake.Storage.{Config, State, Result, ok, err, panicked, Call}
use moonbeam.Stake.Storage.Ends.{
  Ends-gets, Ends-then, Ends-event, Ends-or_panic, Ends-call, Ends-pure, Ends-if, Ends-imp,
}
use moonbeam.Stake.Payouts.Frame.{SameStakes, pay_stakers-SameStakes}
use moonbeam.Stake.Rounds.{
  drop_nomination, release_nominators, exit_validator, process_exits,
  execute_delayed_validator_exits, best_candidates_become_validators, end_round, on_finalize,
  forget_error, ignore_error,
}
use moonbeam.Stake.Rounds.Snapshots.{best_candidates-SameStakers}
use moonbeam.Stake.Limits.{IsLimited, Limits}
use moonbeam.Stake.Limits.Lengths.{length-rm_nomination-le, insert-IsLimited, remove-IsLimited}

pub SameStakes-IsLimited :
    {L : Type 0} {max : ℕ} {s t : State L}
    → SameStakes s t
    → IsLimited max s.nominators
    → IsLimited max t.nominators
SameStakes-IsLimited {max = max} q h = rw q.nominators h

module _ {L : Type 0} {max : ℕ} where
  drop_nomination-IsLimited :
      (validator owner : ℕ) (s : State L)
      → IsLimited max s.nominators
      → IsLimited max (drop_nomination validator owner s).nominators
  unfolding drop_nomination
  drop_nomination-IsLimited validator owner s h =
      elim (Option-cases (Map.lookup owner s.nominators)) [
        | inl e ↦ rw (drop_nomination, e) h
        | inr (n, e) ↦ elim (Option-cases (Nominator.rm_nomination validator n).1) [
          | inl gone ↦ rw (drop_nomination, e, gone) h
          | inr (remaining, left) ↦ elim (Bool-cases (remaining == 0)) [
            | inl zero ↦ rw (drop_nomination, e, left, zero) (remove-IsLimited s.nominators h owner)
            | inr more ↦
                rw (drop_nomination, e, left, more)
                  (insert-IsLimited s.nominators h owner _
                    (omega (arith, length-rm_nomination-le validator n, h owner n e)))
          ]
        ]
      ]

  pub ignore_error-Limits :
      (m : Call L) (s : State L) → Limits max (m s) → Limits max (ignore_error m s)
  unfolding ignore_error
  ignore_error-Limits m s kept = go (m s).0 (m s).1 kept.holds
    where
      go :
          (r : Result (Unit {0})) (t : State L)
          → IsLimited max t.nominators
          → Limits max (forget_error (r, t))
      go (ok a) t h = record { holds = h }
      go (err e) t h = record { holds = h }
      go panicked t h = record { holds = h }

module _ {L : Type 0} {max : ℕ} (cfg : Config L) where
  release_nominators-IsLimited :
      (validator : ℕ) (bonds : List Bond) (s : State L)
      → IsLimited max s.nominators
      → IsLimited max (release_nominators cfg validator bonds s).nominators
  unfolding release_nominators
  release_nominators-IsLimited validator [] s h = h
  release_nominators-IsLimited validator (b ∷ bonds) s h =
      release_nominators-IsLimited validator bonds _ (
        drop_nomination-IsLimited validator b.owner
          (record s { ledger = cfg.unreserve b.owner b.amount s.ledger }) h)

  exit_validator-IsLimited :
      (owner : ℕ) (s : State L)
      → IsLimited max s.nominators
      → IsLimited max (exit_validator cfg owner s).nominators
  unfolding exit_validator
  exit_validator-IsLimited owner s h = elim (Option-cases (Map.lookup owner s.candidates)) [
    | inl e ↦ rw (exit_validator, e) h
    | inr (v, e) ↦ rw (exit_validator, e) (release_nominators-IsLimited owner v.nominators s h)
  ]

  process_exits-IsLimited :
      (next : ℕ) (xs : List Bond) (s : State L)
      → IsLimited max s.nominators
      → IsLimited max (process_exits cfg next xs s).1.nominators
  unfolding process_exits
  process_exits-IsLimited next [] s h = h
  process_exits-IsLimited next (x ∷ xs) s h = elim (Bool-cases (ltb next x.amount)) [
    | inl later ↦ rw (later) (process_exits-IsLimited next xs s h)
    | inr due ↦ rw (due) (process_exits-IsLimited next xs _ (exit_validator-IsLimited x.owner s h))
  ]

  pub best_candidates-Limits :
      (next : ℕ) (s : State L)
      → IsLimited max s.nominators
      → Limits max (best_candidates_become_validators cfg next s)
  unfolding best_candidates_become_validators
  best_candidates-Limits next s h =
      Ends-imp _ (best_candidates-SameStakers s cfg next) (λ same. rw same.0 h)

  pub on_finalize-Limits :
      (n : ℕ) (s : State L) → IsLimited max s.nominators → Limits max (on_finalize cfg n s)
  unfolding on_finalize end_round execute_delayed_validator_exits
  on_finalize-Limits n s h =
      Ends-or_panic _ _ _ (λ e. h)
        λ rest e.
          Ends-if (rest == 0) _ _ _
            (λ last. Ends-gets _ _ _ (
              Ends-then _ _ _ (
                Ends-then _ _ _ (
                  Ends-call _ _ _ _
                    (best_candidates-Limits _ _ (
                      process_exits-IsLimited _ _ _
                        (SameStakes-IsLimited (pay_stakers-SameStakes cfg _ s) h)))
                    (λ e t q. q) (λ t q. q) λ counts t q. Ends-then _ _ _ (Ends-event _ _ q)))))
            (λ inside. Ends-pure _ _ h)
