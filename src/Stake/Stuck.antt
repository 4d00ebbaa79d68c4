-- ===== src/Stake/Stuck.antt =====
-- A nominator that a validator no longer lists: `leave_nominators` of pallets/stake/src/lib.rs.
use mathlib.Core.Path.{subst}
use moonbeam.Base.{ℕ, ◌≡◌, ◌≢◌, refl, sym, ◌∙◌, Option, none, some, List, [], ◌∷◌, arith}
use moonbeam.Base.Map
use moonbeam.Base.Map.{lookup-insert}
use moonbeam.Stake.Types.{Bond, Validator as Candidate, Nominator as Nominations}
use moonbeam.Stake.Nominator
use moonbeam.Stake.Storage.{Config, State, M, Result, ok, err, panicked, ◌>>◌}
use moonbeam.Stake.Storage.Ends.{
  Ends, Ends-then, Ends-signed, Ends-read, Ends-unreserve, Ends-ok_or, Ends-event, Ends-call,
}
use moonbeam.Stake.NominatorCalls.{nominator_leaves_validator, leave_each, leave_nominators}

-- The validator, if it is a candidate at all, lists no bond of the account.
abbrev pub Unlisted : {L : Type 0} → ℕ → ℕ → State L → Type 0
Unlisted acc v s =
    (c : Candidate)
    → Map.lookup v s.candidates ≡ some c
    → Nominator.last_amount acc none c.nominators ≡ none

-- A call ended with an error.
abbrev pub Fails : {A : Type 0} → Result A → Type 0
Fails (ok a) = ⊥
Fails (err e) = Unit
Fails panicked = ⊥

-- How leaving the validator `w` ends: with an error, or `w` is another one and `v` still lists no bond.
Leaves : {L A : Type 0} → ℕ → ℕ → ℕ → Result A → State L → Type 0
Leaves acc v w (ok a) t = (w ≢ v) × Unlisted acc v t
Leaves acc v w (err e) t = Unit
Leaves acc v w panicked t = ⊥

IsSome : Option ℕ → Type 0
IsSome none = ⊥
IsSome (some a) = Unit

-- What comes after a call that fails is not run.
Fails-then :
    {L A B : Type 0} (m : M L A) (k : M L B) (s : State L)
    → Ends (λ (r : Result A) t. Fails r) (m s)
    → Ends (λ (r : Result B) t. Fails r) ((m >> k) s)
unfolding ◌>>◌
Fails-then m k s run =
    Ends-call (λ r t. Fails r) m (λ _. k) s run (λ e t q. tt) (λ t q. q) (λ a t q. absurd q)

-- The account of an origin, and the amount that a nominator has at `v`.
IsSigner : ℕ → Option ℕ → Type 0
IsSigner acc none = ⊥
IsSigner acc (some signer) = signer ≡ acc

Nominates : ℕ → ℕ → Option Nominations → Type 0
Nominates v amount none = ⊥
Nominates v amount (some n) = Nominator.first_amount v n.nominations ≡ some amount

lookup-insert_other :
    {V : Type 0} (k j : ℕ) (v : V) (m : Map.Map V)
    → k ≢ j
    → Map.lookup j (Map.insert k v m) ≡ Map.lookup j m
lookup-insert_other k j v m other = ground (arith, lookup-insert k j v m, other)

first_amount_later :
    (v : ℕ) (x : Bond) (xs : List Bond)
    → x.owner ≢ v
    → Nominator.first_amount v (x ∷ xs) ≡ Nominator.first_amount v xs
unfolding Nominator.first_amount
first_amount_later v x xs other = ground (arith, other)

module _ {L : Type 0} (cfg : Config L) (acc v : ℕ) where
  nominator_leaves_validator-Leaves :
      (w : ℕ) (s : State L)
      → Unlisted acc v s
      → Ends (Leaves acc v w) (nominator_leaves_validator cfg acc w s)
  unfolding nominator_leaves_validator Leaves IsSome
  nominator_leaves_validator-Leaves w s h = Ends-read _ _ _ _ tt λ c found.
      Ends-ok_or _ _ _ _ tt λ stake listed.
        let other : w ≢ v = λ same.
          subst IsSome
            (sym listed ∙ h c (subst (λ k. Map.lookup k s.candidates ≡ some c) same found)) tt in
        Ends-unreserve _ _ _ _ _ (
          Ends-then _ _ _ (
            Ends-then _ _ _ (
              Ends-then _ _ _ (
                Ends-event _ _ (
                  other,
                  λ c' found'. h c' (sym (lookup-insert_other w v _ s.candidates other) ∙ found'),
                )))))

  leave_each-Fails :
      (bonds : List Bond) (amount : ℕ) (s : State L)
      → Nominator.first_amount v bonds ≡ some amount
      → Unlisted acc v s
      → Ends (λ (r : Result (Unit {0})) t. Fails r) (leave_each cfg acc bonds s)
  unfolding leave_each Nominator.first_amount ◌>>◌ Leaves IsSome
  leave_each-Fails [] amount s nominated h = absurd (subst IsSome (sym nominated) tt)
  leave_each-Fails (x ∷ xs) amount s nominated h =
      Ends-call (Leaves acc v x.owner) (nominator_leaves_validator cfg acc x.owner)
        (λ _. leave_each cfg acc xs) s (nominator_leaves_validator-Leaves x.owner s h) (λ e t q. tt)
        (λ t q. q)
        (λ a t q.
          leave_each-Fails xs amount t (sym (first_amount_later v x xs q.0) ∙ nominated) q.1)

  -- If a nominator has a nomination of a validator that, where it is a candidate, lists no bond of the
  -- nominator, then leave_nominators returns an error and does not succeed or panic.
  pub leave_nominators-Fails :
      (n : Nominations) (amount : ℕ) (s : State L)
      → Map.lookup acc s.nominators ≡ some n
      → Nominator.first_amount v n.nominations ≡ some amount
      → Unlisted acc v s
      → Fails (leave_nominators cfg (some acc) s).0
  unfolding leave_nominators IsSigner Nominates
  leave_nominators-Fails n amount s found nominated h =
      let run : Ends (λ (r : Result (Unit {0})) t. Fails r) (leave_nominators cfg (some acc) s) =
        Ends-signed _ _ _ tt λ signer signed.
          let same = subst (IsSigner acc) signed refl in
          Ends-read _ _ _ _ tt λ n' found'.
            let has =
              subst (Nominates v amount)
                (sym found ∙ subst (λ k. Map.lookup k s.nominators ≡ some n') same found')
                nominated in
            Fails-then _ _ s (
              subst
                (λ k.
                  Ends (λ (r : Result (Unit {0})) t. Fails r) (leave_each cfg k n'.nominations s))
                (sym same) (leave_each-Fails n'.nominations amount s has h)) in
      run.holds
