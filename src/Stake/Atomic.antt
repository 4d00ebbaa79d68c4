-- ===== src/Stake/Atomic.antt =====
-- Errors of the dispatchables of pallets/stake/src/lib.rs: how a call that does not succeed leaves
-- the state.
pub mod Candidates
pub mod Nominators
pub mod Steps
use moonbeam.Base.{◌≡◌}
use moonbeam.Stake.Storage.{State, Result, ok, err, panicked, ◌>>◌}
use moonbeam.Stake.Storage.Ends.{Ends, Ends-call}

-- How a call on `s` may end: well, or with an error and the state that it began with.
abbrev pub Atomic : {L A : Type 0} → State L → Result A → State L → Type 0
Atomic s (ok a) t = Unit
Atomic s (err e) t = t ≡ s
Atomic s panicked t = ⊥

-- A call that ends so, before steps that cannot fail any more.
pub Ends-next :
    {L A B : Type 0} (s : State L) (m : State L → Result A × State L)
    (k : State L → Result B × State L)
    → Ends (Atomic s) (m s)
    → ((t : State L) → Ends (Atomic s) (k t))
    → Ends (Atomic s) ((m >> k) s)
unfolding ◌>>◌
Ends-next s m k run rest =
    Ends-call (Atomic s) m (λ _. k) s run (λ e t p. p) (λ t p. p) (λ a t p. rest t)
