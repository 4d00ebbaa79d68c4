-- ===== src/Stake/Storage/Ends.antt =====
-- What holds when a dispatchable ends, by one rule for each kind of step.
use moonbeam.Base.{
  ℕ, ◌≡◌, refl, Bool, true, false, Option, none, some, [], ◌∷◌, ◌++◌, if◌then◌else◌,
}
use moonbeam.Stake.Types.{Error, Event}
use moonbeam.Stake.Storage.{
  Config, State, DispatchError, bad_origin, reserve_failed, module_error, Result, ok, err, panicked,
  M, pure, gets, modify, deposit_event, ensure, ensure_signed, ensure_origin, ok_or, or_panic,
  reserve, unreserve, settle, continue, ◌>>=◌, ◌>>◌,
}

-- `P` holds of the result and the state that a call ends with.
pub record Ends {L A : Type 0} (P : Result A → State L → Type 0) (r : Result A × State L)
    : Type 0 where
  pub holds : P r.0 r.1

module _ {L A : Type 0} {P : Result A → State L → Type 0} where
  pub Ends-pure : (a : A) (s : State L) → P (ok a) s → Ends P (pure a s)
  unfolding pure
  Ends-pure a s h = record { holds = h }

module _ {L : Type 0} {P : Result (Unit {0}) → State L → Type 0} where
  pub Ends-modify : (f : State L → State L) (s : State L) → P (ok tt) (f s) → Ends P (modify f s)
  unfolding modify
  Ends-modify f s h = record { holds = h }

  pub Ends-event :
      (e : Event) (s : State L)
      → P (ok tt) (record s { events = s.events ++ e ∷ [] })
      → Ends P (deposit_event e s)
  unfolding deposit_event
  Ends-event e s h = record { holds = h }

module _ {L B : Type 0} {P : Result B → State L → Type 0} where
  pub Ends-ensure :
      (b : Bool) (e : Error) (k : M L B) (s : State L)
      → P (err (module_error e)) s
      → (b ≡ true → Ends P (k s))
      → Ends P ((ensure b e >> k) s)
  unfolding ensure ◌>>◌
  Ends-ensure true e k s failed rest = rest refl
  Ends-ensure false e k s failed rest = record { holds = failed }

  pub Ends-origin :
      (b : Bool) (k : M L B) (s : State L)
      → P (err bad_origin) s
      → (b ≡ true → Ends P (k s))
      → Ends P ((ensure_origin b >> k) s)
  unfolding ensure_origin ◌>>◌
  Ends-origin true k s failed rest = rest refl
  Ends-origin false k s failed rest = record { holds = failed }

  pub Ends-signed :
      (origin : Option ℕ) (f : ℕ → M L B) (s : State L)
      → P (err bad_origin) s
      → ((acc : ℕ) → origin ≡ some acc → Ends P (f acc s))
      → Ends P ((ensure_signed origin >>= f) s)
  unfolding ensure_signed ◌>>=◌
  Ends-signed none f s failed rest = record { holds = failed }
  Ends-signed (some acc) f s failed rest = rest acc refl

  pub Ends-reserve :
      (cfg : Config L) (acc amount : ℕ) (k : M L B) (s : State L)
      → P (err reserve_failed) s
      → ((l : L) → cfg.reserve acc amount s.ledger ≡ some l → Ends P (k (record s { ledger = l })))
      → Ends P ((reserve cfg acc amount >> k) s)
  unfolding reserve ◌>>◌
  Ends-reserve cfg acc amount k s failed rest = go (cfg.reserve acc amount s.ledger) rest
    where
      go :
          (o : Option L)
          → ((l : L) → o ≡ some l → Ends P (k (record s { ledger = l })))
          → Ends P (continue (λ _. k) (settle s o))
      go none next = record { holds = failed }
      go (some l) next = next l refl

  pub Ends-unreserve :
      (cfg : Config L) (acc amount : ℕ) (k : M L B) (s : State L)
      → Ends P (k (record s { ledger = cfg.unreserve acc amount s.ledger }))
      → Ends P ((unreserve cfg acc amount >> k) s)
  unfolding unreserve ◌>>◌
  Ends-unreserve cfg acc amount k s rest = rest

  pub Ends-then :
      (f : State L → State L) (k : M L B) (s : State L)
      → Ends P (k (f s))
      → Ends P ((modify f >> k) s)
  unfolding modify ◌>>◌
  Ends-then f k s rest = rest

  pub Ends-log :
      (e : Event) (k : M L B) (s : State L)
      → Ends P (k (record s { events = s.events ++ e ∷ [] }))
      → Ends P ((deposit_event e >> k) s)
  unfolding deposit_event ◌>>◌
  Ends-log e k s rest = rest

module _ {L A B : Type 0} {P : Result B → State L → Type 0} where
  pub Ends-gets :
      (g : State L → A) (f : A → M L B) (s : State L)
      → Ends P (f (g s) s)
      → Ends P ((gets g >>= f) s)
  unfolding gets ◌>>=◌
  Ends-gets g f s rest = rest

  pub Ends-ok_or :
      (o : Option A) (e : Error) (f : A → M L B) (s : State L)
      → P (err (module_error e)) s
      → ((a : A) → o ≡ some a → Ends P (f a s))
      → Ends P ((ok_or o e >>= f) s)
  unfolding ok_or ◌>>=◌
  Ends-ok_or none e f s failed rest = record { holds = failed }
  Ends-ok_or (some a) e f s failed rest = rest a refl

  pub Ends-or_panic :
      (o : Option A) (f : A → M L B) (s : State L)
      → (o ≡ none → P panicked s)
      → ((a : A) → o ≡ some a → Ends P (f a s))
      → Ends P ((or_panic o >>= f) s)
  unfolding or_panic ◌>>=◌
  Ends-or_panic none f s failed rest = record { holds = failed refl }
  Ends-or_panic (some a) f s failed rest = rest a refl

  -- A call within a call: its errors and panics end the block.
  pub Ends-call :
      (Q : Result A → State L → Type 0) (m : M L A) (f : A → M L B) (s : State L)
      → Ends Q (m s)
      → ((e : DispatchError) (t : State L) → Q (err e) t → P (err e) t)
      → ((t : State L) → Q panicked t → P panicked t)
      → ((a : A) (t : State L) → Q (ok a) t → Ends P (f a t))
      → Ends P ((m >>= f) s)
  unfolding ◌>>=◌
  Ends-call Q m f s run errors panics rest = go (m s).0 (m s).1 run.holds
    where
      go : (r : Result A) (t : State L) → Q r t → Ends P (continue f (r, t))
      go (ok a) t q = rest a t q
      go (err e) t q = record { holds = errors e t q }
      go panicked t q = record { holds = panics t q }

-- A read of a storage map that must find its key.
module _ {L A B : Type 0} {P : Result B → State L → Type 0} where
  pub Ends-read :
      (g : State L → Option A) (e : Error) (f : A → M L B) (s : State L)
      → P (err (module_error e)) s
      → ((a : A) → g s ≡ some a → Ends P (f a s))
      → Ends P (((gets g >>= λ o. ok_or o e) >>= f) s)
  unfolding gets ◌>>=◌
  Ends-read g e f s failed rest = Ends-ok_or (g s) e f s failed rest

-- A call within a call, where what holds speaks of the state alone.
module _ {L A B : Type 0} {P : State L → Type 0} where
  pub Ends-also :
      (m : M L A) (k : M L B) (s : State L)
      → Ends (λ (r : Result A) t. P t) (m s)
      → ((t : State L) → P t → Ends (λ (r : Result B) t. P t) (k t))
      → Ends (λ (r : Result B) t. P t) ((m >> k) s)
  unfolding ◌>>◌
  Ends-also m k s run rest =
      Ends-call (λ r t. P t) m (λ _. k) s run (λ e t p. p) (λ t p. p) (λ a t p. rest t p)

module _ {L A : Type 0} {P : Result A → State L → Type 0} where
  pub Ends-if :
      (b : Bool) (m k : M L A) (s : State L)
      → (b ≡ true → Ends P (m s))
      → (b ≡ false → Ends P (k s))
      → Ends P ((if b then m else k) s)
  Ends-if true m k s yes_case no_case = yes_case refl
  Ends-if false m k s yes_case no_case = no_case refl

  -- What holds of every way to end follows from what holds here.
  pub Ends-imp :
      {Q : Result A → State L → Type 0} (r : Result A × State L)
      → Ends Q r
      → (Q r.0 r.1 → P r.0 r.1)
      → Ends P r
  Ends-imp r run imp = record { holds = imp run.holds }

  pub Ends-or_panic_last :
      (o : Option A) (s : State L) → P panicked s → ((a : A) → P (ok a) s) → Ends P (or_panic o s)
  unfolding or_panic
  Ends-or_panic_last none s failed done = record { holds = failed }
  Ends-or_panic_last (some a) s failed done = record { holds = done a }

-- What is known to be there is found.
module _ {L A B : Type 0} {P : Result B → State L → Type 0} where
  pub Ends-some :
      (o : Option A) (e : Error) (f : A → M L B) (s : State L) (a : A)
      → o ≡ some a
      → Ends P (f a s)
      → Ends P ((ok_or o e >>= f) s)
  unfolding ok_or ◌>>=◌
  Ends-some o e f s a found rest = rw found rest

  pub Ends-read_some :
      (g : State L → Option A) (e : Error) (f : A → M L B) (s : State L) (a : A)
      → g s ≡ some a
      → Ends P (f a s)
      → Ends P (((gets g >>= λ o. ok_or o e) >>= f) s)
  unfolding gets ◌>>=◌
  Ends-read_some g e f s a found rest = Ends-some (g s) e f s a found rest

-- A call within a call whose result is not used.
module _ {L A B : Type 0} {P : Result B → State L → Type 0} where
  pub Ends-call_then :
      (Q : Result A → State L → Type 0) (m : M L A) (k : M L B) (s : State L)
      → Ends Q (m s)
      → ((e : DispatchError) (t : State L) → Q (err e) t → P (err e) t)
      → ((t : State L) → Q panicked t → P panicked t)
      → ((a : A) (t : State L) → Q (ok a) t → Ends P (k t))
      → Ends P ((m >> k) s)
  unfolding ◌>>◌
  Ends-call_then Q m k s run errors panics rest = Ends-call Q m (λ _. k) s run errors panics rest

pub Ends-and :
    {L A : Type 0} {P Q : Result A → State L → Type 0} (r : Result A × State L)
    → Ends P r
    → Ends Q r
    → Ends (λ a t. P a t × Q a t) r
Ends-and r p q = record { holds = (p.holds, q.holds) }
