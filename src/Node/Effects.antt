-- ===== src/Node/Effects.antt =====
-- What a starting node does, as the list of its calls of other crates, the newest first, and the errors
-- that end it.
use moonbeam.Base.{ℕ, ◌≡◌, refl, Bool, true, false, Option, none, some, List, ◌∷◌, if◌then◌else◌}
use moonbeam.Node.Inherents.{Provider}
use Prim.Native.String.{String}
use moonbeam.Node.Cli.{Subcommand}
use moonbeam.Node.Rpc.{Interface}
use moonbeam.Node.Sealing.{Sealing}

-- The interfaces are those for each answer to whether unsafe calls are denied; a network has the id of
-- the parachain whose block announcements it validates, and the relay chain's node the number of its loaded
-- specification. Output goes to a file, or to the standard output.
pub data Effect : Type 0 where
  started_relay_node : ℕ → Effect
  opened_database : Effect
  created_import_queue : List Provider → Effect
  built_network : Option ℕ → Effect
  started_offchain_workers : Effect
  spawned_tasks : (Bool → List Interface) → Effect
  spawned_filter_pool_task spawned_pending_transactions_task : Effect
  spawned_authorship_task : Sealing → List Provider → Effect
  started_collator : ℕ → List Provider → Effect
  started_full_node : ℕ → Effect
  started_network : Effect
  ran_command : Subcommand → Effect
  wrote_output : Option String → List ℕ → Effect

-- The messages that the node makes itself, and the errors of other crates
pub data NodeError : Type 0 where
  light_client_not_supported author_missing no_chain_specified wasm_missing : NodeError
  other : ℕ → NodeError

pub data Result (A : Type 0) : Type 0 where
  ok : A → Result A
  err : NodeError → Result A

abbrev pub M : Type 0 → Type 0
M A = List Effect → Result A × List Effect

abbrev pub continue : {A B : Type 0} → (A → M B) → Result A × List Effect → Result B × List Effect
continue f (ok a, t) = f a t
continue f (err e, t) = (err e, t)

infixl 5 ◌>>=◌ ◌>>◌
unfoldable pub ◌>>=◌ : {A B : Type 0} → M A → (A → M B) → M B
◌>>=◌ m f t = continue f (m t)

unfoldable pub ◌>>◌ : {B : Type 0} → M (Unit {0}) → M B → M B
◌>>◌ m k t = continue (λ _. k) (m t)

unfoldable pub pure : {A : Type 0} → A → M A
pure a t = (ok a, t)

unfoldable pub fail : {A : Type 0} → NodeError → M A
fail e t = (err e, t)

-- A call that cannot fail
unfoldable pub run_call : Effect → M (Unit {0})
run_call e t = (ok tt, e ∷ t)

-- `option?`, where the error is another crate's
unfoldable pub ok_or : {A : Type 0} → Option A → NodeError → M A
ok_or none e t = (err e, t)
ok_or (some a) e t = (ok a, t)

abbrev pub settle : Effect → List Effect → Option ℕ → Result (Unit {0}) × List Effect
settle e t none = (ok tt, e ∷ t)
settle e t (some code) = (err (other code), t)

-- A call that can fail, by the answer of the other crates
unfoldable pub try_call : (Effect → Option ℕ) → Effect → M (Unit {0})
try_call fails e t = settle e t (fails e)

-- `P` holds of the result and the calls that something ends with.
pub record Ends {A : Type 0} (P : Result A → List Effect → Type 0) (r : Result A × List Effect)
    : Type 0 where
  pub holds : P r.0 r.1

module _ {B : Type 0} {P : Result B → List Effect → Type 0} where
  pub Ends-pure : (b : B) (t : List Effect) → P (ok b) t → Ends P (pure b t)
  unfolding pure
  Ends-pure b t h = record { holds = h }

  pub Ends-fail : (e : NodeError) (t : List Effect) → P (err e) t → Ends P (fail e t)
  unfolding fail
  Ends-fail e t h = record { holds = h }

  pub Ends-run :
      (e : Effect) (k : M B) (t : List Effect) → Ends P (k (e ∷ t)) → Ends P ((run_call e >> k) t)
  unfolding run_call ◌>>◌
  Ends-run e k t rest = rest

  pub Ends-try :
      (fails : Effect → Option ℕ) (e : Effect) (k : M B) (t : List Effect)
      → ((code : ℕ) → P (err (other code)) t)
      → Ends P (k (e ∷ t))
      → Ends P ((try_call fails e >> k) t)
  unfolding try_call ◌>>◌
  Ends-try fails e k t failed rest = go (fails e)
    where
      go : (o : Option ℕ) → Ends P (continue (λ _. k) (settle e t o))
      go none = rest
      go (some code) = record { holds = failed code }

  pub Ends-if :
      (b : Bool) (m n : M (Unit {0})) (k : M B) (t : List Effect)
      → (b ≡ true → Ends P ((m >> k) t))
      → (b ≡ false → Ends P ((n >> k) t))
      → Ends P (((if b then m else n) >> k) t)
  Ends-if true m n k t yes_case no_case = yes_case refl
  Ends-if false m n k t yes_case no_case = no_case refl

  pub Ends-skip : (k : M B) (t : List Effect) → Ends P (k t) → Ends P ((pure tt >> k) t)
  unfolding pure ◌>>◌
  Ends-skip k t rest = rest

  pub Ends-stop :
      (e : NodeError) (k : M B) (t : List Effect) → P (err e) t → Ends P ((fail e >> k) t)
  unfolding fail ◌>>◌
  Ends-stop e k t h = record { holds = h }

module _ {A B : Type 0} {P : Result B → List Effect → Type 0} where
  pub Ends-ok_or :
      (o : Option A) (e : NodeError) (f : A → M B) (t : List Effect) (a : A)
      → o ≡ some a
      → Ends P (f a t)
      → Ends P ((ok_or o e >>= f) t)
  unfolding ok_or ◌>>=◌
  Ends-ok_or o e f t a h rest = rw h rest

  pub Ends-bind :
      (Q : Result A → List Effect → Type 0) (m : M A) (f : A → M B) (t : List Effect)
      → Ends Q (m t)
      → ((e : NodeError) (u : List Effect) → Q (err e) u → P (err e) u)
      → ((a : A) (u : List Effect) → Q (ok a) u → Ends P (f a u))
      → Ends P ((m >>= f) t)
  unfolding ◌>>=◌
  Ends-bind Q m f t run errors rest = go (m t).0 (m t).1 run.holds
    where
      go : (r : Result A) (u : List Effect) → Q r u → Ends P (continue f (r, u))
      go (ok a) u q = rest a u q
      go (err e) u q = record { holds = errors e u q }

module _ {A : Type 0} {P Q : Result A → List Effect → Type 0} where
  -- What holds of every way to end follows from what holds here.
  pub Ends-imp :
      (r : Result A × List Effect)
      → Ends Q r
      → ((a : A) (u : List Effect) → Q (ok a) u → P (ok a) u)
      → ((e : NodeError) (u : List Effect) → Q (err e) u → P (err e) u)
      → Ends P r
  Ends-imp r run oks errors = go r.0 r.1 run.holds
    where
      go : (x : Result A) (u : List Effect) → Q x u → Ends P (x, u)
      go (ok a) u q = record { holds = oks a u q }
      go (err e) u q = record { holds = errors e u q }
