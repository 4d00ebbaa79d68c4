-- ===== src/Node/Command/Asks.antt =====
-- Actions that ask other crates, files and arguments without starting anything.
use mathlib.Core.Path.{subst, sym}
use Prim.Native.String.{String}
use moonbeam.Base.{ℕ, ◌≡◌, refl, ◌∙◌, Bool, true, false, Option, none, some, List, if◌then◌else◌}
use moonbeam.Node.ChainSpec.{ChainSpec}
use moonbeam.Node.Cli.{Cli, RelayChainCli}
use moonbeam.Node.Effects.{
  Effect, NodeError, Result, ok, err, M, Ends, Ends-bind, continue, ok_or, fail, pure, ◌>>=◌,
}
use moonbeam.Node.Command.{
  Tools, load_spec, cli_load_spec, relay_load_spec, relay_configuration, extract_genesis_wasm,
}

-- An action that asks without starting anything: the calls stay those that were made.
pub record Asks {A : Type 0} (m : M A) : Type 0 where
  pub keeps : (t : List Effect) → (m t).1 ≡ t

module _ {A : Type 0} where
  pub ok_or-Asks : (o : Option A) (e : NodeError) → Asks (ok_or o e)
  unfolding ok_or
  ok_or-Asks none e = record { keeps = λ t. refl }
  ok_or-Asks (some a) e = record { keeps = λ t. refl }

  pub if-Asks : (b : Bool) (m n : M A) → Asks m → Asks n → Asks (if b then m else n)
  if-Asks true m n x y = x
  if-Asks false m n x y = y

  pub pure-Asks : (a : A) → Asks (pure a)
  unfolding pure
  pure-Asks a = record { keeps = λ t. refl }

  pub fail-Asks : (e : NodeError) → Asks {A = A} (fail e)
  unfolding fail
  fail-Asks e = record { keeps = λ t. refl }

pub bind-Asks :
    {A B : Type 0} (m : M A) (f : A → M B) → Asks m → ((a : A) → Asks (f a)) → Asks (m >>= f)
unfolding ◌>>=◌
bind-Asks {A = A} {B = B} m f hm hf = record { keeps = λ t. go t (m t).0 (m t).1 (hm.keeps t) }
  where
    go : (t : List Effect) (r : Result A) (u : List Effect) → u ≡ t → (continue f (r, u)).1 ≡ t
    go t (ok a) u h = (hf a).keeps u ∙ h
    go t (err e) u h = h

-- Where only the calls that were made matter, an asking action changes nothing.
module _ {A B : Type 0} {P : List Effect → Type 0} where
  pub Asks-then :
      (m : M A) (f : A → M B) (t : List Effect)
      → Asks m
      → P t
      → ((a : A) → Ends (λ (r : Result B) u. P u) (f a t))
      → Ends (λ (r : Result B) u. P u) ((m >>= f) t)
  Asks-then m f t asks h rest =
      Ends-bind (λ r u. u ≡ t) m f t (record { holds = asks.keeps t }) (λ e u q. subst P (sym q) h)
        (λ a u q. subst (λ v. Ends (λ (r : Result B) w. P w) (f a v)) (sym q) (rest a))

module _ (tools : Tools) where
  pub load_spec-Asks : (id : String) (para_id : ℕ) → Asks (load_spec tools id para_id)
  unfolding load_spec
  load_spec-Asks id para_id = search (if-Asks, ok_or-Asks, pure-Asks, fail-Asks) depth 12

  pub extract_genesis_wasm-Asks : (spec : ChainSpec) → Asks (extract_genesis_wasm tools spec)
  unfolding extract_genesis_wasm
  extract_genesis_wasm-Asks spec = bind-Asks _ _ (ok_or-Asks _ _) λ storage. ok_or-Asks _ _

  pub cli_load_spec-Asks : (cli : Cli) (id : String) → Asks (cli_load_spec tools cli id)
  unfolding cli_load_spec
  cli_load_spec-Asks cli id = load_spec-Asks id _

  pub relay_configuration-Asks : (cli : RelayChainCli) → Asks (relay_configuration tools cli)
  unfolding relay_configuration relay_load_spec
  relay_configuration-Asks cli = search (if-Asks, ok_or-Asks)
