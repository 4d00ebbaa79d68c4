-- ===== src/Node/Command/ParachainId.antt =====
-- The parachain that a node of the chain "local" works for.
use mathlib.Core.Path.{subst, sym}
use moonbeam.Base.{
  ℕ, ◌≡◌, refl, ap, ◌∙◌, Bool, true, false, Option, none, some, List, [], ◌∷◌, ◌&&◌, ◌||◌,
  if◌then◌else◌, All, unwrap_or, is_none,
}
use moonbeam.Node.Inherents.{Provider}
use moonbeam.Node.Inherents.Mock.{Registers}
use moonbeam.Node.ChainSpec.{ChainSpec, get_chain_spec, gerald}
use moonbeam.Node.Cli.{Cli}
use moonbeam.Node.Effects.{
  Effect, started_collator, started_full_node, Result, ok, err, M, Ends, Ends-if, Ends-skip,
  Ends-stop, author_missing, fail, pure, ◌>>=◌,
}
use moonbeam.Node.Sealing.{Sealing}
use moonbeam.Node.Service.{Crates, Configuration}
use moonbeam.Node.Service.Outcomes.{
  NodeStarts, DevStarts, Prepares, Preparation, All-after, providers_of,
}
use moonbeam.Node.Service.Starts.{start_node-NodeStarts, new_dev-DevStarts}
use moonbeam.Node.Command.{
  Tools, cli_load_spec, run, run_main, run_subcommand, run_dev, run_parachain, run_node, or,
}
use moonbeam.Node.Command.Asks.{Asks-then, ok_or-Asks, relay_configuration-Asks}

-- A collator and a full node run for the parachain `id`.
abbrev pub RunsFor : ℕ → Effect → Type 0
RunsFor id (started_collator i providers) = i ≡ id
RunsFor id (started_full_node i) = i ≡ id
RunsFor id _ = Unit

Preparation-RunsFor :
    (id : ℕ) (authorship : Option (List Provider)) (e : Effect)
    → Preparation authorship e
    → RunsFor id e
Preparation-RunsFor id authorship (started_collator i providers) p = absurd p
Preparation-RunsFor id authorship (started_full_node i) p = absurd p
Preparation-RunsFor id authorship _ p = tt

Prepares-RunsFor :
    (id : ℕ) (authorship : Option (List Provider)) (u : List Effect)
    → Prepares authorship u
    → All (RunsFor id) u
Prepares-RunsFor id authorship [] p = tt
Prepares-RunsFor id authorship (e ∷ u) p =
    (Preparation-RunsFor id authorship e p.0, Prepares-RunsFor id authorship u p.1)

module _ (crates : Crates) (config : Configuration) (author_id : Option ℕ) (collator : Bool) where
  node-RunsFor :
      (relay own id : ℕ) (r : Result (Unit {0})) (u : List Effect)
      → own ≡ id
      → NodeStarts crates config author_id relay own collator r u
      → All (RunsFor id) u
  node-RunsFor relay own id (ok a) u same h =
      subst (All (RunsFor id)) (sym h.1)
        (tt, (producer collator, (tt, (tt, (tt, (tt, (tt, (tt, (tt, tt)))))))))
    where
      producer :
          (b : Bool)
          → RunsFor id (
              if b
              then started_collator own (providers_of crates.encode author_id false)
              else started_full_node own)
      producer true = same
      producer false = same
  node-RunsFor relay own id (err e) u same h = Prepares-RunsFor id none u h

  dev-RunsFor :
      (sealing : Sealing) (id : ℕ) (r : Result (Unit {0})) (u : List Effect)
      → DevStarts crates config sealing author_id collator r u
      → All (RunsFor id) u
  dev-RunsFor sealing id (ok a) u h = subst (All (RunsFor id)) (sym h) (
    tt,
    (
      tt,
      (
        tt,
        (
          tt,
          All-after (RunsFor id) collator _ _ tt
              (All-after (RunsFor id) config.offchain_worker_enabled _ _ tt (tt, (tt, (tt, tt)))),
        ),
      ),
    ),
  )
  dev-RunsFor sealing id (err e) u h = Prepares-RunsFor id _ u h

-- What the extension of a specification documents.
abbrev pub Extends : Tools → Type 0
Extends tools = (spec : ChainSpec) → tools.get_extension spec ≡ some spec.extensions

chosen_id : (o : Option ℕ) → unwrap_or (or o (some (unwrap_or o 1000))) 1000 ≡ unwrap_or o 1000
chosen_id none = refl
chosen_id (some id) = refl

module _ (tools : Tools) (crates : Crates) (registers : Registers crates.register_provider)
    (cli : Cli) where
  abbrev Ours : {A : Type 0} → Result A × List Effect → Type 0
  Ours = Ends (λ r u. All (RunsFor (unwrap_or cli.run.parachain_id 1000)) u)

  Ours-branch :
      (b : Bool) (m n : M (Unit {0})) (t : List Effect)
      → Ours (m t)
      → Ours (n t)
      → Ours ((if b then m else n) t)
  Ours-branch true m n t x y = x
  Ours-branch false m n t x y = y

  run_dev-Ours : (collator : Bool) → Ours (run_dev tools crates cli collator [])
  unfolding run_dev
  run_dev-Ours collator = record {
    holds =
        dev-RunsFor crates tools.config (or cli.run.author_id (some gerald))
          (collator || cli.run.dev) cli.run.sealing _ _ _
          (new_dev-DevStarts crates registers tools.config cli.run.sealing
            (or cli.run.author_id (some gerald)) (collator || cli.run.dev));
  }

  run_parachain-Ours :
      (collator : Bool) (spec : ChainSpec)
      → spec.extensions.para_id ≡ unwrap_or cli.run.parachain_id 1000
      → Ours (run_parachain tools crates cli collator spec (some spec.extensions) [])
  unfolding run_parachain
  run_parachain-Ours collator spec same =
      let own = unwrap_or (or cli.run.parachain_id (some spec.extensions.para_id)) 1000 in
      Asks-then _ _ _ (ok_or-Asks _ _) tt λ block.
        Asks-then _ _ _ (relay_configuration-Asks tools _) tt λ relay. record {
          holds =
              node-RunsFor crates tools.config cli.run.author_id collator relay own _ _ _
                (ap (λ i. unwrap_or (or cli.run.parachain_id (some i)) 1000) same
                  ∙ chosen_id cli.run.parachain_id)
                (start_node-NodeStarts crates registers tools.config cli.run.author_id relay own
                  collator);
        }

  load_local :
      cli_load_spec tools cli "local" ≡ pure (get_chain_spec (unwrap_or cli.run.parachain_id 1000))
  unfolding cli_load_spec
  load_local = refl

  run_node-Ours :
      (collator : Bool) (spec : ChainSpec)
      → tools.get_extension spec ≡ some spec.extensions
      → spec.extensions.para_id ≡ unwrap_or cli.run.parachain_id 1000
      → Ours (run_node tools crates cli collator spec [])
  unfolding run_node
  run_node-Ours collator spec extends same = rw extends (
      Ours-branch _ (run_dev tools crates cli collator)
        (run_parachain tools crates cli collator spec (some spec.extensions)) []
        (run_dev-Ours collator) (run_parachain-Ours collator spec same))

  run_main-Ours : tools.chain_id ≡ "local" → Extends tools → Ours (run_main tools crates cli [])
  unfolding run_main pure get_chain_spec ◌>>=◌
  run_main-Ours chain extends = rw (ap (cli_load_spec tools cli) chain ∙ load_local) (
      Ends-if ((cli.run.validator || cli.collator) && is_none cli.run.author_id)
        (fail author_missing) (pure tt) _ _ (λ missing. Ends-stop author_missing _ _ tt)
        λ given.
          Ends-skip _ _ (
            run_node-Ours _ (get_chain_spec (unwrap_or cli.run.parachain_id 1000)) (extends _)
              refl))

  -- If the chain "local" is chosen with no subcommand, the registration of providers is as it documents and so
  -- are the extensions of specifications, then however the node ends, the collator or the full node that it
  -- starts runs for the parachain of which the id stands in the genesis of the chain.
  pub run-RunsFor :
      cli.subcommand ≡ none
      → tools.chain_id ≡ "local"
      → Extends tools
      → All
          (RunsFor (get_chain_spec (unwrap_or cli.run.parachain_id 1000)).genesis.parachain_id)
          (run tools crates cli []).1
  unfolding run get_chain_spec
  run-RunsFor plain chain extends =
      (subst
        (λ o. Ours (
          elim o as (λ _. M (Unit {0})) [
            | none ↦ run_main tools crates cli
            | some cmd ↦ run_subcommand tools crates cli cmd
          ]
            []))
        (sym plain) (run_main-Ours chain extends)).holds
