-- ===== src/Node/Command/Runs.antt =====
-- What the node does by its arguments, from the first argument to the calls of the service.
use mathlib.Core.Path.{subst, sym}
use moonbeam.Base.{
  ℕ, ◌≡◌, refl, Bool, true, false, Option, none, some, List, [], ◌&&◌, ◌||◌, if◌then◌else◌, is_none,
  unwrap_or,
}
use moonbeam.Node.Inherents.Mock.{Registers}
use moonbeam.Node.ChainSpec.{ChainSpec, Extensions, gerald}
use moonbeam.Node.Cli.{
  Cli, Subcommand, export_genesis_state, export_genesis_wasm, build_spec, check_block,
  export_blocks, export_state, import_blocks, purge_chain, revert,
}
use moonbeam.Node.Effects.{
  Effect, Result, M, Ends, Ends-pure, Ends-try, Ends-if, Ends-skip, Ends-stop,
}
use moonbeam.Node.Service.{Crates, new_dev}
use moonbeam.Node.Service.Starts.{start_node-NodeStarts, new_dev-DevStarts, Ends-parts}
use moonbeam.Node.Command.{
  Tools, run, run_main, run_subcommand, run_dev, run_parachain, run_node, or, run_export_state,
  run_export_wasm, sync_run, async_run,
}
use moonbeam.Node.Command.Asks.{
  Asks-then, ok_or-Asks, load_spec-Asks, cli_load_spec-Asks, relay_configuration-Asks,
  extract_genesis_wasm-Asks,
}
use moonbeam.Node.Command.Authors.{AllAuthors, IsNone, Prepares-Authors, dev-Authors, node-Authors}

-- The account of the arguments, or that which is staked at genesis
abbrev pub author_of : Cli → ℕ
author_of cli = unwrap_or cli.run.author_id gerald

or_gerald : (o : Option ℕ) → or o (some gerald) ≡ some (unwrap_or o gerald)
or_gerald none = refl
or_gerald (some a) = refl

author_given :
    (b : Bool) (o : Option ℕ) → (b && is_none o) ≡ false → b ≡ true → o ≡ some (unwrap_or o gerald)
author_given b none h collates = cc
author_given b (some a) h collates = refl

module _ (tools : Tools) (crates : Crates) (registers : Registers crates.register_provider)
    (cli : Cli) where
  abbrev Good : {A : Type 0} → Result A × List Effect → Type 0
  Good = Ends (λ r u. AllAuthors crates (author_of cli) u)

  Good-branch :
      (b : Bool) (m n : M (Unit {0})) (t : List Effect)
      → Good (m t)
      → Good (n t)
      → Good ((if b then m else n) t)
  Good-branch true m n t x y = x
  Good-branch false m n t x y = y

  run_dev-Good : (collator : Bool) → Good (run_dev tools crates cli collator [])
  unfolding run_dev
  run_dev-Good collator =
      subst (λ o. Good (new_dev crates tools.config cli.run.sealing o (collator || cli.run.dev) []))
        (sym (or_gerald cli.run.author_id))
        (record {
          holds =
              dev-Authors crates (author_of cli) tools.config cli.run.sealing
                (collator || cli.run.dev) _ _
                (new_dev-DevStarts crates registers tools.config cli.run.sealing
                  (some (author_of cli)) (collator || cli.run.dev));
        })

  run_parachain-Good :
      (collator : Bool) (spec : ChainSpec) (extension : Option Extensions)
      → (collator ≡ true → cli.run.author_id ≡ some (author_of cli))
      → Good (run_parachain tools crates cli collator spec extension [])
  unfolding run_parachain
  run_parachain-Good collator spec extension known = Asks-then _ _ _ (ok_or-Asks _ _) tt λ block.
      Asks-then _ _ _ (relay_configuration-Asks tools _) tt λ relay. record {
        holds =
            node-Authors crates (author_of cli) tools.config cli.run.author_id relay _ collator _ _
              known
              (start_node-NodeStarts crates registers tools.config cli.run.author_id relay _
                collator);
      }

  run_main-Good : Good (run_main tools crates cli [])
  unfolding run_main run_node
  run_main-Good = Asks-then _ _ _ (cli_load_spec-Asks tools cli tools.chain_id) tt λ spec.
      Ends-if _ _ _ _ _ (λ missing. Ends-stop _ _ _ tt)
        λ given. Ends-skip _ _ (
          Good-branch _ (run_dev tools crates cli (cli.run.validator || cli.collator))
            (run_parachain tools crates cli (cli.run.validator || cli.collator) spec
              (tools.get_extension spec))
            [] (run_dev-Good (cli.run.validator || cli.collator))
            (run_parachain-Good (cli.run.validator || cli.collator) spec (tools.get_extension spec)
              (author_given (cli.run.validator || cli.collator) cli.run.author_id given)))

  sync_run-Good : (cmd : Subcommand) → Good (sync_run tools crates cli cmd [])
  unfolding sync_run
  sync_run-Good cmd =
      Asks-then _ _ _ (cli_load_spec-Asks tools cli tools.chain_id) tt
        λ spec. Ends-try _ _ _ _ (λ code. tt) (Ends-pure _ _ (tt, tt))

  async_run-Good : (cmd : Subcommand) → Good (async_run tools crates cli cmd [])
  unfolding async_run
  async_run-Good cmd = Asks-then _ _ _ (cli_load_spec-Asks tools cli tools.chain_id) tt λ spec.
      Ends-parts crates registers none none false _ _ tt
        (λ e u h.
          Prepares-Authors crates.encode (author_of cli) none
            (λ providers p. absurd (subst IsNone (sym p) tt)) u h)
        (Ends-try _ _ _ _ (λ code. (tt, (tt, tt))) (Ends-pure _ _ (tt, (tt, (tt, tt)))))

  run_subcommand-Good : (cmd : Subcommand) → Good (run_subcommand tools crates cli cmd [])
  unfolding run_subcommand run_export_state run_export_wasm
  run_subcommand-Good (export_genesis_state params) =
      Asks-then _ _ _ (load_spec-Asks tools _ _) tt λ spec.
        Asks-then _ _ _ (ok_or-Asks _ _) tt
          λ header. Ends-try _ _ _ _ (λ code. tt) (Ends-pure _ _ (tt, tt))
  run_subcommand-Good (export_genesis_wasm params) =
      Asks-then _ _ _ (cli_load_spec-Asks tools cli _) tt λ spec.
        Asks-then _ _ _ (extract_genesis_wasm-Asks tools spec) tt
          λ blob. Ends-try _ _ _ _ (λ code. tt) (Ends-pure _ _ (tt, tt))
  run_subcommand-Good build_spec = sync_run-Good build_spec
  run_subcommand-Good check_block = async_run-Good check_block
  run_subcommand-Good export_blocks = async_run-Good export_blocks
  run_subcommand-Good export_state = async_run-Good export_state
  run_subcommand-Good import_blocks = async_run-Good import_blocks
  run_subcommand-Good purge_chain = sync_run-Good purge_chain
  run_subcommand-Good revert = async_run-Good revert

  run-Good : Good (run tools crates cli [])
  unfolding run
  run-Good = go cli.subcommand
    where
      go :
          (o : Option Subcommand)
          → Good (
              elim o as (λ _. M (Unit {0})) [
                | none ↦ run_main tools crates cli
                | some cmd ↦ run_subcommand tools crates cli cmd
              ]
                [])
      go none = run_main-Good
      go (some cmd) = run_subcommand-Good cmd

  -- If the registration of providers is as it documents, then whatever the arguments and however the node
  -- ends, each collator or authorship task that it starts has the inherent data provider of an author: of the
  -- account of the arguments, or if they have none, of that which is staked at genesis.
  pub run-AllAuthors : AllAuthors crates (author_of cli) (run tools crates cli []).1
  run-AllAuthors = run-Good.holds
