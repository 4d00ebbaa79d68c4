-- ===== src/Node/Command/Authors.antt =====
-- The inherent data providers of what makes blocks, node/src/service.rs.
use mathlib.Core.Path.{subst, sym}
use moonbeam.Base.{ℕ, ◌≡◌, refl, Bool, true, false, Option, none, some, List, [], ◌∷◌, All}
use moonbeam.Node.Inherents.{Provider, author}
use moonbeam.Node.Effects.{Effect, spawned_authorship_task, started_collator, Result, ok, err}
use moonbeam.Node.Service.{Crates, Configuration}
use moonbeam.Node.Sealing.{Sealing}
use moonbeam.Node.Service.Outcomes.{
  timestamps, All-after, Preparation, Prepares, NodeStarts, DevStarts,
}

-- What makes blocks has the account's provider of the author before those of the time.
abbrev pub Authors : (ℕ → List ℕ) → ℕ → Effect → Type 0
Authors encode account (spawned_authorship_task sealing providers) =
    providers ≡ author (encode account) ∷ timestamps true
Authors encode account (started_collator id providers) =
    providers ≡ author (encode account) ∷ timestamps false
Authors encode account _ = Unit

abbrev pub IsNone : Option (List Provider) → Type 0
IsNone none = Unit
IsNone (some a) = ⊥

Names : List Provider → Option (List Provider) → Type 0
Names providers none = ⊥
Names providers (some others) = others ≡ providers

-- All that makes blocks has the account's provider.
abbrev pub AllAuthors : Crates → ℕ → List Effect → Type 0
AllAuthors crates account = All (Authors crates.encode account)

Preparation-Authors :
    (encode : ℕ → List ℕ) (account : ℕ) (authorship : Option (List Provider))
    → ((providers : List Provider)
        → some providers ≡ authorship
        → providers ≡ author (encode account) ∷ timestamps true)
    → (e : Effect) → Preparation authorship e
    → Authors encode account e
Preparation-Authors encode account authorship h (spawned_authorship_task sealing providers) p =
    h providers p
Preparation-Authors encode account authorship h (started_collator id providers) p = absurd p
Preparation-Authors encode account authorship h _ p = tt

pub Prepares-Authors :
    (encode : ℕ → List ℕ) (account : ℕ) (authorship : Option (List Provider))
    → ((providers : List Provider)
        → some providers ≡ authorship
        → providers ≡ author (encode account) ∷ timestamps true)
    → (u : List Effect) → Prepares authorship u
    → All (Authors encode account) u
Prepares-Authors encode account authorship h [] p = tt
Prepares-Authors encode account authorship h (e ∷ u) p = (
  Preparation-Authors encode account authorship h e p.0,
  Prepares-Authors encode account authorship h u p.1,
)

module _ (crates : Crates) (account : ℕ) where
  pub dev-Authors :
      (config : Configuration) (sealing : Sealing) (collator : Bool) (r : Result (Unit {0}))
      (u : List Effect)
      → DevStarts crates config sealing (some account) collator r u
      → AllAuthors crates account u
  unfolding Names
  dev-Authors config sealing collator (ok a) u h = subst (AllAuthors crates account) (sym h) (
    tt,
    (
      tt,
      (
        tt,
        (
          tt,
          All-after (Authors crates.encode account) collator _ _ refl (
              All-after (Authors crates.encode account) config.offchain_worker_enabled _ _ tt
                (tt, (tt, (tt, tt)))),
        ),
      ),
    ),
  )
  dev-Authors config sealing collator (err e) u h =
      Prepares-Authors crates.encode account _
        (λ providers p.
          subst (Names (author (crates.encode account) ∷ timestamps true)) (sym p) refl)
        u h

  pub node-Authors :
      (config : Configuration) (author_id : Option ℕ) (relay id : ℕ) (collator : Bool)
      (r : Result (Unit {0})) (u : List Effect)
      → (collator ≡ true → author_id ≡ some account)
      → NodeStarts crates config author_id relay id collator r u
      → AllAuthors crates account u
  node-Authors config author_id relay id true (ok a) u known h =
      subst (AllAuthors crates account) (sym h.1)
        (tt, (rw (known refl) refl, (tt, (tt, (tt, (tt, (tt, (tt, (tt, tt)))))))))
  node-Authors config author_id relay id false (ok a) u known h =
      subst (AllAuthors crates account) (sym h.1)
        (tt, (tt, (tt, (tt, (tt, (tt, (tt, (tt, (tt, tt)))))))))
  node-Authors config author_id relay id collator (err e) u known h =
      Prepares-Authors crates.encode account none (λ providers p. absurd (subst IsNone (sym p) tt))
        u h
