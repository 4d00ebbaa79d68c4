-- ===== src/Author/Inherent/Block.antt =====
-- A block through pallets/author-inherent: `on_initialize`, inherents, `on_finalize`.
use moonbeam.Base.{
  sym, ap, ◌∙◌, ◌⊎◌, ◌↔◌, ℕ, ◌≡◌, refl, Bool, true, false, Option, none, some, List, [], ◌∷◌, ◌++◌,
  inl, inr,
}
use moonbeam.Author.Inherent.{
  Config, DispatchClass, mandatory, State, Error, Outcome, ok, err, panicked, author_already_set,
  bad_origin, on_initialize, set_author, set_author_class, set_unless, set_if_allowed, write_author,
  on_finalize,
}

-- How the executive leaves a block. `aborted` is a panic.
pub data Verdict : Type 0 where
  valid invalid aborted : Verdict

-- What `CheckWeight` of frame_system says after a dispatch, true when the block stays valid: a success
-- is fine, an error of a mandatory dispatch is `BadMandatory`.
pub record IsCheckWeight (post_dispatch : DispatchClass → Outcome → Bool) : Type 0 where
  pub succeeds : (class : DispatchClass) → post_dispatch class ok ≡ true
  pub mandatory_fails : (e : Error) → post_dispatch mandatory (err e) ≡ false

module _ {S : Type 0} (cfg : Config S) (post_dispatch : DispatchClass → Outcome → Bool) where
  abbrev proceed : Bool → (State S → Verdict × State S) → State S → Verdict × State S
  proceed true f t = f t
  proceed false f t = (invalid, t)

  -- What follows a claim, by its outcome.
  abbrev after_claim : (State S → Verdict × State S) → Outcome × State S → Verdict × State S
  after_claim f (panicked, t) = (aborted, t)
  after_claim f (ok, t) = proceed (post_dispatch set_author_class ok) f t
  after_claim f (err e, t) = proceed (post_dispatch set_author_class (err e)) f t

  -- The claims of a block, each with the flag of its origin, executed in turn.
  unfoldable pub claims : List (Bool × ℕ) → State S → Verdict × State S
  claims [] s = (valid, s)
  claims ((origin, author) ∷ rest) s = after_claim (claims rest) (set_author cfg origin author s)

  abbrev conclude : Outcome × State S → Verdict × State S
  conclude (ok, t) = (valid, t)
  conclude (err e, t) = (invalid, t)
  conclude (panicked, t) = (aborted, t)

  abbrev finalized : Verdict × State S → Verdict × State S
  finalized (valid, t) = conclude (on_finalize t)
  finalized (invalid, t) = (invalid, t)
  finalized (aborted, t) = (aborted, t)

  -- A block, from its claims.
  unfoldable pub block : List (Bool × ℕ) → State S → Verdict × State S
  block xs s = finalized (claims xs (on_initialize s))

  set_author-set :
      (origin : Bool) (a author : ℕ) (s : State S)
      → s.author ≡ some author
      → (e : Error) × (set_author cfg origin a s ≡ (err e, s))
  unfolding set_author set_unless
  set_author-set false a author s h = (bad_origin, refl)
  set_author-set true a author s h = (author_already_set, ap (λ o. set_unless cfg o a s) h)

  set_author-unset :
      (a : ℕ) (o : Option Bool) (s : State S)
      → s.author ≡ none
      → cfg.final_can_author a s.rest ≡ o
      → set_author cfg true a s ≡ set_if_allowed cfg o a s
  unfolding set_author set_unless
  set_author-unset a o s h e =
      ap (λ q. set_unless cfg q a s) h ∙ ap (λ q. set_if_allowed cfg q a s) e

  module _ (checked : IsCheckWeight post_dispatch) where
    -- An error of `set_author` ends the block as invalid.
    after_claim-err :
        (f : State S → Verdict × State S) (r : Outcome × State S) (e : Error) (s : State S)
        → r ≡ (err e, s)
        → after_claim f r ≡ (invalid, s)
    after_claim-err f r e s h =
        ap (after_claim f) h ∙ ap (λ b. proceed b f s) (checked.mandatory_fails e)

    after_claim-ok :
        (f : State S → Verdict × State S) (r : Outcome × State S) (s : State S)
        → r ≡ (ok, s)
        → after_claim f r ≡ f s
    after_claim-ok f r s h =
        ap (after_claim f) h ∙ ap (λ b. proceed b f s) (checked.succeeds set_author_class)

    -- Once an author is set any further claim makes the block invalid.
    claims-set :
        (xs : List (Bool × ℕ)) (s : State S) (author : ℕ)
        → s.author ≡ some author
        → (claims xs s).0 ≡ valid
        → xs ≡ []
    unfolding claims
    claims-set [] s author h ends = refl
    claims-set ((origin, other) ∷ xs) s author h ends =
        let (e, fails) = set_author-set origin other author s h in
        cc (ap (λ r. r.0) (after_claim-err (claims xs) _ e s fails), ends)

    -- The claims of a valid block, and what they come to: none, or one that was accepted.
    abbrev Claimed : List (Bool × ℕ) → State S → Type 0
    Claimed xs s =
        (xs ≡ []) ⊎ ((a : ℕ) × (cfg.final_can_author a s.rest ≡ some true) × (xs ≡ (true, a) ∷ []))

    claims-single :
        (a : ℕ) (s : State S)
        → s.author ≡ none
        → cfg.final_can_author a s.rest ≡ some true
        → claims ((true, a) ∷ []) s ≡ (valid, write_author cfg a s)
    unfolding claims set_if_allowed
    claims-single a s h allowed =
        after_claim-ok (claims []) _ (write_author cfg a s) (set_author-unset a _ s h allowed)

    claims-Claimed :
        (xs : List (Bool × ℕ)) (s : State S)
        → s.author ≡ none
        → (claims xs s).0 ≡ valid
        → Claimed xs s
    unfolding claims set_author set_if_allowed write_author
    claims-Claimed [] s h ends = inl refl
    claims-Claimed ((false, a) ∷ xs) s h ends =
        cc (ap (λ r. r.0) (after_claim-err (claims xs) _ bad_origin s refl), ends)
    claims-Claimed ((true, a) ∷ xs) s h ends = go (cfg.final_can_author a s.rest) refl
      where
        go : (o : Option Bool) → cfg.final_can_author a s.rest ≡ o → Claimed ((true, a) ∷ xs) s
        go none e = cc (ap (λ r. (after_claim (claims xs) r).0) (set_author-unset a _ s h e), ends)
        go (some false) e =
            cc
              (ap (λ r. r.0) (after_claim-err (claims xs) _ _ s (set_author-unset a _ s h e)), ends)
        go (some true) e =
            let t = write_author cfg a s in
            let run = after_claim-ok (claims xs) _ t (set_author-unset a _ s h e) in
            inr (
              a,
              e,
              ap (λ q. (true, a) ∷ q) (claims-set xs t a refl (sym (ap (λ r. r.0) run) ∙ ends)),
            )

    block-single :
        (a : ℕ) (s : State S)
        → cfg.final_can_author a s.rest ≡ some true
        → block ((true, a) ∷ []) s ≡ (valid, write_author cfg a (on_initialize s))
    unfolding block on_initialize on_finalize write_author
    block-single a s allowed = ap finalized (claims-single a (on_initialize s) refl allowed)

    -- A block whose first claim the final `CanAuthor` refuses is invalid.
    pub block-refused :
        (a : ℕ) (xs : List (Bool × ℕ)) (s : State S)
        → cfg.final_can_author a s.rest ≡ some false
        → (block ((true, a) ∷ xs) s).0 ≡ invalid
    unfolding block on_initialize claims set_if_allowed
    block-refused a xs s refused =
        let t = on_initialize s in
        ap (λ r. (finalized r).0)
          (after_claim-err (claims xs) _ _ t (set_author-unset a _ t refl refused))

    block-Claim :
        (xs : List (Bool × ℕ)) (s : State S)
        → (block xs s).0 ≡ valid
        → (a : ℕ) × (cfg.final_can_author a s.rest ≡ some true) × (xs ≡ (true, a) ∷ [])
    unfolding block on_initialize on_finalize claims
    block-Claim xs s ends =
        elim (claims-Claimed xs (on_initialize s) refl
          (claims_valid (claims xs (on_initialize s)) ends)) [
            | inl e ↦ cc (e, ends)
            | inr found ↦ found
          ]
      where
        claims_valid : (r : Verdict × State S) → (finalized r).0 ≡ valid → r.0 ≡ valid
        claims_valid (valid, t) h = refl
        claims_valid (invalid, t) h = h
        claims_valid (aborted, t) h = h

    -- A block is valid exactly if it holds one claim, of origin none, by an account that the final
    -- `CanAuthor` accepts on the state before the block.
    pub block-valid :
        (xs : List (Bool × ℕ)) (s : State S)
        → ((block xs s).0 ≡ valid)
          ↔ ((a : ℕ) × (cfg.final_can_author a s.rest ≡ some true) × (xs ≡ (true, a) ∷ []))
    block-valid xs s = (
      block-Claim xs s,
      λ found.
          let (a, allowed, e) = found in
          ap (λ q. (block q s).0) e ∙ ap (λ r. r.0) (block-single a s allowed),
    )

    -- A valid block has one author, whom the final `CanAuthor` accepted on the state before the block:
    -- it is stored, its encoding is appended to the digest once under "auth", and the event handler
    -- is called once with it.
    pub block-author :
        (xs : List (Bool × ℕ)) (s : State S)
        → (block xs s).0 ≡ valid
        → let t = (block xs s).1 in
          (a : ℕ) × (cfg.final_can_author a s.rest ≡ some true)
          × (t.author ≡ some a)
          × (t.digest
              ≡ s.digest
                ++ record { engine_id = 97 ∷ 117 ∷ 116 ∷ 104 ∷ []; payload = cfg.encode a } ∷ [])
          × (t.rest ≡ cfg.note_author a s.rest)
    unfolding write_author on_initialize
    block-author xs s ends =
        let (a, allowed, e) = block-Claim xs s ends in
        let run = ap (λ q. block q s) e ∙ block-single a s allowed in
        (a, allowed, ap (λ r. r.1.author) run, ap (λ r. r.1.digest) run, ap (λ r. r.1.rest) run)
