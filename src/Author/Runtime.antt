-- ===== src/Author/Runtime.antt =====
-- How runtime/src/lib.rs wires authorship: `EventHandler` and `PreliminaryCanAuthor` of the author
-- inherent are the staking pallet, `FinalCanAuthor` is the author filter over its validators.
use moonbeam.Base.{
  ℕ, ◌≡◌, refl, ap, ◌∙◌, Bool, true, false, Option, some, List, [], ◌∷◌, ◌⊎◌, inl, inr, is_some,
  if◌then◌else◌, arith,
}
use moonbeam.OrderedSet
use moonbeam.OrderedSet.Laws.{contains-find}
use moonbeam.Stake.CandidateCalls.{is_validator}
use moonbeam.Stake.Payouts.{note_author}
use moonbeam.Stake.Storage
use moonbeam.Author.Filter
use moonbeam.Author.Filter.{contains}
use moonbeam.Author.Filter.Eligible.{IsPercentage, can_author-other}
use moonbeam.Author.Inherent
use moonbeam.Author.Inherent.{State, DispatchClass, Outcome}
use moonbeam.Author.Inherent.Block.{IsCheckWeight, invalid, block, block-refused}
use moonbeam.Author.Inherent.Data
use moonbeam.Author.Inherent.Data.{
  IsFaithful, Store, Checked, create_inherent, check_inherent, check_author, provide_inherent_data,
  create_inherent-put,
}

-- The storage that the three pallets see, with `validation_data` of the parachain system.
pub record Chain (L : Type 0) : Type 0 where
  pub stake : Storage.State L
  pub eligible_ratio : ℕ
  pub validation_data : Option ℕ

-- The linear scan and the entry of the ordered set agree.
contains-entry : (a : ℕ) (xs : List ℕ) → is_some (OrderedSet.find (λ i. i) a xs) ≡ contains a xs
unfolding OrderedSet.find contains
contains-entry a [] = refl
contains-entry a (x ∷ xs) = ground (arith, contains-entry a xs)

module _ (L : Type 0) (filter : Filter.Config) (encode : ℕ → List ℕ)
    (decode : List ℕ → Option ℕ) where
  -- `impl author_inherent::Config for Runtime`
  unfoldable pub runtime : Inherent.Config (Chain L)
  runtime = record {
    note_author = λ author c. record c { stake = note_author author c.stake };
    preliminary_can_author = λ account c. some (is_validator account c.stake);
    final_can_author = λ account c.
        Filter.can_author filter c.eligible_ratio c.validation_data c.stake.validators account;
    encode = encode;
    decode = decode;
  }

  final_can_author-other :
      (a : ℕ) (c : Chain L) (relay_height : ℕ)
      → IsPercentage filter.mul_ceil
      → c.validation_data ≡ some relay_height
      → contains a c.stake.validators ≡ false
      → runtime.final_can_author a c ≡ some false
  unfolding runtime
  final_can_author-other a c relay_height share set other =
      ap (λ d. Filter.can_author filter c.eligible_ratio d c.stake.validators a) set
      ∙ can_author-other filter c.eligible_ratio relay_height c.stake.validators a share other

  -- What block import says of a claim, by whether its author is a validator.
  abbrev verdict : Bool → Checked
  verdict staked =
      if staked then Checked.ok else Checked.err Inherent.InherentError.cannot_be_author

  check_author-verdict : (staked : Bool) → check_author runtime (some staked) ≡ verdict staked
  unfolding check_author
  check_author-verdict true = refl
  check_author-verdict false = refl

  check_inherent-contains :
      (a : ℕ) (c : Chain L)
      → OrderedSet.IsSorted (λ i. i) c.stake.validators
      → check_inherent runtime (Data.set_author a) c ≡ verdict (contains a c.stake.validators)
  unfolding check_inherent check_author runtime is_validator
  check_inherent-contains a c sorted =
      ap (λ b. check_author runtime (some b))
        (contains-find (λ i. i) a c.stake.validators sorted ∙ contains-entry a c.stake.validators)
      ∙ check_author-verdict (contains a c.stake.validators)

  module _ (post_dispatch : DispatchClass → Outcome → Bool) where
    -- How import and execution judge the claim of an author that is a validator or not.
    claim-judged :
        (author relay_height : ℕ) (s : State (Chain L)) (staked : Bool)
        → IsCheckWeight post_dispatch
        → IsPercentage filter.mul_ceil
        → OrderedSet.IsSorted (λ a. a) s.rest.stake.validators
        → s.rest.validation_data ≡ some relay_height
        → contains author s.rest.stake.validators ≡ staked
        → ((contains author s.rest.stake.validators ≡ true)
            × (check_inherent runtime (Data.set_author author) s.rest ≡ Checked.ok))
          ⊎ ((contains author s.rest.stake.validators ≡ false)
              × (check_inherent runtime (Data.set_author author) s.rest
                  ≡ Checked.err Inherent.InherentError.cannot_be_author)
              × ((block runtime post_dispatch ((true, author) ∷ []) s).0 ≡ invalid))
    claim-judged author relay_height s true checked share sorted set e =
        inl (e, check_inherent-contains author s.rest sorted ∙ ap verdict e)
    claim-judged author relay_height s false checked share sorted set e = inr (
      e,
      check_inherent-contains author s.rest sorted ∙ ap verdict e,
      block-refused runtime post_dispatch checked author [] s
          (final_can_author-other author s.rest relay_height share set e),
    )

    -- With the codec and the inherent data as documented, the validators in order and the validation
    -- data set: once a provider put an author's encoding into the data, `create_inherent` claims that
    -- author. If the author is a validator then block import accepts the claim. If not, import has
    -- the error `cannot_be_author`, and the block that makes the claim is invalid.
    pub create_inherent-Judged :
        {D : Type 0} (store : Store D) (author relay_height : ℕ) (entries after : D)
        (s : State (Chain L))
        → IsFaithful store runtime
        → IsCheckWeight post_dispatch
        → IsPercentage filter.mul_ceil
        → OrderedSet.IsSorted (λ a. a) s.rest.stake.validators
        → s.rest.validation_data ≡ some relay_height
        → provide_inherent_data store (encode author) entries ≡ some after
        → (create_inherent store runtime after ≡ Data.created (Data.set_author author))
          × (((contains author s.rest.stake.validators ≡ true)
                × (check_inherent runtime (Data.set_author author) s.rest ≡ Checked.ok))
              ⊎ ((contains author s.rest.stake.validators ≡ false)
                  × (check_inherent runtime (Data.set_author author) s.rest
                      ≡ Checked.err Inherent.InherentError.cannot_be_author)
                  × ((block runtime post_dispatch ((true, author) ∷ []) s).0 ≡ invalid)))
    unfolding runtime
    create_inherent-Judged store author relay_height entries after s faithful checked share sorted
          set put =
        (
          create_inherent-put store runtime author entries after faithful put,
          claim-judged author relay_height s _ checked share sorted set refl,
        )
