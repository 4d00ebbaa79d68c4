-- ===== src/Author/Tests.antt =====
-- A block of the example chain, and the theorems on authorship at it.
use moonbeam.Base.{
  sym, ◌↔◌, ◌⊎◌, ◌++◌, ℕ, ◌≤◌, ◌≡◌, refl, Bool, true, false, Option, none, some, List, [], ◌∷◌,
  arith, length,
}
use moonbeam.Stake.Example.{blank}
use moonbeam.Author.Filter
use moonbeam.Author.Filter.{contains, eligible, can_author, filter_loop, select_one, take_out}
use moonbeam.Author.Filter.Eligible.{IsPercentage, count, can_author-draws, can_author-whole}
use moonbeam.Author.Inherent
use moonbeam.Author.Inherent.{
  State, DispatchClass, normal, operational, mandatory, Outcome, err, InherentError, on_initialize,
  set_author, set_unless, set_if_allowed, write_author, on_finalize,
}
use moonbeam.Author.Inherent.Block.{
  IsCheckWeight, valid, invalid, aborted, block, claims, block-author, block-valid,
}
use moonbeam.Author.Inherent.Data
use moonbeam.Author.Inherent.Data.{
  IsFaithful, Store, Checked, created, create_inherent, check_inherent, provide_inherent_data,
}
use moonbeam.Author.Runtime.{Chain, runtime, create_inherent-Judged}
use moonbeam.OrderedSet.{IsSorted}

-- The randomness is the last byte of the subject, and the ratio rounds up.
unfoldable filter : Filter.Config
filter = record { random = λ subject. length subject; mul_ceil = λ ratio n. n }

filter-IsPercentage : IsPercentage filter.mul_ceil
unfolding filter
filter-IsPercentage ratio n = omega arith

abbrev validators : List ℕ
validators = 5 ∷ 7 ∷ 8 ∷ []

draw_runs : eligible filter 50 (some 3) validators ≡ some (8 ∷ 5 ∷ 7 ∷ [])
unfolding filter eligible filter_loop select_one take_out
draw_runs = refl

can_author-draws_example :
    (accounts : List ℕ) × (eligible filter 50 (some 3) validators ≡ some accounts)
    × (length accounts ≡ filter.mul_ceil 50 (length validators))
    × ((account : ℕ) → count account accounts ≤ count account validators)
    × ((account : ℕ)
        → can_author filter 50 (some 3) validators account ≡ some (contains account accounts))
can_author-draws_example = can_author-draws filter 50 3 validators filter-IsPercentage

whole : filter.mul_ceil 100 (length validators) ≡ length validators
unfolding filter
whole = refl

can_author-whole_example :
    can_author filter 100 (some 3) validators 9 ≡ some (contains 9 validators)
can_author-whole_example = can_author-whole filter 100 3 validators 9 whole

-- The codec of the example: an account is a list with itself.
unfoldable encode : ℕ → List ℕ
encode author = author ∷ []

unfoldable decode : List ℕ → Option ℕ
decode [] = none
decode (author ∷ rest) = some author

unfoldable chain : State (Chain ℕ)
unfolding blank
chain = record {
  author = some 4;
  digest = [];
  rest = record {
    stake = record blank { validators = validators };
    eligible_ratio = 50;
    validation_data = some 3;
  };
}

abbrev claimed : List (Bool × ℕ)
claimed = (true, 7) ∷ []

abbrev wired : Inherent.Config (Chain ℕ)
wired = runtime ℕ filter encode decode

-- `CheckWeight`: an error is accepted but in a mandatory dispatch.
unfoldable post_dispatch : DispatchClass → Outcome → Bool
post_dispatch mandatory (err e) = false
post_dispatch class outcome = true

post_dispatch-ok : (class : DispatchClass) → post_dispatch class Inherent.ok ≡ true
unfolding post_dispatch
post_dispatch-ok normal = refl
post_dispatch-ok operational = refl
post_dispatch-ok mandatory = refl

post_dispatch-IsCheckWeight : IsCheckWeight post_dispatch
unfolding post_dispatch
post_dispatch-IsCheckWeight = record { succeeds = post_dispatch-ok; mandatory_fails = λ e. refl }

block_ends : (block wired post_dispatch claimed chain).0 ≡ valid
unfolding block claims chain runtime on_initialize set_author set_unless set_if_allowed write_author
    on_finalize can_author filter eligible filter_loop select_one take_out contains post_dispatch
block_ends = refl

-- A second claim makes the block invalid, and a block without a claim panics.
second_claim : (block wired post_dispatch ((true, 7) ∷ claimed) chain).0 ≡ invalid
unfolding block claims chain runtime on_initialize set_author set_unless set_if_allowed write_author
    on_finalize can_author filter eligible filter_loop select_one take_out contains post_dispatch
second_claim = refl

no_claim : (block wired post_dispatch [] chain).0 ≡ aborted
unfolding block claims on_initialize on_finalize
no_claim = refl

block-author_example :
    let t = (block wired post_dispatch claimed chain).1 in
    (a : ℕ) × (wired.final_can_author a chain.rest ≡ some true)
    × (t.author ≡ some a)
    × (t.digest
        ≡ chain.digest
          ++ record { engine_id = 97 ∷ 117 ∷ 116 ∷ 104 ∷ []; payload = wired.encode a } ∷ [])
    × (t.rest ≡ wired.note_author a chain.rest)
block-author_example =
    block-author wired post_dispatch post_dispatch-IsCheckWeight claimed chain block_ends

block-valid_example :
    ((block wired post_dispatch claimed chain).0 ≡ valid)
    ↔ ((a : ℕ) × (wired.final_can_author a chain.rest ≡ some true) × (claimed ≡ (true, a) ∷ []))
block-valid_example = block-valid wired post_dispatch post_dispatch-IsCheckWeight claimed chain

validation_set : chain.rest.validation_data ≡ some 3
unfolding chain
validation_set = refl

-- Inherent data that holds the bytes put last.
unfoldable store : Store (Option (List ℕ))
store = record {
  put_data = λ id bytes entries. some (some bytes);
  get_data = λ id entries. some entries;
}

store-IsFaithful : IsFaithful store wired
unfolding store runtime encode decode
store-IsFaithful = record {
  decodes = λ author. refl;
  reads = λ id bytes entries after put. sym put;
}

provided : provide_inherent_data store (encode 9) none ≡ some (some (encode 9))
unfolding provide_inherent_data store
provided = refl

validators_rise : IsSorted (λ (a : ℕ). a) chain.rest.stake.validators
unfolding chain
validators_rise = (omega arith, (omega arith, tt))

create_inherent-Judged_example :
    (create_inherent store wired (some (encode 9)) ≡ created (Data.set_author 9))
    × (((contains 9 chain.rest.stake.validators ≡ true)
          × (check_inherent wired (Data.set_author 9) chain.rest ≡ Checked.ok))
        ⊎ ((contains 9 chain.rest.stake.validators ≡ false)
            × (check_inherent wired (Data.set_author 9) chain.rest
                ≡ Checked.err InherentError.cannot_be_author)
            × ((block wired post_dispatch ((true, 9) ∷ []) chain).0 ≡ invalid)))
create_inherent-Judged_example =
    create_inherent-Judged ℕ filter encode decode post_dispatch store 9 3 none (some (encode 9))
      chain store-IsFaithful post_dispatch-IsCheckWeight filter-IsPercentage validators_rise
      validation_set provided
