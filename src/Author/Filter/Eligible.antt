-- ===== src/Author/Filter/Eligible.antt =====
-- The filter of pallets/author-filter/src/lib.rs draws without replacement.
use moonbeam.Base.{
  sym, ap, ℕ, zero, suc, ◌+◌, ◌%◌, ◌^◌, ◌≤◌, ◌<◌, ◌≡◌, refl, true, false, Option, some, List, [],
  ◌∷◌, ◌++◌, ◌==◌, if◌then◌else◌, length, get_elem?, remove_at, arith, length-append,
}
use moonbeam.Author.Filter.{
  contains, subject, take_out, Config, select_one, filter_loop, eligible, can_author,
}

-- How often an account stands in a list.
unfoldable pub count : ℕ → List ℕ → ℕ
count a [] = 0
count a (x ∷ xs) = (if x == a then 1 else 0) + count a xs

count-append : (a : ℕ) (xs ys : List ℕ) → count a (xs ++ ys) ≡ count a xs + count a ys
unfolding count
count-append a [] ys = omega arith
count-append a (x ∷ xs) ys = omega (arith, count-append a xs ys)

pub contains-count : (a : ℕ) (xs : List ℕ) → contains a xs ≡ true → 1 ≤ count a xs
unfolding contains count
contains-count a [] h = ground arith
contains-count a (x ∷ xs) h = ground (arith, contains-count a xs)

pub count-contains : (a : ℕ) (xs : List ℕ) → 1 ≤ count a xs → contains a xs ≡ true
unfolding contains count
count-contains a [] h = ground arith
count-contains a (x ∷ xs) h = ground (arith, count-contains a xs)

contains-same : (a : ℕ) (xs ys : List ℕ) → count a xs ≡ count a ys → contains a xs ≡ contains a ys
contains-same a xs ys same =
    ground
      (arith, contains-count a xs, contains-count a ys, count-contains a xs, count-contains a ys)

-- A place in a list: taking it out leaves all the others.
get_elem?-found :
    (i : ℕ) (xs : List ℕ)
    → i < length xs
    → (a : ℕ) × (get_elem? xs i ≡ some a)
      × (suc (length (remove_at i xs)) ≡ length xs)
      × ((b : ℕ) → (if a == b then 1 else 0) + count b (remove_at i xs) ≡ count b xs)
unfolding count
get_elem?-found i [] h = ground arith
get_elem?-found zero (x ∷ xs) h = (x, refl, refl, λ b. refl)
get_elem?-found (suc i) (x ∷ xs) h =
    let (a, found, shorter, same) = get_elem?-found i xs (omega arith) in
    (a, found, omega arith, λ b. omega (arith, same b))

-- What a draw gives: one of the accounts, and the others.
abbrev Drawn : Option (ℕ × List ℕ) → List ℕ → Type 0
Drawn o xs =
    (a : ℕ) × (rest : List ℕ) × (o ≡ some (a, rest))
    × (suc (length rest) ≡ length xs)
    × ((b : ℕ) → (if a == b then 1 else 0) + count b rest ≡ count b xs)

take_out-found : (i : ℕ) (xs : List ℕ) → i < length xs → Drawn (take_out i xs) xs
unfolding take_out
take_out-found i xs h =
    let (a, found, shorter, same) = get_elem?-found i xs h in
    (a, remove_at i xs, rw (found, take_out) refl, shorter, same)

count-none : (b : ℕ) (xs : List ℕ) → length xs ≡ 0 → count b xs ≡ 0
unfolding count
count-none b [] h = refl
count-none b (x ∷ xs) h = ground arith

rem-lt : (a n : ℕ) → a % suc n < suc n
rem-lt a n = omega arith

module _ (cfg : Config) (relay_height : ℕ) where
  select_one-found :
      (i : ℕ) (xs : List ℕ) → 0 < length xs → Drawn (select_one cfg relay_height i xs) xs
  unfolding select_one
  select_one-found i [] h = ground arith
  select_one-found i (x ∷ xs) h =
      take_out-found _ (x ∷ xs) (rem-lt (cfg.random (subject i relay_height) % 2 ^ 32) (length xs))

  -- The loop never panics while accounts are left, and draws as many as it has rounds.
  filter_loop-found :
      (n i : ℕ) (staked drawn : List ℕ)
      → n ≤ length staked
      → (accounts : List ℕ) × (filter_loop cfg relay_height n i staked drawn ≡ some accounts)
        × (length accounts ≡ length drawn + n)
        × ((b : ℕ) → count b drawn ≤ count b accounts)
        × ((b : ℕ) → count b accounts ≤ count b drawn + count b staked)
        × (n ≡ length staked → (b : ℕ) → count b accounts ≡ count b drawn + count b staked)
  unfolding filter_loop count
  filter_loop-found zero i staked drawn h = (
    drawn,
    refl,
    omega arith,
    λ b. omega arith,
    λ b. omega arith,
    λ e b. omega (arith, count-none b staked (sym e)),
  )
  filter_loop-found (suc n) i staked drawn h =
      let (a, rest, found, shorter, same) = select_one-found i staked (omega arith) in
      let (accounts, looped, long, more, less, all) =
        filter_loop-found n (suc i) rest (drawn ++ a ∷ []) (omega arith) in
      (
        accounts,
        rw (found, filter_loop) looped,
        omega (arith, length-append drawn (a ∷ [])),
        λ b. omega (arith, more b, count-append b drawn (a ∷ [])),
        λ b. omega (arith, less b, same b, count-append b drawn (a ∷ [])),
        λ e b. omega (arith, all (omega arith) b, same b, count-append b drawn (a ∷ [])),
      )

-- What `Percent::mul_ceil` documents: a percentage of a number is at most the number.
abbrev pub IsPercentage : (ℕ → ℕ → ℕ) → Type 0
IsPercentage mul_ceil = (ratio n : ℕ) → mul_ceil ratio n ≤ n

-- Once the validation data is set, `can_author` never panics, and it accepts staked accounts only.
-- The filter draws the ratio's share of the staked accounts, rounded up, each at most as often as it
-- is staked.
pub can_author-draws :
    (cfg : Config) (ratio relay_height : ℕ) (staked : List ℕ)
    → IsPercentage cfg.mul_ceil
    → (accounts : List ℕ) × (eligible cfg ratio (some relay_height) staked ≡ some accounts)
      × (length accounts ≡ cfg.mul_ceil ratio (length staked))
      × ((account : ℕ) → count account accounts ≤ count account staked)
      × ((account : ℕ)
          → can_author cfg ratio (some relay_height) staked account
            ≡ some (contains account accounts))
unfolding eligible can_author count
can_author-draws cfg ratio relay_height staked share =
    let (accounts, looped, long, more, less, all) =
      filter_loop-found cfg relay_height (cfg.mul_ceil ratio (length staked)) 0 staked []
        (share ratio (length staked)) in
    (
      accounts,
      looped,
      omega arith,
      λ account. omega (arith, less account),
      λ account. rw (looped, can_author, eligible) refl,
    )

-- An account that `can_author` accepts is staked.
pub can_author-staked :
    (cfg : Config) (ratio relay_height : ℕ) (staked : List ℕ) (account : ℕ)
    → IsPercentage cfg.mul_ceil
    → can_author cfg ratio (some relay_height) staked account ≡ some true
    → contains account staked ≡ true
can_author-staked cfg ratio relay_height staked account share accepted =
    let (accounts, drawn, long, less, answer) =
      can_author-draws cfg ratio relay_height staked share in
    ground (
      arith,
      answer account,
      less account,
      contains-count account accounts,
      count-contains account staked,
    )

-- An account that is not staked is refused, and not by a panic.
pub can_author-other :
    (cfg : Config) (ratio relay_height : ℕ) (staked : List ℕ) (account : ℕ)
    → IsPercentage cfg.mul_ceil
    → contains account staked ≡ false
    → can_author cfg ratio (some relay_height) staked account ≡ some false
can_author-other cfg ratio relay_height staked account share other =
    let (accounts, drawn, long, less, answer) =
      can_author-draws cfg ratio relay_height staked share in
    ground (
      arith,
      answer account,
      less account,
      contains-count account accounts,
      count-contains account staked,
    )

-- At a ratio of the whole, every staked account may author at every relay height, and no other.
pub can_author-whole :
    (cfg : Config) (ratio relay_height : ℕ) (staked : List ℕ) (account : ℕ)
    → cfg.mul_ceil ratio (length staked) ≡ length staked
    → can_author cfg ratio (some relay_height) staked account ≡ some (contains account staked)
unfolding can_author eligible count
can_author-whole cfg ratio relay_height staked account whole =
    let (accounts, looped, long, more, less, all) =
      filter_loop-found cfg relay_height (cfg.mul_ceil ratio (length staked)) 0 staked []
        (omega arith) in
    rw (looped, can_author, eligible)
      (ap some (contains-same account accounts staked (omega (arith, all whole account))))
