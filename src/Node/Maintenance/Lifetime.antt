-- ===== src/Node/Maintenance/Lifetime.antt =====
-- How long filters and pending transactions stay in their pools, over the notifications of imported
-- blocks.
use moonbeam.Base.{
  ℕ, ◌≡◌, refl, ap, ◌∙◌, Bool, true, false, Option, none, some, List, [], ◌∷◌, leb, ltb, not, ◌==◌,
  ◌&&◌, if◌then◌else◌, arith, add_u64, Bool-cases, inl, inr,
}
use moonbeam.Base.Map
use moonbeam.Base.Map.{Map, lookup-remove}
use moonbeam.Node.Maintenance.{
  Mutex, if_locked, Header, Frontier, filter_retain_threshold, remove_expired, maintain_filters,
  contains_hash, processed, for_each,
}

-- No key stands twice in a map.
abbrev pub IsUnique {ℓ} : {V : Type ℓ} → Map V → Type ℓ
IsUnique [] = Unit
IsUnique (e ∷ m) = (Map.lookup e.0 m ≡ none) × IsUnique m

abbrev pub filter_option {ℓ} : {A : Type ℓ} → (A → Bool) → Option A → Option A
filter_option keep none = none
filter_option keep (some a) = if keep a then some a else none

-- The change `f` drops exactly the entries that `keep` does not keep.
record Filters {V : Type 0} (keep : ℕ → V → Bool) (f : Map V → Map V) : Type 0 where
  unique : (m : Map V) → IsUnique m → IsUnique (f m)
  looks :
      (m : Map V) (k : ℕ)
      → IsUnique m
      → Map.lookup k (f m) ≡ filter_option (keep k) (Map.lookup k m)

filter_option-filter_option :
    {V : Type 0} (p q : V → Bool) (o : Option V)
    → filter_option q (filter_option p o) ≡ filter_option (λ v. p v && q v) o
filter_option-filter_option p q none = refl
filter_option-filter_option p q (some v) = ground arith

module _ {V : Type 0} where
  remove-IsUnique : (k : ℕ) (m : Map V) → IsUnique m → IsUnique (Map.remove k m)
  unfolding Map.remove
  remove-IsUnique k [] u = tt
  remove-IsUnique k (e ∷ m) u = elim (Bool-cases (e.0 == k)) [
    | inl same ↦ rw same (remove-IsUnique k m u.1)
    | inr other ↦ rw other (lookup-remove-none k e.0 m u.0, remove-IsUnique k m u.1)
  ]
    where
      lookup-remove-none :
          (k j : ℕ) (m : Map V) → Map.lookup j m ≡ none → Map.lookup j (Map.remove k m) ≡ none
      lookup-remove-none k j m h = ground (arith, lookup-remove k j m)

-- A filter may stay when a block is imported.
abbrev pub stays : {Item : Type 0} → (Item → ℕ) → ℕ → Item → Bool
stays at_block number v = ltb number (add_u64 (at_block v) filter_retain_threshold)

module _ {Item : Type 0} (at_block : Item → ℕ) (number : ℕ) where
  -- No entry of the clone with the key `k` is expired.
  spares : ℕ → Map Item → Bool
  spares k [] = true
  spares k (e ∷ m) = (if e.0 == k then stays at_block number e.1 else true) && spares k m

  lookup-remove_expired :
      (k : ℕ) (m locked : Map Item)
      → Map.lookup k (remove_expired at_block number m locked)
        ≡ (if spares k m then Map.lookup k locked else none)
  unfolding remove_expired spares
  lookup-remove_expired k [] locked = refl
  lookup-remove_expired k (e ∷ m) locked = ground (
    arith,
    lookup-remove_expired k m locked,
    lookup-remove_expired k m (Map.remove e.0 locked),
    lookup-remove e.0 k locked,
  )

  remove_expired-IsUnique :
      (m locked : Map Item) → IsUnique locked → IsUnique (remove_expired at_block number m locked)
  unfolding remove_expired
  remove_expired-IsUnique [] locked u = u
  remove_expired-IsUnique (e ∷ m) locked u =
      elim (Bool-cases (leb (add_u64 (at_block e.1) filter_retain_threshold) number)) [
        | inl expired ↦ rw expired (remove_expired-IsUnique m _ (remove-IsUnique e.0 locked u))
        | inr recent ↦ rw recent (remove_expired-IsUnique m locked u)
      ]

  spares-none : (k : ℕ) (m : Map Item) → Map.lookup k m ≡ none → spares k m ≡ true
  unfolding spares Map.lookup
  spares-none k [] h = refl
  spares-none k (e ∷ m) h = ground (arith, spares-none k m)

  spares_lem :
      (k : ℕ) (m : Map Item)
      → IsUnique m
      → (if spares k m then Map.lookup k m else none)
        ≡ filter_option (stays at_block number) (Map.lookup k m)
  unfolding spares Map.lookup
  spares_lem k [] u = refl
  spares_lem k (e ∷ m) u = ground (arith, spares_lem k m u.1, spares-none k m)

  remove_expired-Filters :
      Filters (λ k. stays at_block number) (λ m. remove_expired at_block number m m)
  remove_expired-Filters = record {
    unique = λ m u. remove_expired-IsUnique m m u;
    looks = λ m k u. lookup-remove_expired k m m ∙ spares_lem k m u;
  }

-- Something that is kept while `keep` holds of every imported block.
abbrev pub outlives : {Log : Type 0} → (Header Log → Bool) → List (Header Log) → Bool
outlives keep [] = true
outlives keep (h ∷ headers) = keep h && outlives keep headers

module _ {Log V : Type 0} (keep : Header Log → ℕ → V → Bool) (change : Header Log → Map V → Map V)
    (drops : (h : Header Log) → Filters (keep h) (change h)) where
  lookup-for_each :
      (headers : List (Header Log)) (m : Mutex (Map V)) (k : ℕ)
      → m.poisoned ≡ false
      → IsUnique m.value
      → Map.lookup k (for_each (λ h. if_locked (change h)) headers m).value
        ≡ filter_option (λ v. outlives (λ h. keep h k v) headers) (Map.lookup k m.value)
  unfolding for_each
  lookup-for_each [] m k open_lock u = ground (arith)
  lookup-for_each (h ∷ headers) m k open_lock u = rw open_lock (
      lookup-for_each headers (record { value = change h m.value; poisoned = false }) k refl
        ((drops h).unique m.value u)
      ∙ ap (filter_option (λ v. outlives (λ h'. keep h' k v) headers)) ((drops h).looks m.value k u)
      ∙ filter_option-filter_option (keep h k) (λ v. outlives (λ h'. keep h' k v) headers)
          (Map.lookup k m.value))

-- While the lock is not poisoned, after the notifications of any blocks the pool of filters holds
-- exactly the filters that it held and of which every block's number lies below their own block's plus 100.
pub lookup-maintain_filters :
    {Log Item : Type 0} (at_block : Item → ℕ) (headers : List (Header Log)) (m : Mutex (Map Item))
    (k : ℕ)
    → m.poisoned ≡ false
    → IsUnique m.value
    → Map.lookup k (for_each (maintain_filters at_block) headers m).value
      ≡ filter_option
          (λ v. outlives (λ h. ltb h.number (add_u64 (at_block v) 100)) headers)
          (Map.lookup k m.value)
unfolding maintain_filters
lookup-maintain_filters at_block headers m k open_lock u =
    lookup-for_each (λ h j v. stays at_block h.number v)
      (λ h locked. remove_expired at_block h.number locked locked)
      (λ h. remove_expired-Filters at_block h.number) headers m k open_lock u

-- A pending transaction may stay when a block is imported.
abbrev pub is_processed : ℕ → Option (List ℕ) → Bool
is_processed k none = false
is_processed k (some hashes) = contains_hash k hashes

module _ {Log Pending : Type 0} (frontier : Frontier Log) (at_block : Pending → ℕ) where
  abbrev pub stays_pending : Header Log → ℕ → Pending → Bool
  stays_pending h k v =
      not (is_processed k (processed frontier h.logs)) && ltb h.number (add_u64 (at_block v) 5)
