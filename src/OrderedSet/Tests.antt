-- ===== src/OrderedSet/Tests.antt =====
-- Runs of the ordered set, and its contract at concrete sets. Elements are numbers, ordered as such.
use moonbeam.Base.{
  ℕ, ◌≡◌, refl, true, false, none, some, List, [], ◌∷◌, is_some, is_none, ◌==◌, if◌then◌else◌,
  arith,
}
use moonbeam.OrderedSet.{
  probe, search_loop, search_end, found, vacant, binary_search, insert, remove, contains, find,
  sort_insert, sort, dedup_after, dedup, from, IsSorted,
}
use moonbeam.OrderedSet.Refinement.{Refines, insert-Refines, remove-Refines, from-Refines}

abbrev self : ℕ → ℕ
self x = x

abbrev evens : List ℕ
evens = 2 ∷ 4 ∷ 8 ∷ []

evens-IsSorted : IsSorted self evens
evens-IsSorted = ground arith

search_runs :
    (binary_search self 8 evens ≡ found 2)
    × (binary_search self 5 evens ≡ vacant 2)
    × (binary_search self 9 evens ≡ vacant 3)
unfolding binary_search search_loop search_end probe
search_runs = (refl, refl, refl)

insert_runs :
    (insert self 5 evens ≡ (2 ∷ 4 ∷ 5 ∷ 8 ∷ [], true)) × (insert self 4 evens ≡ (evens, false))
unfolding insert binary_search search_loop search_end probe
insert_runs = (refl, refl)

remove_runs : remove self 4 evens ≡ (2 ∷ 8 ∷ [], true)
unfolding remove binary_search search_loop search_end probe
remove_runs = refl

from_runs : from self (8 ∷ 2 ∷ 8 ∷ 4 ∷ 2 ∷ []) ≡ evens
unfolding from sort sort_insert dedup dedup_after
from_runs = refl

insert-Refines_example :
    Refines self
      (λ j.
        if is_some (find self 5 evens)
        then find self j evens
        else (if 5 == j then some 5 else find self j evens))
      (is_none (find self 5 evens))
      (insert self 5 evens)
insert-Refines_example = insert-Refines self 5 evens evens-IsSorted

remove-Refines_example :
    Refines self
      (λ j. if 4 == j then none else find self j evens)
      (is_some (find self 4 evens))
      (remove self 4 evens)
remove-Refines_example = remove-Refines self 4 evens evens-IsSorted

from-Refines_example :
    Refines self
      (λ j. find self j (8 ∷ 2 ∷ 8 ∷ []))
      (is_some (find self 2 (8 ∷ 2 ∷ 8 ∷ [])))
      (from self (8 ∷ 2 ∷ 8 ∷ []), contains self 2 (from self (8 ∷ 2 ∷ 8 ∷ [])))
from-Refines_example = from-Refines self 2 (8 ∷ 2 ∷ 8 ∷ [])
