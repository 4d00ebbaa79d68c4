-- ===== src/Stake/Agrees/Pool.antt =====
-- The ways in which the calls write `Candidates`, the pool and the exit queue together.
use moonbeam.Base.{ℕ, ◌≡◌, none, some, List, arith, ◌==◌, if◌then◌else◌}
use moonbeam.Base.Map
use moonbeam.Base.Map.{Map, lookup-insert, lookup-remove}
use moonbeam.OrderedSet
use moonbeam.OrderedSet.{IsSorted, find}
use moonbeam.OrderedSet.Laws.{
  insert-IsSorted, find-insert, remove-IsSorted, find-remove, remove_unchanged,
}
use moonbeam.Stake.Types.{Bond, owner_of, active, idle, leaving, Validator}
use moonbeam.Stake.Validator.{is_active}
use moonbeam.Stake.CandidateCalls.{update_pool, pool_without}
use moonbeam.Stake.Agrees.{pool_entry, exit_entry, Agrees}

update_pool-IsSorted :
    (c total : ℕ) (pool : List Bond)
    → IsSorted owner_of pool
    → IsSorted owner_of (update_pool c total pool)
unfolding update_pool
update_pool-IsSorted c total pool s =
    insert-IsSorted owner_of _ _ (remove-IsSorted owner_of c pool s)

find-update_pool :
    (c total a : ℕ) (pool : List Bond)
    → IsSorted owner_of pool
    → find owner_of a (update_pool c total pool)
      ≡ (if c == a then some (record { owner = c; amount = total }) else find owner_of a pool)
unfolding update_pool
find-update_pool c total a pool s = ground (
  arith,
  find-insert owner_of (record { owner = c; amount = total }) a
      (OrderedSet.remove owner_of c pool).0 (remove-IsSorted owner_of c pool s),
  find-remove owner_of c c pool s,
  find-remove owner_of c a pool s,
)

pool_without-remove :
    (c : ℕ) (pool : List Bond) → pool_without c pool ≡ (OrderedSet.remove owner_of c pool).0
unfolding pool_without
pool_without-remove c pool = ground (arith, remove_unchanged owner_of c pool)

module _ {m : Map Validator} {pool exits : List Bond} (h : Agrees m pool exits) where
  -- A candidate that keeps its status, and whose bond in the pool is renewed if it is active.
  pub Agrees-refresh :
      (c total : ℕ) (u v : Validator)
      → Map.lookup c m ≡ some u
      → v.state ≡ u.state
      → v.total ≡ total
      → Agrees (Map.insert c v m) (if is_active v then update_pool c total pool else pool) exits
  Agrees-refresh c total u v found same e = record {
    pool_sorted = ground (arith, update_pool-IsSorted c total pool h.pool_sorted, h.pool_sorted);
    exits_sorted = h.exits_sorted;
    pool_agrees = λ a. ground (
      arith,
      find-update_pool c total a pool h.pool_sorted,
      lookup-insert c a v m,
      h.pool_agrees a,
    );
    exits_agree = λ a. ground (arith, lookup-insert c a v m, h.exits_agree a);
  }

  -- A candidate that enters the pool.
  pub Agrees-enter :
      (c : ℕ) (v : Validator)
      → v.state ≡ active
      → pool_entry c (Map.lookup c m) ≡ none
      → exit_entry c (Map.lookup c m) ≡ none
      → Agrees
          (Map.insert c v m)
          (OrderedSet.insert owner_of (record { owner = c; amount = v.total }) pool).0
          exits
  Agrees-enter c v e out stays = record {
    pool_sorted = insert-IsSorted owner_of _ pool h.pool_sorted;
    exits_sorted = h.exits_sorted;
    pool_agrees = λ a. ground (
      arith,
      find-insert owner_of (record { owner = c; amount = v.total }) a pool h.pool_sorted,
      lookup-insert c a v m,
      h.pool_agrees a,
      h.pool_agrees c,
    );
    exits_agree = λ a. ground (arith, lookup-insert c a v m, h.exits_agree a);
  }

  -- A candidate that leaves the pool and goes idle.
  pub Agrees-idle :
      (c : ℕ) (v : Validator)
      → v.state ≡ idle
      → exit_entry c (Map.lookup c m) ≡ none
      → Agrees (Map.insert c v m) (pool_without c pool) exits
  Agrees-idle c v e stays = record {
    pool_sorted = rw (pool_without-remove c pool) (remove-IsSorted owner_of c pool h.pool_sorted);
    exits_sorted = h.exits_sorted;
    pool_agrees = λ a. ground (
      arith,
      pool_without-remove c pool,
      find-remove owner_of c a pool h.pool_sorted,
      lookup-insert c a v m,
      h.pool_agrees a,
    );
    exits_agree = λ a. ground (arith, lookup-insert c a v m, h.exits_agree a);
  }

  -- A candidate that leaves the pool for the exit queue.
  pub Agrees-leave :
      (c when : ℕ) (v : Validator)
      → v.state ≡ leaving when
      → exit_entry c (Map.lookup c m) ≡ none
      → Agrees
          (Map.insert c v m)
          (pool_without c pool)
          (OrderedSet.insert owner_of (record { owner = c; amount = when }) exits).0
  Agrees-leave c when v e stays = record {
    pool_sorted = rw (pool_without-remove c pool) (remove-IsSorted owner_of c pool h.pool_sorted);
    exits_sorted = insert-IsSorted owner_of _ exits h.exits_sorted;
    pool_agrees = λ a. ground (
      arith,
      pool_without-remove c pool,
      find-remove owner_of c a pool h.pool_sorted,
      lookup-insert c a v m,
      h.pool_agrees a,
    );
    exits_agree = λ a. ground (
      arith,
      find-insert owner_of (record { owner = c; amount = when }) a exits h.exits_sorted,
      lookup-insert c a v m,
      h.exits_agree a,
      h.exits_agree c,
    );
  }
