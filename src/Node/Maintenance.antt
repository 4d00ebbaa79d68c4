-- ===== src/Node/Maintenance.antt =====
-- The maintenance tasks of node/src/service.rs, which drop old Ethereum filters and old or processed
-- pending transactions when a block is imported. `start_node_impl` and `new_dev` spawn the same two.
pub mod Lifetime
use moonbeam.Base.{
  ℕ, Bool, true, false, Option, none, some, List, [], ◌∷◌, leb, ltb, not, ◌==◌, ◌||◌, ◌&&◌,
  if◌then◌else◌, unwrap_or,
}
use mathlib.Core.List.{reverse}
use moonbeam.Base.{add_u64}
use moonbeam.Base.Map
use moonbeam.Base.Map.{Map}

-- A value behind a mutex, which is poisoned if a thread panicked with the lock.
pub record Mutex {ℓ} (A : Type ℓ) : Type ℓ where
  pub value : A
  pub poisoned : Bool

-- `if let Ok(locked) = &mut mutex.lock() { .. }`
abbrev pub if_locked {ℓ} : {A : Type ℓ} → (A → A) → Mutex A → Mutex A
if_locked change m =
    if m.poisoned then m else record { value = change m.value; poisoned = m.poisoned }

abbrev pub filter_retain_threshold : ℕ
filter_retain_threshold = 100

abbrev pub transaction_retain_threshold : ℕ
transaction_retain_threshold = 5

-- A header of an imported block: its number, and the logs of its digest.
pub record Header (Log : Type 0) : Type 0 where
  pub number : ℕ
  pub logs : List Log

module _ {Item : Type 0} (at_block : Item → ℕ) where
  -- The loop over a clone of the pool, which removes from the pool itself.
  unfoldable pub remove_expired : ℕ → Map Item → Map Item → Map Item
  remove_expired imported_number [] locked = locked
  remove_expired imported_number (e ∷ rest) locked =
      let lifespan_limit = add_u64 (at_block e.1) filter_retain_threshold in
      remove_expired imported_number rest
        (if leb lifespan_limit imported_number then Map.remove e.0 locked else locked)

  -- The task "frontier-filter-pool", at one notification
  unfoldable pub maintain_filters :
      {Log : Type 0} → Header Log → Mutex (Map Item) → Mutex (Map Item)
  unfolding remove_expired
  maintain_filters header = if_locked (λ locked. remove_expired header.number locked locked)

-- `HashMap::retain`
unfoldable pub retain {ℓ} : {V : Type ℓ} → (ℕ → V → Bool) → Map V → Map V
retain keep [] = []
retain keep (e ∷ m) = let rest = retain keep m in if keep e.0 e.1 then e ∷ rest else rest

unfoldable pub contains_hash : ℕ → List ℕ → Bool
contains_hash k [] = false
contains_hash k (h ∷ hashes) = h == k || contains_hash k hashes

-- Other crates decode a log as one of Frontier's, and match it with `ConsensusLog::EndBlock`, of
-- which the transaction hashes are used.
pub record Frontier (Log : Type 0) : Type 1 where
  pub ConsensusLog : Type 0
  pub try_to : Log → Option ConsensusLog
  pub end_block : ConsensusLog → Option (List ℕ)

module _ {Log : Type 0} (frontier : Frontier Log) where
  -- The loop that breaks at the first log of Frontier's
  unfoldable pub first_log : List Log → Option frontier.ConsensusLog
  first_log [] = none
  first_log (log ∷ logs) =
      let rest = first_log logs in elim (frontier.try_to log) [ none ↦ rest | some l ↦ some l ]

  unfoldable pub frontier_log : List Log → Option frontier.ConsensusLog
  unfolding first_log
  frontier_log logs = first_log (reverse logs)

  -- The hashes of `Some(ConsensusLog::EndBlock { .. })`
  unfoldable pub processed : List Log → Option (List ℕ)
  unfolding frontier_log
  processed logs = elim (frontier_log logs) [ none ↦ none | some l ↦ frontier.end_block l ]

  module _ {Pending : Type 0} (at_block : Pending → ℕ) where
    abbrev pub retain_unprocessed : Option (List ℕ) → Map Pending → Map Pending
    retain_unprocessed none locked = locked
    retain_unprocessed (some transaction_hashes) locked =
        retain (λ k v. not (contains_hash k transaction_hashes)) locked

    abbrev pub retain_recent : ℕ → Map Pending → Map Pending
    retain_recent imported_number =
        retain (λ k v. ltb imported_number (add_u64 (at_block v) transaction_retain_threshold))

    -- The task "frontier-pending-transactions", at one notification
    unfoldable pub maintain_pending : Header Log → Mutex (Map Pending) → Mutex (Map Pending)
    unfolding processed retain
    maintain_pending header =
        if_locked (λ locked.
          retain_recent header.number (retain_unprocessed (processed header.logs) locked))

-- `import_notification_stream().for_each(..)`, over the notifications that came
unfoldable pub for_each : {Log S : Type 0} → (Header Log → S → S) → List (Header Log) → S → S
for_each task [] s = s
for_each task (notification ∷ rest) s = for_each task rest (task notification s)
