-- ===== src/TxPool.antt =====
-- client/rpc/txpool/src/lib.rs, and the types of client/rpc-core/txpool: the pending transactions of
-- the pool by their sender and nonce.
pub mod Types
pub mod Pending
mod Tests
use moonbeam.Base.{ℕ, List, [], ◌∷◌, Option, none, some, unwrap_or, Bool, if◌then◌else◌}
use moonbeam.Base.Map
use moonbeam.Base.Map.{Map}
use moonbeam.TxPool.Types.{
  Extrinsic, extrinsic_filter, EthereumTransaction, GetT, Transaction, Summary, TransactionMap,
  TxPoolResult, transaction_get_t, summary_get_t,
}

-- What the server calls: the hash of a transaction, the address of the public key that its
-- signature recovers, `none` if there is none, the ready extrinsics of the pool, whether the call of
-- the runtime's filter fails, and the pool's counts.
pub record Client : Type 0 where
  pub hash : EthereumTransaction → ℕ
  pub recovered_address : EthereumTransaction → ℕ → Option ℕ
  pub ready : List Extrinsic
  pub api_fails : Bool
  pub status_ready : ℕ
  pub status_future : ℕ

-- `H160::default()`
abbrev pub default_address : ℕ
default_address = 0

module _ {T : Type 0} (client : Client) (get_t : GetT T) where
  unfoldable pub from_address : EthereumTransaction → ℕ
  from_address txn = unwrap_or (client.recovered_address txn (client.hash txn)) default_address

  -- `out.entry(from_address).or_insert_with(HashMap::new).insert(txn.nonce, T::get(..))`
  unfoldable pub insert_txn : EthereumTransaction → TransactionMap T → TransactionMap T
  unfolding from_address
  insert_txn txn out =
      let from = from_address txn in
      Map.insert from
        (Map.insert txn.nonce (get_t.get (client.hash txn) from txn)
          (unwrap_or (Map.lookup from out) []))
        out

  unfoldable pub insert_all : List EthereumTransaction → TransactionMap T → TransactionMap T
  unfolding insert_txn
  insert_all [] out = out
  insert_all (txn ∷ txns) out = insert_all txns (insert_txn txn out)

  -- `map_build`, where an internal error is `none`
  unfoldable pub map_build : Option (TransactionMap T)
  unfolding insert_all extrinsic_filter
  map_build =
      if client.api_fails then none else some (insert_all (extrinsic_filter client.ready) [])

abbrev pub only_pending :
    {T : Type 0} → Option (TransactionMap T) → Option (TxPoolResult (TransactionMap T))
only_pending none = none
only_pending (some pending) = some (record { pending = pending; queued = [] })

module _ (client : Client) where
  unfoldable pub content : Option (TxPoolResult (TransactionMap Transaction))
  unfolding map_build
  content = only_pending (map_build client transaction_get_t)

  unfoldable pub inspect : Option (TxPoolResult (TransactionMap Summary))
  unfolding map_build
  inspect = only_pending (map_build client summary_get_t)

  abbrev pub status : TxPoolResult ℕ
  status = record { pending = client.status_ready; queued = client.status_future }
