-- ===== src/TxPool/Pending.antt =====
-- What the maps of pending transactions hold.
use moonbeam.Base.{
  sym, ℕ, List, [], ◌∷◌, Option, none, some, unwrap_or, ◌≡◌, refl, ap, ◌∙◌, arith, ◌==◌,
  if◌then◌else◌, ◌&&◌, Bool, true, false,
}
use moonbeam.Base.Map
use moonbeam.Base.Map.{lookup, lookup-insert}
use moonbeam.TxPool.Types.{
  extrinsic_filter, EthereumTransaction, GetT, TransactionMap, Transaction, Summary,
  transaction_get_t, summary_get_t,
}
use moonbeam.TxPool.{
  content, inspect, only_pending, Client, from_address, insert_txn, insert_all, map_build,
}

-- The entry for a sender and a nonce.
abbrev pub entry : {T : Type 0} → ℕ → ℕ → TransactionMap T → Option T
entry from nonce out = lookup nonce (unwrap_or (lookup from out) [])

entry-put :
    {T : Type 0} (k j n m : ℕ) (v : T) (out : TransactionMap T)
    → entry j m (Map.insert k (Map.insert n v (unwrap_or (lookup k out) [])) out)
      ≡ (if (k == j) && (n == m) then some v else entry j m out)
entry-put k j n m v out =
    let old = unwrap_or (lookup k out) [] in
    ap (λ o. lookup m (unwrap_or o [])) (lookup-insert k j (Map.insert n v old) out)
    ∙ ground (arith, lookup-insert n m v old)

abbrev pub or_else : {A : Type 0} → Option A → Option A → Option A
or_else none b = b
or_else (some a) b = some a

module _ {T : Type 0} (client : Client) (get_t : GetT T) where
  -- The last of the transactions that has the sender and the nonce.
  unfoldable pub last_txn : ℕ → ℕ → List EthereumTransaction → Option EthereumTransaction
  last_txn from nonce [] = none
  last_txn from nonce (txn ∷ txns) =
      or_else (last_txn from nonce txns)
        (if (from_address client get_t txn == from) && (txn.nonce == nonce) then some txn else none)

  abbrev pub view : Option EthereumTransaction → Option T → Option T
  view none old = old
  view (some txn) old = some (get_t.get (client.hash txn) (from_address client get_t txn) txn)

  view-or_else :
      (o : Option EthereumTransaction) (b : Bool) (txn : EthereumTransaction) (old : Option T)
      → view o (
          if b then some (get_t.get (client.hash txn) (from_address client get_t txn) txn) else old)
        ≡ view (or_else o (if b then some txn else none)) old
  view-or_else none true txn old = refl
  view-or_else none false txn old = refl
  view-or_else (some later) true txn old = refl
  view-or_else (some later) false txn old = refl

  entry-insert_all :
      (from nonce : ℕ) (txns : List EthereumTransaction) (out : TransactionMap T)
      → entry from nonce (insert_all client get_t txns out)
        ≡ view (last_txn from nonce txns) (entry from nonce out)
  unfolding insert_all insert_txn last_txn
  entry-insert_all from nonce [] out = refl
  entry-insert_all from nonce (txn ∷ txns) out =
      let sender = from_address client get_t txn in
      let v = get_t.get (client.hash txn) sender txn in
      entry-insert_all from nonce txns (insert_txn client get_t txn out)
      ∙ ap (view (last_txn from nonce txns)) (entry-put sender from txn.nonce nonce v out)
      ∙ view-or_else (last_txn from nonce txns) _ txn _

  pub entry-map_build :
      client.api_fails ≡ false
      → (out : TransactionMap T) × (map_build client get_t ≡ some out)
        × ((from nonce : ℕ)
            → entry from nonce out
              ≡ view (last_txn from nonce (extrinsic_filter client.ready)) none)
  unfolding map_build lookup
  entry-map_build answered = (
    insert_all client get_t (extrinsic_filter client.ready) [],
    rw (map_build, answered) refl,
    λ from nonce. entry-insert_all from nonce (extrinsic_filter client.ready) [],
  )

-- What `inspect` shows of a transaction that `content` shows.
abbrev pub summary_of : Option Transaction → Option Summary
summary_of none = none
summary_of (some t) =
    some (record { to = t.to; value = t.value; gas = t.gas; gas_price = t.gas_price })

module _ (client : Client) where
  last_txn-any :
      {T U : Type 0} (g : GetT T) (h : GetT U) (from nonce : ℕ) (txns : List EthereumTransaction)
      → last_txn client g from nonce txns ≡ last_txn client h from nonce txns
  unfolding last_txn from_address
  last_txn-any g h from nonce [] = refl
  last_txn-any g h from nonce (txn ∷ txns) = rw (last_txn-any g h from nonce txns) refl

  view-summary_of :
      (o : Option EthereumTransaction)
      → view client summary_get_t o none ≡ summary_of (view client transaction_get_t o none)
  unfolding from_address
  view-summary_of none = refl
  view-summary_of (some txn) = refl

  -- Unless the call of the runtime fails, `content` and `inspect` answer, with nothing queued, and
  -- under each sender and nonce `inspect` shows the summary of the transaction that `content` shows.
  inspect-content :
      client.api_fails ≡ false
      → (shown : TransactionMap Transaction) × (summaries : TransactionMap Summary) × (content
            client
          ≡ some (record { pending = shown; queued = [] }))
        × (inspect client ≡ some (record { pending = summaries; queued = [] }))
        × ((from nonce : ℕ) → entry from nonce summaries ≡ summary_of (entry from nonce shown))
  unfolding content inspect
  inspect-content answered =
      let (shown, made, each) = entry-map_build client transaction_get_t answered in
      let (summaries, summed, every) = entry-map_build client summary_get_t answered in
      (
        shown,
        summaries,
        ap only_pending made,
        ap only_pending summed,
        λ from nonce.
            every from nonce
            ∙ ap (λ o. view client summary_get_t o none)
                (last_txn-any summary_get_t transaction_get_t from nonce
                  (extrinsic_filter client.ready))
            ∙ view-summary_of
                (last_txn client transaction_get_t from nonce (extrinsic_filter client.ready))
            ∙ ap summary_of (sym (each from nonce)),
      )
