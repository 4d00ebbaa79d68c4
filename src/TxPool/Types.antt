-- ===== src/TxPool/Types.antt =====
-- The types of client/rpc-core/txpool/src/types. Hashes and addresses are numbers.
use moonbeam.Base.{ℕ, List, [], ◌∷◌, Option, none, some}
use moonbeam.Base.Map.{Map}

-- `ethereum::TransactionAction` and the fields of `ethereum::Transaction` that are read
pub data TransactionAction : Type 0 where
  call : ℕ → TransactionAction
  create : TransactionAction

pub record EthereumTransaction : Type 0 where
  pub nonce : ℕ
  pub gas_price : ℕ
  pub gas_limit : ℕ
  pub action : TransactionAction
  pub value : ℕ
  pub input : List ℕ
  pub signature : List ℕ

-- An extrinsic: the call `Ethereum(transact(t))`, or any other
pub data Extrinsic : Type 0 where
  transact : EthereumTransaction → Extrinsic
  other : Extrinsic

-- `extrinsic_filter` of the runtime's `TxPoolRuntimeApi`, runtime/src/lib.rs
unfoldable pub extrinsic_filter : List Extrinsic → List EthereumTransaction
extrinsic_filter [] = []
extrinsic_filter (transact t ∷ xts) = t ∷ extrinsic_filter xts
extrinsic_filter (other ∷ xts) = extrinsic_filter xts

abbrev pub TransactionMap : Type 0 → Type 0
TransactionMap T = Map (Map T)

pub record TxPoolResult (T : Type 0) : Type 0 where
  pub pending : T
  pub queued : T

-- `trait Get`
pub record GetT (T : Type 0) : Type 0 where
  pub get : ℕ → ℕ → EthereumTransaction → T

pub record Transaction : Type 0 where
  pub hash : ℕ
  pub nonce : ℕ
  pub block_hash : Option ℕ
  pub block_number : Option ℕ
  pub from : ℕ
  pub to : Option ℕ
  pub value : ℕ
  pub gas_price : ℕ
  pub gas : ℕ
  pub input : List ℕ

pub record Summary : Type 0 where
  pub to : Option ℕ
  pub value : ℕ
  pub gas : ℕ
  pub gas_price : ℕ

-- The two matches on `txn.action`.
abbrev pub recipient : TransactionAction → Option ℕ
recipient (call to) = some to
recipient create = none

-- `impl GetT for Transaction`
abbrev pub transaction_get_t : GetT Transaction
transaction_get_t = record {
  get = λ hash from_address txn. record {
    hash = hash;
    nonce = txn.nonce;
    block_hash = none;
    block_number = none;
    from = from_address;
    to = recipient txn.action;
    value = txn.value;
    gas_price = txn.gas_price;
    gas = txn.gas_limit;
    input = txn.input;
  };
}

-- `impl GetT for Summary`
abbrev pub summary_get_t : GetT Summary
summary_get_t = record {
  get = λ hash from_address txn. record {
    to = recipient txn.action;
    value = txn.value;
    gas_price = txn.gas_price;
    gas = txn.gas_limit;
  };
}
