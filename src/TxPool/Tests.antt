-- ===== src/TxPool/Tests.antt =====
-- The pending transactions of a small pool.
use moonbeam.Base.{false, some, [], ◌∷◌}
use moonbeam.TxPool.{Client}
use moonbeam.TxPool.Types.{transact, other, EthereumTransaction, call, create}

abbrev payment : EthereumTransaction
payment = record {
  nonce = 4;
  gas_price = 1;
  gas_limit = 21000;
  action = call 8;
  value = 500;
  input = [];
  signature = 7 ∷ [];
}

abbrev creation : EthereumTransaction
creation = record {
  nonce = 4;
  gas_price = 2;
  gas_limit = 90000;
  action = create;
  value = 0;
  input = 1 ∷ 2 ∷ [];
  signature = [];
}

-- Each transaction is sent by account 7.
unfoldable client : Client
client = record {
  hash = λ txn. txn.gas_price;
  recovered_address = λ txn hash. some 7;
  ready = transact payment ∷ other ∷ transact creation ∷ [];
  api_fails = false;
  status_ready = 2;
  status_future = 0;
}
