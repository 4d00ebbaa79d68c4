-- ===== src/Node/Rpc.antt =====
-- node/src/rpc.rs: which RPC interfaces of other crates a node serves, and with what.
use moonbeam.Base.{ℕ, Bool, true, false, List, [], ◌∷◌, ◌++◌}

-- `FullDeps`, with the pools and the sink of commands as far as they are there; the client, the pool and
-- the network are the node's own.
pub record FullDeps : Type 0 where
  pub deny_unsafe : Bool
  pub is_authority : Bool
  pub pending_transactions : Bool
  pub filter_pool : Bool
  pub command_sink : Bool

-- An interface with the arguments that differ from node to node.
pub data Interface : Type 0 where
  system : Bool → Interface
  transaction_payment : Interface
  eth : Bool → Bool → Interface
  eth_filter : ℕ → Interface
  net web3 eth_pub_sub tx_pool manual_seal : Interface

abbrev pub max_stored_filters : ℕ
max_stored_filters = 500

-- `if let Some(..) = option { io.extend_with(..) }`
abbrev pub extend_if : Bool → Interface → List Interface → List Interface
extend_if true api io = io ++ api ∷ []
extend_if false api io = io

unfoldable pub create_full : FullDeps → List Interface
create_full deps =
    let io = system deps.deny_unsafe ∷ transaction_payment ∷ [] in
    let io = io ++ eth deps.pending_transactions deps.is_authority ∷ [] in
    let io = extend_if deps.filter_pool (eth_filter max_stored_filters) io in
    let io = io ++ net ∷ web3 ∷ eth_pub_sub ∷ tx_pool ∷ [] in
    extend_if deps.command_sink manual_seal io
