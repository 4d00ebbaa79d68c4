-- ===== src/Lib.antt =====
-- Moonbeam: the parachain's own pallets, runtime and node code, modelled and proved.
--
-- The parts and the files:
--   * Base: names and lemmas that all share; words of 32 and 128 bits that wrap; storage maps.
--   * OrderedSet: `OrderedSet<T>`, pallets/stake/src/set.rs, a sorted vector searched by bisection.
--   * Stake: the staking pallet, pallets/stake/src/lib.rs and inflation.rs. Stake/Types holds its data,
--     Stake/Validator and Stake/Nominator the two stateful structs, Stake/Storage the storage items,
--     the configuration and the monad in which a dispatchable runs, Stake/CandidateCalls,
--     Stake/NominatorCalls and Stake/Admin the dispatchables, Stake/Payouts the rewards,
--     Stake/Rounds `on_finalize` and the genesis build, Stake/Inflation the issuance.
--     Stake/Validator/Totals and Stake/Nominator/Totals follow the totals of the two structs,
--     Stake/Atomic and Stake/Locked say what a call leaves alone, Stake/Stuck who cannot leave, and
--     Stake/Inflation/Ranges which ranges stay in order. Stake/Agrees says how the storage items fit
--     together, Stake/Limits how many nominations and nominators there are, Stake/Sides how the bonds
--     that candidates list and the nominations of nominators correspond, and Stake/Backing how the
--     reserved balances and the stakes do. Stake/Runs puts the calls into histories.
--   * Author: pallets/author-inherent and pallets/author-filter, and Author/Runtime, where the runtime
--     makes the filter over the staking pallet's validators the judge of a block's author.
--   * Runtime: runtime/src/lib.rs (constants, gas), runtime/account/src/lib.rs, and the ids of
--     pallets/ethereum-chain-id and pallets/parachain-info.
--   * Node: node/src. Node/Inherents and Node/ChainSpec are inherents.rs and chain_spec.rs, Node/Cli and
--     Node/Sealing the data of cli.rs with the sealing that service.rs makes of it, Node/Rpc is rpc.rs,
--     Node/Service is service.rs with the maintenance tasks in Node/Maintenance, and Node/Command is
--     command.rs. Node/Effects has the monad in which a node starts: the list of its calls of other
--     crates, the newest first, and the errors that end it. A call that may fail does so as the crates
--     of the model say, and is not in the list then.
--   * TxPool: client/rpc/txpool, client/rpc-core/txpool and the runtime's `extrinsic_filter`.
--   * TokenDealer: pallets/token-dealer, and in TokenDealer/Supply histories of its calls.
--
-- How the code corresponds: a function keeps its name. Account ids and hashes are compared and copied
-- only, so they are numbers. `u32` and `u128` arithmetic wraps, as the runtime is compiled without
-- overflow checks. A dispatchable is a function from the state to a result and a state: an error
-- keeps what was written before it, since the pallets are not transactional, and a panic is a
-- result of its own. A storage map is an association list, and one with a default a function.
-- `origin` is what its check finds: the signer, or whether it passes.
--
-- Code of other crates is a parameter: the currency, `Perbill`, the order in which `drain_prefix`
-- yields, `sort_unstable_by`, randomness, codecs, hashes and signature recovery. What a theorem
-- needs of it is a hypothesis: `SortsByAmount`, `IsPercentage`, `IsFaithful`, `Registers`,
-- `Reserves`, `Issues`, and `IsCheckWeight` of what the executive makes of a dispatch that failed: an error of a
-- mandatory dispatch such as `set_author` makes the block invalid. The methods of `Vec` that
-- `OrderedSet` calls are the standard library's and run here as it documents them.
--
-- Fuel: the bisection has as much fuel as the vector has elements, and each step halves the range,
-- so that it finds its key on every sorted vector. All other loops run down a list or a count.
--
-- Not modelled: client, network, consensus and RPC handlers of the node, argument parsing and the methods
-- of the relay chain's command line that forward to Polkadot's, which other crates do;
-- `construct_runtime!` and the runtime APIs, which forward calls; debug traces; weights.
pub mod Base
pub mod OrderedSet
pub mod Stake
pub mod Author
pub mod Runtime
pub mod Node
pub mod TxPool
pub mod TokenDealer
