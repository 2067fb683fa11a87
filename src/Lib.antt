-- ===== src/Lib.antt =====
-- The simulated chain of this repository with its confidential contracts, modelled and proved.
--
-- A client submits raw transactions to the chain (src/blockchain.rs), which checks each, executes it
-- through the `ethcore` crate and mines a block for it. For the time of an execution `ethcore` holds
-- a confidential context (src/confidential/confidential_ctx.rs), which opens the client's encrypted
-- payload, encrypts the answers and encrypts the contract's storage. It takes a contract's keys from
-- the key manager (ekiden_keymanager/src), and it packs and seals payloads by
-- src/confidential/crypto.rs on top of ekiden_crypto/src/mrae.
--
-- The modules, and the files that they model:
--   Prelude, Words, Decimal   shared helpers; 64-bit words, slices, decimal digits
--   Nonce                     ekiden_crypto/src/mrae/nonce.rs: `Nonce::new`, `increment`
--   Mrae                      ekiden_crypto/src/mrae/deoxysii.rs: `box_seal`, `box_open`
--   Payload, Encryption       src/confidential/crypto.rs: `encode_encryption`,
--                             `split_encrypted_payload`, `encrypt`, `decrypt`
--   KeyManager                ekiden_keymanager/src/api.rs, client.rs: `MockClient`
--   ConfidentialCtx           src/confidential/confidential_ctx.rs: the whole facade; its module
--                             Operations has the calls as data and runs sequences of them
--   Blockchain.Types, State   src/blockchain.rs: the data, `ChainState`, `Blockchain::new`
--   Blockchain.Mine           `send_raw_transaction`, `mine_block`
--   Blockchain.Queries        `get_block` and the other lookups, `logs`
--   EthFilter                 src/impls/eth_filter.rs: the filters that clients poll; its module
--                             Rounds has any number of polls
--   Broker                    src/pubsub.rs: the notices of new blocks to listeners
--   Informant                 src/informant.rs: `RateCalculator`, `RpcStats`
--   Middleware                src/middleware.rs: the limits on batches and on request rates
--   Oasis                     src/impls/oasis.rs: `public_key`
--   Oasis.Execution           src/impls/oasis.rs: `invoke`, `get_expiry`
--   Blockchain.Simulate       src/blockchain.rs: `simulate_transaction`, `estimate_gas`
--   Blockchain.Rendering      src/blockchain.rs: `rich_header`, `rich_block`
--   Eth                       src/impls/eth.rs: the handlers; its module Accounts has those that
--                             read an account's state
--   EthPubSub                 src/impls/eth_pubsub.rs: the subscriptions and what is sent to them
--   RpcApis                   src/rpc_apis.rs: sets of APIs, as text, and their endpoints; its
--                             module Equality has which of them `ApiSet::eq` makes equal
--   Rpc                       src/rpc.rs: configurations, `new_ws`, `new_http`
--   Run, Run.Gateway          src/run.rs: `wait_for_drop`; `execute`, `shutdown`; src/lib.rs: `start`
--   Constants                 src/impls/net.rs, web3.rs, eth_signing.rs
--   Util                      src/util.rs
--   Storage                   src/storage.rs; its module History has programs that use stores, and
--                             the memory that keeps the changes only
--   Signature                 ekiden_crypto/src/hash.rs, signature.rs
--   FixedBytes                ekiden_crypto/src/bytes.rs: the types of `impl_bytes!`
--   Servers                   src/servers.rs: `start_http`, `start_ws`, and the crates they build on
--   Main                      bin/main.rs: the command line and the whole run of the process
--   Parity                    src/parity.rs: `NullBackend`
--   System                    the chain, the broker and a pub/sub handler together: a relation of
--                             steps, and what is reached by any of them
--   Samples, the Tests        concrete instances of the interfaces, and the theorems on them
--
-- State. A mutable object is passed in and handed back; a call ends with a value, an error or a
-- panic (`Result`), and the state that it leaves comes with it. Locks are left out: every
-- operation that writes holds its lock throughout. The chain's key/value store is shared with
-- the state that executes a transaction; it is the value that the commit leaves, and an execution
-- that ends in an error is taken to leave it alone.
--
-- Numbers. Bytes, hashes and amounts are numbers or lists of them; `u64` and `usize` additions wrap
-- at 2 ^ 64, as in a release build; the nonce's counter wraps at 2 ^ 32. Block numbers are bounded by
-- the theorems on them. Loops are structural recursion; the digits of a number take the number itself
-- as fuel, which is enough since each division by ten makes it smaller.
--
-- Other crates. `byteorder` is the interface `Counter32`; Deoxys-II, X25519, HMAC and the hashes are
-- `Primitives`, with the laws that opening undoes sealing and that a Diffie-Hellman exchange agrees;
-- `rlp`, `ethcore` and Keccak are `Ethcore`, which has no laws.
--
-- `ed25519-dalek` is `Ed25519`, `parity-rpc` is `ParityRpc`, `PubSubCrates` and `ServerCrates`, and the
-- reader of an account's state is `StateReader`. The store of src/storage.rs is a heap of maps in
-- module Storage; the chain holds one map, since nothing else writes to it.
--
-- The servers are started by Run.Gateway, which makes the chain and the broker and has Rpc start one
-- server for WebSockets and one for HTTP; each gets the endpoints of its set of APIs by RpcApis, and a
-- pub/sub handler of its own, which it registers with the broker. Before that `execute` makes the
-- interval of the broker's process, by the timer of `tokio`, a field of `ServerCrates`, which may panic;
-- a tick of that process is `Broker.tick`, at which a listener may have been dropped. At shutdown the loop that waits for
-- the chain to be dropped takes 301 as fuel: a round sleeps a second, and it ends after 300.
--
-- The process (bin/main.rs) reads its settings off the command line, starts the gateway and shuts it
-- down at a signal; `clap` is the interface `Clap`, with what its documentation says of `value_t!`.
--
-- Not modelled: the lists of modules, the build script and the genesis file.
pub mod Prelude
pub mod Words
pub mod Decimal
pub mod Nonce
pub mod Payload
pub mod Mrae
pub mod Encryption
pub mod KeyManager
pub mod ConfidentialCtx
pub mod Samples
pub mod Oasis
pub mod Signature
pub mod FixedBytes
pub mod Blockchain
pub mod Util
pub mod Eth
pub mod EthPubSub
pub mod EthFilter
pub mod Broker
pub mod RpcApis
pub mod Servers
pub mod Rpc
pub mod Constants
pub mod Storage
pub mod Parity
pub mod Run
pub mod System
pub mod Main
pub mod Informant
pub mod Middleware
