-- ===== src/Eth/Accepted.antt =====
-- Which submissions are mined (src/impls/eth.rs, src/blockchain.rs).
use oasis_chain.Blockchain.{Blockchain}
