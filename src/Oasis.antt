-- ===== src/Oasis.antt =====
-- src/impls/oasis.rs: the public key of a contract, for the clients of the RPC.
pub mod PublishedKey
pub mod Execution
mod Tests
use oasis_chain.Prelude.{Bytes, Option}
use oasis_chain.Mrae.{Primitives}
use oasis_chain.KeyManager.{Entropy, MockClient, SignedPublicKey, get_public_key}

-- `OasisClient::public_key`
unfoldable pub public_key :
    Primitives → Entropy → MockClient → Bytes → Option SignedPublicKey × MockClient
public_key prims rng keys contract =
    let contract_id = prims.keccak contract in get_public_key prims rng contract_id keys
