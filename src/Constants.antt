-- ===== src/Constants.antt =====
-- src/impls/net.rs, web3.rs and eth_signing.rs: answers that depend on no state. The variables that the
-- build sets, the hash and the constructor of an error are parameters.
use oasis_chain.Prelude.{ℕ, Bool, true, Bytes, ◌++◌, codes, Result, err}
use oasis_chain.Decimal.{to_string}
use oasis_chain.Util.{RpcError}

-- `NetClient`
unfoldable pub net_version : Bytes
net_version = to_string 42261

unfoldable pub net_peer_count : Bytes
net_peer_count = codes "0x0"

unfoldable pub net_is_listening : Bool
net_is_listening = true

-- `Web3Client`, of a package with a name, a version and a revision.
unfoldable pub client_version : Bytes → Bytes → Bytes → Bytes
client_version name version revision =
    codes "oasis/" ++ (name ++ (codes "/" ++ (version ++ (codes "/" ++ revision))))

unfoldable pub web3_sha3 : (Bytes → ℕ) → Bytes → ℕ
web3_sha3 keccak data_bytes = keccak data_bytes

-- `EthSigningClient`: nothing can be signed.
cannot_sign : Bytes
cannot_sign =
    codes
      " is not implemented because the gateway cannot sign transactions. Make sure that the wallet is setup correctly in the client in case transaction signing is expected to happen transparently"

module _ (errors_unsupported : Bytes → RpcError) where
  unfoldable pub eth_sign : ℕ → Bytes → Result RpcError Bytes
  unfolding cannot_sign
  eth_sign address text = err (errors_unsupported (codes "eth_sign" ++ cannot_sign))

  unfoldable pub eth_send_transaction : {Request : Type 0} → Request → Result RpcError ℕ
  unfolding cannot_sign
  eth_send_transaction request =
      err (errors_unsupported (codes "eth_sendTransaction" ++ cannot_sign))

  unfoldable pub eth_sign_transaction : {Request Signed : Type 0} → Request → Result RpcError Signed
  unfolding cannot_sign
  eth_sign_transaction request =
      err (errors_unsupported (codes "eth_signTransaction" ++ cannot_sign))
