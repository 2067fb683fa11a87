-- ===== src/Mrae.antt =====
-- ekiden_crypto/src/mrae/deoxysii.rs: boxes sealed under a key that two X25519 key pairs share.
-- The crates `deoxysii`, `x25519-dalek`, `hmac` and `sha2` and the key generator are `Primitives`.
pub mod Laws
use oasis_chain.Prelude.{
  ℕ, ◌+◌, ◌≡◌, List, [], ◌∷◌, Bytes, length, take, AreBytes, Option, some, Result, ok, or_err,
  codes,
}
use oasis_chain.Nonce.{nonce_size}
use oasis_chain.Payload.{CryptoError, open_failed}

abbrev pub key_size : ℕ
key_size = 32

-- The size of the authentication tag at the end of a sealed text.
abbrev pub tag_size : ℕ
tag_size = 16

-- `DeoxysII::seal` and `open` under a key, X25519, HMAC, and the two hash functions, with what
-- their documentation promises.
pub record Primitives : Type 0 where
  pub seal : Bytes → Bytes → Bytes → Bytes → Bytes
  pub unseal : Bytes → Bytes → Bytes → Bytes → Option Bytes
  pub unseal-seal :
      (key nonce plaintext aad : Bytes)
      → unseal key nonce (seal key nonce plaintext aad) aad ≡ some plaintext
  pub length-seal :
      (key nonce plaintext aad : Bytes)
      → length (seal key nonce plaintext aad) ≡ length plaintext + tag_size
  pub public_from : Bytes → Bytes
  pub length-public_from : (private_key : Bytes) → length (public_from private_key) ≡ 32
  pub diffie_hellman : Bytes → Bytes → Bytes
  pub diffie_hellman_comm :
      (a b : Bytes) → diffie_hellman a (public_from b) ≡ diffie_hellman b (public_from a)
  pub hmac_sha512_trunc256 : Bytes → Bytes → Bytes
  pub sha512_trunc256 : Bytes → Bytes
  pub length-sha512_trunc256 : (bytes : Bytes) → length (sha512_trunc256 bytes) ≡ 32
  pub sha512_trunc256-AreBytes : (bytes : Bytes) → AreBytes (sha512_trunc256 bytes)
  pub keccak : Bytes → Bytes

abbrev kdf_label : Bytes
kdf_label = codes "MRAE_Box_Deoxys-II-256-128"

module _ (prims : Primitives) where
  open prims use {seal, unseal, public_from, diffie_hellman, hmac_sha512_trunc256}

  pub derive_symmetric_key : Bytes → Bytes → Bytes
  derive_symmetric_key public private =
      take key_size (hmac_sha512_trunc256 kdf_label (diffie_hellman private public))

  -- The public and the private key, of the secret that the crate draws.
  pub generate_key_pair : Bytes → Bytes × Bytes
  generate_key_pair secret = (public_from secret, secret)

  unfoldable pub box_seal : Bytes → Bytes → Bytes → Bytes → Bytes → Result CryptoError Bytes
  box_seal nonce plaintext additional_data peers_public_key private_key =
      let key = derive_symmetric_key peers_public_key private_key in
      ok (seal key nonce plaintext additional_data)

  unfoldable pub box_open : Bytes → Bytes → Bytes → Bytes → Bytes → Result CryptoError Bytes
  box_open nonce ciphertext additional_data peers_public_key private_key =
      let key = derive_symmetric_key peers_public_key private_key in
      or_err (unseal key nonce ciphertext additional_data) open_failed
