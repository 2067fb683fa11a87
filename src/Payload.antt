-- ===== src/Payload.antt =====
-- src/confidential/crypto.rs: the layout of an encrypted payload,
-- PUBLIC_KEY || CIPHER_LEN || AAD_LEN || CIPHER || AAD || NONCE.
-- `usize` is 64 bits wide, and its additions wrap, as they do in a release build.
pub mod Slices
pub mod RoundTrip
mod Tests
use oasis_chain.Prelude.{
  ℕ, ◌+◌, Bytes, ◌++◌, length, Result, guard, ◌>>=◌, ◌>>◌, ok, ltb, ◌==◌, not,
}
use oasis_chain.Words.{u64_add, le_bytes, le_value, slice}
use oasis_chain.Nonce.{Nonce, nonce_size}
use oasis_chain.Nonce

abbrev pub public_key_len : ℕ
public_key_len = 32

abbrev pub cipher_len_size : ℕ
cipher_len_size = 8

abbrev pub aad_len_size : ℕ
aad_len_size = 8

pub data CryptoError : Type 0 where
  invalid_nonce_or_public_key invalid_size open_failed : CryptoError

-- The tuple that `split_encrypted_payload` returns.
pub record Payload : Type 0 where
  pub peer_public_key : Bytes
  pub cipher_len : ℕ
  pub aad_len : ℕ
  pub cipher : Bytes
  pub aad : Bytes
  pub nonce : Nonce

unfoldable pub encode_encryption : Bytes → Nonce → Bytes → Bytes → Bytes
encode_encryption ciphertext nonce public_key aad =
    public_key
    ++ (le_bytes cipher_len_size (length ciphertext)
        ++ (le_bytes aad_len_size (length aad) ++ (ciphertext ++ (aad ++ nonce.current_value))))

-- The part of `split_encrypted_payload` after the header: the check of the total length, and the
-- slices that the two lengths give.
split_body : Bytes → Bytes → ℕ → ℕ → Result CryptoError Payload
split_body bytes peer_public_key cipher_len aad_len = do
  let expected_data_length =
      u64_add
        (u64_add (u64_add (public_key_len + cipher_len_size + aad_len_size) cipher_len) aad_len)
        nonce_size
  guard (length bytes == expected_data_length) invalid_size
  let cipher_start = public_key_len + cipher_len_size + aad_len_size
  let cipher_end = u64_add cipher_start cipher_len
  cipher ← slice bytes cipher_start cipher_end
  let aad_start = cipher_end
  let aad_end = u64_add aad_start aad_len
  aad ← slice bytes aad_start aad_end
  let nonce_start = aad_end
  let nonce_end = u64_add nonce_start nonce_size
  nonce_inner ← slice bytes nonce_start nonce_end
  ok (record {
    peer_public_key = peer_public_key;
    cipher_len = cipher_len;
    aad_len = aad_len;
    cipher = cipher;
    aad = aad;
    nonce = Nonce.new nonce_inner;
  })

unfoldable pub split_encrypted_payload : Bytes → Result CryptoError Payload
unfolding split_body
split_encrypted_payload bytes = do
  guard (not (ltb (length bytes) (public_key_len + nonce_size + cipher_len_size + aad_len_size)))
      invalid_nonce_or_public_key
  peer_public_key ← slice bytes 0 public_key_len
  let cipher_len_start = public_key_len
  let cipher_len_end = cipher_len_start + cipher_len_size
  cipher_array ← slice bytes cipher_len_start cipher_len_end
  let aad_len_start = cipher_len_end
  let aad_len_end = aad_len_start + aad_len_size
  aad_array ← slice bytes aad_len_start aad_len_end
  split_body bytes peer_public_key (le_value cipher_array) (le_value aad_array)
