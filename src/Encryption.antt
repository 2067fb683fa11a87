-- ===== src/Encryption.antt =====
-- src/confidential/crypto.rs: `encrypt`, `decrypt` and `Decryption`.
pub mod Laws
use oasis_chain.Prelude.{ℕ, ◌≡◌, [], Bytes, replicate, Option, none, some, Result, ok, ◌>>=◌}
use oasis_chain.Nonce
use oasis_chain.Nonce.{Nonce, nonce_size}
use oasis_chain.Payload.{CryptoError, encode_encryption, split_encrypted_payload, public_key_len}
use oasis_chain.Mrae.{Primitives, box_seal, box_open}

pub record Decryption : Type 0 where
  pub plaintext : Bytes
  pub nonce : Nonce
  pub peer_public_key : Bytes
  pub aad : Bytes

module _ (prims : Primitives) where
  unfoldable pub encrypt : Bytes → Nonce → Bytes → Bytes → Bytes → Bytes → Result CryptoError Bytes
  encrypt plaintext nonce peer_public_key public_key secret_key aad = do
    ciphertext ← box_seal prims nonce.current_value plaintext aad peer_public_key secret_key
    ok (encode_encryption ciphertext nonce public_key aad)

  unfoldable pub decrypt : Option Bytes → Bytes → Result CryptoError Decryption
  decrypt none secret_key = ok (record {
    plaintext = [];
    nonce = Nonce.new (replicate nonce_size 0);
    peer_public_key = replicate public_key_len 0;
    aad = [];
  })
  decrypt (some bytes) secret_key = do
    p ← split_encrypted_payload bytes
    plaintext ← box_open prims p.nonce.current_value p.cipher p.aad p.peer_public_key secret_key
    ok (record {
      plaintext = plaintext;
      nonce = p.nonce;
      peer_public_key = p.peer_public_key;
      aad = p.aad;
    })
