-- ===== src/Encryption/Laws.antt =====
-- What the recipient of an encrypted payload recovers (src/confidential/crypto.rs).
use oasis_chain.Prelude.{
  ◌+◌, ◌^◌, ◌<◌, ◌≡◌, ap, sym, ◌∙◌, Bytes, AreBytes, length, some, ok, ◌>>=◌, >>=-eq-ok,
  or_err-eq-ok, ok-injective,
}
use oasis_chain.Nonce
use oasis_chain.Nonce.{Nonce, nonce_size}
use oasis_chain.Payload.{encode_encryption, split_encrypted_payload}
use oasis_chain.Payload.Slices.{overhead}
use oasis_chain.Payload.RoundTrip.{split-encode, encode-split, split-nonce}
use oasis_chain.Mrae.{Primitives, tag_size, derive_symmetric_key, box_seal, box_open}
use oasis_chain.Mrae.Laws.{box_open-box_seal}
use oasis_chain.Encryption.{Decryption, encrypt, decrypt}

module _ (prims : Primitives) where
  open prims use {seal, unseal, public_from, length-public_from, length-seal}

  -- What the holder of `secret` encrypts for the public key of `peer`, the holder of `peer`
  -- decrypts to the same text, with the sender's public key, the nonce and the additional data;
  -- where the nonce has 15 bytes and the payload fewer than 2 ^ 64.
  pub decrypt-encrypt :
      (plaintext : Bytes) (nonce : Nonce) (secret peer aad : Bytes)
      → length nonce.current_value ≡ nonce_size
      → overhead + (length plaintext + tag_size) + length aad < 2 ^ 64
      → (encrypt prims plaintext nonce (public_from peer) (public_from secret) secret aad
          >>= λ payload. decrypt prims (some payload) peer)
        ≡ ok (record {
          plaintext = plaintext;
          nonce = Nonce.new nonce.current_value;
          peer_public_key = public_from secret;
          aad = aad;
        })
  unfolding encrypt decrypt box_seal Nonce.new
  decrypt-encrypt plaintext nonce secret peer aad hn small = rw (
    split-encode
        (seal (derive_symmetric_key prims (public_from peer) secret) nonce.current_value plaintext
          aad)
        nonce (public_from secret) aad (length-public_from secret) hn
        (rw
          (length-seal (derive_symmetric_key prims (public_from peer) secret) nonce.current_value
            plaintext aad)
          small),
    box_open-box_seal prims nonce.current_value plaintext aad secret peer,
  )

  -- Whatever decrypts, of fewer than 2 ^ 64 bytes, is the packing of a text that opens to the
  -- plaintext, under the key shared with the public key in it and with the nonce and additional
  -- data in it.
  pub decrypt_sound :
      (bytes secret : Bytes) (d : Decryption)
      → AreBytes bytes
      → length bytes < 2 ^ 64
      → decrypt prims (some bytes) secret ≡ ok d
      → (cipher : Bytes) × (encode_encryption cipher d.nonce d.peer_public_key d.aad ≡ bytes)
        × (unseal
              (derive_symmetric_key prims d.peer_public_key secret)
              d.nonce.current_value
              cipher
              d.aad
            ≡ some d.plaintext)
  unfolding decrypt box_open
  decrypt_sound bytes secret d b small e =
      let (p, split, rest) = >>=-eq-ok (split_encrypted_payload bytes) _ e in
      let (plaintext, opened, made) = >>=-eq-ok (box_open prims _ p.cipher p.aad _ secret) _ rest in
      let found : unseal _ _ p.cipher p.aad ≡ some plaintext = or_err-eq-ok _ _ opened in
      rw (← ok-injective made) (p.cipher, (encode-split bytes p b small split).0, found)

  -- The nonce of a decrypted payload is a new one of 15 bytes.
  pub decrypt-nonce :
      (bytes secret : Bytes) (d : Decryption)
      → AreBytes bytes
      → length bytes < 2 ^ 64
      → decrypt prims (some bytes) secret ≡ ok d
      → (v : Bytes) × (length v ≡ nonce_size) × AreBytes v × (d.nonce ≡ Nonce.new v)
  unfolding decrypt
  decrypt-nonce bytes secret d b small e =
      let (p, split, rest) = >>=-eq-ok (split_encrypted_payload bytes) _ e in
      let (plaintext, _, made) = >>=-eq-ok (box_open prims _ p.cipher p.aad _ secret) _ rest in
      let (v, h, vb, same) = split-nonce bytes p b small split in
      (v, h, vb, sym (ap (λ (x : Decryption). x.nonce) (ok-injective made)) ∙ same)
