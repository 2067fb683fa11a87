-- ===== src/Payload/Tests.antt =====
-- The theorems of src/confidential/crypto.rs's layout at concrete payloads.
use oasis_chain.Prelude.{
  ◌+◌, ◌^◌, ◌≤◌, ◌≡◌, ◌↔◌, refl, [], ◌∷◌, ◌++◌, Bytes, AreBytes, length, replicate, ok, err, panic,
  arith,
}
use oasis_chain.Nonce
use oasis_chain.Nonce.{Nonce}
use oasis_chain.Words.{le_value, slice}
use oasis_chain.Payload.{
  encode_encryption, split_encrypted_payload, public_key_len, invalid_size,
  invalid_nonce_or_public_key,
}
use oasis_chain.Payload.Slices.{overhead, total, parts}
use oasis_chain.Payload.RoundTrip.{packed, split-encode, encode-split, split-panic_iff}

abbrev key : Bytes
key = replicate 32 9

abbrev nonce : Nonce
nonce = record { current_value = replicate 15 3; start_value = replicate 15 2 }

-- Two bytes of ciphertext and one of additional data.
abbrev sample : Bytes
sample = key ++ 2 ∷ replicate 7 0 ++ 1 ∷ replicate 7 0 ++ 10 ∷ 20 ∷ 30 ∷ replicate 15 3

-- A header whose lengths are 2 ^ 64 - 1 and 1, before an empty body.
abbrev overflowing : Bytes
overflowing = key ++ replicate 8 255 ++ 1 ∷ replicate 7 0 ++ replicate 15 3

too_short : split_encrypted_payload (replicate 62 0) ≡ err invalid_nonce_or_public_key
unfolding split_encrypted_payload
too_short = refl

too_long : split_encrypted_payload (sample ++ 0 ∷ []) ≡ err invalid_size
unfolding split_encrypted_payload slice le_value
too_long = refl

split-encode_example :
    split_encrypted_payload (packed (10 ∷ 20 ∷ []) nonce key (30 ∷ []))
    ≡ ok (record {
      peer_public_key = key;
      cipher_len = 2;
      aad_len = 1;
      cipher = 10 ∷ 20 ∷ [];
      aad = 30 ∷ [];
      nonce = Nonce.new (replicate 15 3);
    })
split-encode_example = split-encode (10 ∷ 20 ∷ []) nonce key (30 ∷ []) refl refl (omega arith)

sample-AreBytes : AreBytes sample
sample-AreBytes = omega arith

encode-split_example :
    let p = parts sample in
    (encode_encryption p.cipher p.nonce p.peer_public_key p.aad ≡ sample)
    × (length p.cipher ≡ p.cipher_len)
    × (length p.aad ≡ p.aad_len)
    × (length p.peer_public_key ≡ public_key_len)
unfolding split_encrypted_payload slice le_value
encode-split_example = encode-split sample (parts sample) sample-AreBytes (omega arith) refl

overflowing-AreBytes : AreBytes overflowing
overflowing-AreBytes = omega arith

split-panic_iff_example :
    (split_encrypted_payload overflowing ≡ panic)
    ↔ ((overhead ≤ length overflowing) × (total overflowing ≡ length overflowing + 2 ^ 64))
split-panic_iff_example = split-panic_iff overflowing overflowing-AreBytes (omega arith)

overflow_panics : split_encrypted_payload overflowing ≡ panic
unfolding split_encrypted_payload slice le_value
overflow_panics = refl
