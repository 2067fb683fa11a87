-- ===== src/Payload/Slices.antt =====
-- What `split_encrypted_payload` (src/confidential/crypto.rs) does, by the lengths in the header.
use oasis_chain.Prelude.{
  ℕ, ◌+◌, ◌-◌, ◌^◌, ◌%◌, ◌≤◌, ◌<◌, ◌≡◌, ◌≢◌, refl, ◌∙◌, Bytes, AreBytes, length, take, drop, ok,
  err, panic, arith, length-take, All-take, All-drop, ◌==◌, true, lt→ltb, le→ltb, eq→==, ne→==,
}
use oasis_chain.Words.{u64_add, le_value, le_value-lt, slice-in, slice-backwards, slice-out}
use oasis_chain.Nonce
use oasis_chain.Nonce.{nonce_size}
use native.Mathlib.Decide.{dec_lt, ℕ_discrete}
use native.Mathlib.Nat.{pow-le-pow_right}
use oasis_chain.Payload.{
  Payload, split_body, CryptoError, invalid_nonce_or_public_key, invalid_size,
  split_encrypted_payload,
}

-- The bytes outside the two variable parts.
abbrev pub overhead : ℕ
overhead = 63

-- CIPHER_LEN and AAD_LEN, as the payload's header gives them.
abbrev pub cipher_len_of : Bytes → ℕ
cipher_len_of bytes = le_value (take 8 (drop 32 bytes))

abbrev pub aad_len_of : Bytes → ℕ
aad_len_of bytes = le_value (take 8 (drop 40 bytes))

-- The parts of a payload whose lengths add up.
abbrev pub parts : Bytes → Payload
parts bytes = record {
  peer_public_key = take 32 bytes;
  cipher_len = cipher_len_of bytes;
  aad_len = aad_len_of bytes;
  cipher = take (cipher_len_of bytes) (drop 48 bytes);
  aad = take (aad_len_of bytes) (drop (48 + cipher_len_of bytes) bytes);
  nonce = Nonce.new (take nonce_size (drop (48 + cipher_len_of bytes + aad_len_of bytes) bytes));
}

word-lt : (word : Bytes) → length word ≤ 8 → AreBytes word → le_value word < 2 ^ 64
word-lt word h b = omega (arith, le_value-lt word b, pow-le-pow_right {n = 256} (omega arith) h)

length_word-lt :
    (bytes : Bytes) (k : ℕ) → AreBytes bytes → le_value (take 8 (drop k bytes)) < 2 ^ 64
length_word-lt bytes k h =
    word-lt (take 8 (drop k bytes)) (omega (arith, length-take 8 (drop k bytes)))
      (All-take _ 8 (drop k bytes) (All-drop _ k bytes h))

module _ (bytes key : Bytes) (c a : ℕ) where
  -- The lengths add up to the payload's, and no sum wraps.
  body-fits :
      overhead + c + a ≡ length bytes
      → length bytes < 2 ^ 64
      → split_body bytes key c a
        ≡ ok (record {
          peer_public_key = key;
          cipher_len = c;
          aad_len = a;
          cipher = take c (drop 48 bytes);
          aad = take a (drop (48 + c) bytes);
          nonce = Nonce.new (take nonce_size (drop (48 + c + a) bytes));
        })
  unfolding split_body
  body-fits fits small =
      rw
        (
          total,
          c_end,
          a_end,
          n_end,
          slice-in {E = CryptoError} bytes 48 (48 + c) (omega arith) (omega arith),
          slice-in {E = CryptoError} bytes (48 + c) (48 + c + a) (omega arith) (omega arith),
          slice-in {E = CryptoError} bytes (48 + c + a) (63 + c + a) (omega arith) (omega arith),
          c_size,
          a_size,
          n_size,
        )
        refl
    where
      total : (length bytes == u64_add (u64_add (u64_add 48 c) a) nonce_size) ≡ true
      total = eq→== _ _ (omega arith)

      c_end : u64_add 48 c ≡ 48 + c
      c_end = omega arith

      a_end : u64_add (48 + c) a ≡ 48 + c + a
      a_end = omega arith

      n_end : u64_add (48 + c + a) nonce_size ≡ 63 + c + a
      n_end = omega arith

      c_size : 48 + c - 48 ≡ c
      c_size = omega arith

      a_size : 48 + c + a - (48 + c) ≡ a
      a_size = omega arith

      n_size : 63 + c + a - (48 + c + a) ≡ nonce_size
      n_size = omega arith

  -- They add up to it only after a sum has wrapped: one of the slices is out of order or out of
  -- range.
  body-wraps :
      overhead + c + a ≡ length bytes + 2 ^ 64
      → overhead ≤ length bytes
      → length bytes < 2 ^ 64
      → c < 2 ^ 64
      → a < 2 ^ 64
      → split_body bytes key c a ≡ panic
  unfolding split_body
  body-wraps wraps long small hc ha =
      rw (eq→== (length bytes) (u64_add (u64_add (u64_add 48 c) a) nonce_size) (omega arith))
        (elim (dec_lt (48 + c) (2 ^ 64)) [
          | yes h ↦
              let c_end : u64_add 48 c ≡ 48 + c = omega arith in
              rw c_end (elim (dec_lt (length bytes) (48 + c)) [
                | yes out ↦ rw (slice-out {E = CryptoError} bytes 48 (48 + c) out)
                | no inside ↦ rw (
                  slice-in {E = CryptoError} bytes 48 (48 + c) (omega arith) (omega arith),
                  slice-backwards {E = CryptoError} bytes (48 + c) (u64_add (48 + c) a)
                      (omega arith),
                )
              ])
          | no h ↦ rw (slice-backwards {E = CryptoError} bytes 48 (u64_add 48 c) (omega arith))
        ])

  body-differs :
      (overhead + c + a) % 2 ^ 64 ≢ length bytes → split_body bytes key c a ≡ err invalid_size
  unfolding split_body
  body-differs h =
      rw (
        ne→== (length bytes) (u64_add (u64_add (u64_add 48 c) a) nonce_size) (λ e. h (omega arith)))

module _ (bytes : Bytes) where
  pub split-short :
      length bytes < overhead → split_encrypted_payload bytes ≡ err invalid_nonce_or_public_key
  unfolding split_encrypted_payload
  split-short h = rw (lt→ltb (length bytes) overhead h)

  -- The header is read without a fault.
  split-long :
      overhead ≤ length bytes
      → split_encrypted_payload bytes
        ≡ split_body bytes (take 32 bytes) (cipher_len_of bytes) (aad_len_of bytes)
  unfolding split_encrypted_payload
  split-long h =
      rw
        (
          le→ltb (length bytes) overhead h,
          slice-in {E = CryptoError} bytes 0 32 (omega arith) (omega arith),
          slice-in {E = CryptoError} bytes 32 40 (omega arith) (omega arith),
          slice-in {E = CryptoError} bytes 40 48 (omega arith) (omega arith),
        )
        refl

  abbrev pub total : ℕ
  total = overhead + cipher_len_of bytes + aad_len_of bytes

  pub split-fits :
      total ≡ length bytes
      → length bytes < 2 ^ 64
      → split_encrypted_payload bytes ≡ ok (parts bytes)
  split-fits fits small = split-long (omega arith) ∙ body-fits bytes (take 32 bytes) _ _ fits small

  pub split-wraps :
      total ≡ length bytes + 2 ^ 64
      → overhead ≤ length bytes
      → length bytes < 2 ^ 64
      → AreBytes bytes
      → split_encrypted_payload bytes ≡ panic
  split-wraps wraps long small b =
      split-long long
      ∙ body-wraps bytes (take 32 bytes) _ _ wraps long small (length_word-lt bytes 32 b)
          (length_word-lt bytes 40 b)

  pub split-differs :
      overhead ≤ length bytes
      → total % 2 ^ 64 ≢ length bytes
      → split_encrypted_payload bytes ≡ err invalid_size
  split-differs long h = split-long long ∙ body-differs bytes (take 32 bytes) _ _ h

  -- What `split_encrypted_payload` does with any payload.
  pub data Split : Type 0 where
    short :
        length bytes < overhead
        → split_encrypted_payload bytes ≡ err invalid_nonce_or_public_key
        → Split
    fits :
        overhead ≤ length bytes
        → total ≡ length bytes
        → split_encrypted_payload bytes ≡ ok (parts bytes)
        → Split
    wraps :
        overhead ≤ length bytes
        → total ≡ length bytes + 2 ^ 64
        → split_encrypted_payload bytes ≡ panic
        → Split
    differs :
        overhead ≤ length bytes
        → total % 2 ^ 64 ≢ length bytes
        → split_encrypted_payload bytes ≡ err invalid_size
        → Split

  pub split-cases : length bytes < 2 ^ 64 → AreBytes bytes → Split
  split-cases small b = elim (dec_lt (length bytes) overhead) [
    | yes h ↦ short h (split-short h)
    | no long ↦ elim (ℕ_discrete total (length bytes)) [
      | yes e ↦ fits (omega arith) e (split-fits e small)
      | no n ↦ elim (ℕ_discrete total (length bytes + 2 ^ 64)) [
        | yes e ↦ wraps (omega arith) e (split-wraps e (omega arith) small b)
        | no m ↦
            let apart : total % 2 ^ 64 ≢ length bytes =
              omega (arith, length_word-lt bytes 32 b, length_word-lt bytes 40 b) in
            differs (omega arith) apart (split-differs (omega arith) apart)
      ]
    ]
  ]
