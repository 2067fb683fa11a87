-- ===== src/Payload/RoundTrip.antt =====
-- Packing and splitting (src/confidential/crypto.rs) undo one another.
use oasis_chain.Prelude.{
  ℕ, ◌+◌, ◌^◌, ◌≤◌, ◌<◌, ◌≡◌, ◌↔◌, refl, ap, sym, ◌∙◌, Bytes, AreBytes, ◌++◌, length, take, drop,
  ok, ok-injective, panic, arith, length-take, length-drop, length-append, take-append, drop-append,
  take-append-drop, take-all, drop-drop, All-take, All-drop,
}
use oasis_chain.Words.{le_bytes, le_value, length-le_bytes, le_value-le_bytes, le_bytes-le_value}
use oasis_chain.Nonce
use oasis_chain.Nonce.{Nonce, nonce_size}
use oasis_chain.Payload.{Payload, encode_encryption, split_encrypted_payload, public_key_len}
use oasis_chain.Payload.Slices.{
  overhead, cipher_len_of, aad_len_of, parts, total, short, fits, wraps, differs, split-cases,
  split-fits, split-wraps,
}

rejoin : (m n : ℕ) (bytes : Bytes) → take n (drop m bytes) ++ drop (m + n) bytes ≡ drop m bytes
rejoin m n bytes = rw (← drop-drop m n bytes) (take-append-drop n (drop m bytes))

-- The bytes after a part, where the bytes from its start are known.
drop-past :
    (m n : ℕ) (bytes xs rest : Bytes)
    → drop m bytes ≡ xs ++ rest
    → length xs ≡ n
    → drop (m + n) bytes ≡ rest
drop-past m n bytes xs rest e h =
    sym (drop-drop m n bytes) ∙ ap (drop n) e ∙ drop-append n xs rest h

module _ (ciphertext : Bytes) (nonce : Nonce) (public_key aad : Bytes) where
  abbrev pub packed : Bytes
  packed = encode_encryption ciphertext nonce public_key aad

  abbrev c : ℕ
  c = length ciphertext

  abbrev a : ℕ
  a = length aad

  module _ (hk : length public_key ≡ public_key_len) (hn : length nonce.current_value ≡ nonce_size)
      (small : overhead + c + a < 2 ^ 64) where
    at_32 :
        drop 32 packed
        ≡ le_bytes 8 c ++ (le_bytes 8 a ++ (ciphertext ++ (aad ++ nonce.current_value)))
    unfolding encode_encryption
    at_32 = drop-append 32 public_key _ hk

    at_40 : drop 40 packed ≡ le_bytes 8 a ++ (ciphertext ++ (aad ++ nonce.current_value))
    at_40 = drop-past 32 8 packed _ _ at_32 (length-le_bytes 8 c)

    at_48 : drop 48 packed ≡ ciphertext ++ (aad ++ nonce.current_value)
    at_48 = drop-past 40 8 packed _ _ at_40 (length-le_bytes 8 a)

    at_aad : drop (48 + c) packed ≡ aad ++ nonce.current_value
    at_aad = drop-past 48 c packed _ _ at_48 refl

    at_nonce : drop (48 + c + a) packed ≡ nonce.current_value
    at_nonce = drop-past (48 + c) a packed _ _ at_aad refl

    cipher_len-packed : cipher_len_of packed ≡ c
    cipher_len-packed =
        ap (λ (bs : Bytes). le_value (take 8 bs)) at_32
        ∙ ap le_value (take-append 8 (le_bytes 8 c) _ (length-le_bytes 8 c))
        ∙ le_value-le_bytes 8 c (omega arith)

    aad_len-packed : aad_len_of packed ≡ a
    aad_len-packed =
        ap (λ (bs : Bytes). le_value (take 8 bs)) at_40
        ∙ ap le_value (take-append 8 (le_bytes 8 a) _ (length-le_bytes 8 a))
        ∙ le_value-le_bytes 8 a (omega arith)

    length-packed : length packed ≡ overhead + c + a
    unfolding encode_encryption
    length-packed = omega (
      arith,
      length-append public_key
          (le_bytes 8 c ++ (le_bytes 8 a ++ (ciphertext ++ (aad ++ nonce.current_value)))),
      length-append (le_bytes 8 c) (le_bytes 8 a ++ (ciphertext ++ (aad ++ nonce.current_value))),
      length-append (le_bytes 8 a) (ciphertext ++ (aad ++ nonce.current_value)),
      length-append ciphertext (aad ++ nonce.current_value),
      length-append aad nonce.current_value,
      length-le_bytes 8 c,
      length-le_bytes 8 a,
    )

    parts-packed : parts packed ≡ record {
      peer_public_key = public_key;
      cipher_len = c;
      aad_len = a;
      cipher = ciphertext;
      aad = aad;
      nonce = Nonce.new nonce.current_value;
    }
    unfolding encode_encryption
    parts-packed =
        rw
          (
            cipher_len-packed,
            aad_len-packed,
            at_48,
            at_aad,
            at_nonce,
            take-append 32 public_key
                (le_bytes 8 c ++ (le_bytes 8 a ++ (ciphertext ++ (aad ++ nonce.current_value)))) hk,
            take-append c ciphertext (aad ++ nonce.current_value) refl,
            take-append a aad nonce.current_value refl,
            take-all nonce_size nonce.current_value (omega arith),
          )
          refl

    -- Where the public key has 32 bytes, the nonce 15, and the whole fewer than 2 ^ 64, splitting a
    -- packed payload gives back its parts, the nonce as a new one.
    pub split-encode :
        split_encrypted_payload packed
        ≡ ok (record {
          peer_public_key = public_key;
          cipher_len = c;
          aad_len = a;
          cipher = ciphertext;
          aad = aad;
          nonce = Nonce.new nonce.current_value;
        })
    split-encode =
        split-fits packed (rw (cipher_len-packed, aad_len-packed) (sym length-packed))
          (omega (arith, length-packed))
        ∙ ap ok parts-packed

encode-parts :
    (bytes : Bytes)
    → AreBytes bytes
    → overhead ≤ length bytes
    → total bytes ≡ length bytes
    → let p = parts bytes in encode_encryption p.cipher p.nonce p.peer_public_key p.aad ≡ bytes
unfolding encode_encryption Nonce.new
encode-parts bytes b long e =
    rw
      (
        c_size,
        a_size,
        le_bytes-le_value 8 (take 8 (drop 32 bytes)) (word_size 32 (omega arith))
            (All-take _ 8 (drop 32 bytes) (All-drop _ 32 bytes b)),
        le_bytes-le_value 8 (take 8 (drop 40 bytes)) (word_size 40 (omega arith))
            (All-take _ 8 (drop 40 bytes) (All-drop _ 40 bytes b)),
        take-all nonce_size (drop (48 + cipher_len_of bytes + aad_len_of bytes) bytes)
            (omega (arith, length-drop (48 + cipher_len_of bytes + aad_len_of bytes) bytes)),
        rejoin (48 + cipher_len_of bytes) (aad_len_of bytes) bytes,
        rejoin 48 (cipher_len_of bytes) bytes,
        rejoin 40 8 bytes,
        rejoin 32 8 bytes,
      )
      (take-append-drop 32 bytes)
  where
    word_size : (k : ℕ) → k ≤ 40 → length (take 8 (drop k bytes)) ≡ 8
    word_size k h = omega (arith, length-take 8 (drop k bytes), length-drop k bytes)

    c_size : length (take (cipher_len_of bytes) (drop 48 bytes)) ≡ cipher_len_of bytes
    c_size = omega (arith, length-take (cipher_len_of bytes) (drop 48 bytes), length-drop 48 bytes)

    a_size :
        length (take (aad_len_of bytes) (drop (48 + cipher_len_of bytes) bytes)) ≡ aad_len_of bytes
    a_size = omega (
      arith,
      length-take (aad_len_of bytes) (drop (48 + cipher_len_of bytes) bytes),
      length-drop (48 + cipher_len_of bytes) bytes,
    )

-- Whatever is split, of fewer than 2 ^ 64 bytes, is the packing of the parts that come out; the two
-- lengths are theirs, and the public key has its size.
pub encode-split :
    (bytes : Bytes) (p : Payload)
    → AreBytes bytes
    → length bytes < 2 ^ 64
    → split_encrypted_payload bytes ≡ ok p
    → (encode_encryption p.cipher p.nonce p.peer_public_key p.aad ≡ bytes)
      × (length p.cipher ≡ p.cipher_len)
      × (length p.aad ≡ p.aad_len)
      × (length p.peer_public_key ≡ public_key_len)
encode-split bytes p b small e = elim (split-cases bytes small b) [
  | short _ r ↦ cc
  | fits long t r ↦ rw (ok-injective (sym e ∙ r)) (
    encode-parts bytes b long t,
    omega (arith, length-take (cipher_len_of bytes) (drop 48 bytes), length-drop 48 bytes),
    omega (
      arith,
      length-take (aad_len_of bytes) (drop (48 + cipher_len_of bytes) bytes),
      length-drop (48 + cipher_len_of bytes) bytes,
    ),
    omega (arith, length-take 32 bytes),
  )
  | wraps _ _ r ↦ cc
  | differs _ _ r ↦ cc
]

-- On fewer than 2 ^ 64 bytes, splitting panics exactly where the bytes are long enough for a header
-- and the total of its lengths, not wrapped, is the payload's length and 2 ^ 64 more.
pub split-panic_iff :
    (bytes : Bytes)
    → AreBytes bytes
    → length bytes < 2 ^ 64
    → (split_encrypted_payload bytes ≡ panic)
      ↔ ((overhead ≤ length bytes) × (total bytes ≡ length bytes + 2 ^ 64))
split-panic_iff bytes b small = (panics, λ h. split-wraps bytes h.1 h.0 small b)
  where
    panics :
        split_encrypted_payload bytes ≡ panic
        → (overhead ≤ length bytes) × (total bytes ≡ length bytes + 2 ^ 64)
    panics e = elim (split-cases bytes small b) [
      | short _ r ↦ cc
      | fits _ _ r ↦ cc
      | wraps h t _ ↦ (h, t)
      | differs _ _ r ↦ cc
    ]

-- The nonce that comes out is a new one, of 15 bytes.
pub split-nonce :
    (bytes : Bytes) (p : Payload)
    → AreBytes bytes
    → length bytes < 2 ^ 64
    → split_encrypted_payload bytes ≡ ok p
    → (v : Bytes) × (length v ≡ nonce_size) × AreBytes v × (p.nonce ≡ Nonce.new v)
split-nonce bytes p b small e = elim (split-cases bytes small b) [
  | short _ r ↦ cc
  | wraps _ _ r ↦ cc
  | differs _ _ r ↦ cc
  | fits long t r ↦
      let start = 48 + cipher_len_of bytes + aad_len_of bytes in
      (
        take nonce_size (drop start bytes),
        omega (arith, length-take nonce_size (drop start bytes), length-drop start bytes),
        All-take _ nonce_size (drop start bytes) (All-drop _ start bytes b),
        ap (λ (q : Payload). q.nonce) (ok-injective (sym e ∙ r)),
      )
]
