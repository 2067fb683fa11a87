-- ===== src/FixedBytes/Tests.antt =====
-- Fixed-size bytes: their text tells them apart, and comparing agrees with equality.
use oasis_chain.Prelude.{
  ℕ, ◌+◌, ◌-◌, ◌*◌, ◌/◌, ◌%◌, ◌<◌, if◌then◌else◌, Result, ok, ◌>>=◌, ◌≡◌, refl, inl, inr,
  Bool-cases, ltb, [], ◌∷◌, Bytes, AreBytes, some, length, codes, ◌++◌, err, panic, arith,
}
use oasis_chain.FixedBytes.{
  Order, less, greater, partial_cmp, into_array, serialize, cmp, equal, hex_digit, lower_hex,
  display, from_slice, visit_seq, visit_bytes, element, end, FromHexError, invalid_hex_length,
  from_static,
}
use oasis_chain.FixedBytes.Laws.{be_value, order_of, cmp-order_of, from_static-lower_hex}

hex_digit-injective : (m n : ℕ) → m < 16 → n < 16 → hex_digit m ≡ hex_digit n → m ≡ n
unfolding hex_digit
hex_digit-injective m n hm hn e = ground arith

byte-injective :
    (a b : ℕ)
    → a < 256
    → b < 256
    → hex_digit (a / 16) ≡ hex_digit (b / 16)
    → hex_digit (a % 16) ≡ hex_digit (b % 16)
    → a ≡ b
byte-injective a b ha hb high low =
    let h = hex_digit-injective (a / 16) (b / 16) (omega arith) (omega arith) high in
    let l = hex_digit-injective (a % 16) (b % 16) (omega arith) (omega arith) low in omega arith

-- Two byte strings with the same digits are the same.
lower_hex-injective : (a b : Bytes) → AreBytes a → AreBytes b → lower_hex a ≡ lower_hex b → a ≡ b
unfolding lower_hex
lower_hex-injective [] [] ha hb e = refl
lower_hex-injective [] (y ∷ b) ha hb e = cc
lower_hex-injective (x ∷ a) [] ha hb e = cc
lower_hex-injective (x ∷ a) (y ∷ b) (hx, ha) (hy, hb) e =
    let high : hex_digit (x / 16) ≡ hex_digit (y / 16) = cc in
    let low : hex_digit (x % 16) ≡ hex_digit (y % 16) = cc in
    let rest : lower_hex a ≡ lower_hex b = cc in
    let first = byte-injective x y hx hy high low in
    let others = lower_hex-injective a b ha hb rest in cc

-- Bytes that compare as equal are equal.
cmp-equal : (a b : Bytes) → cmp a b ≡ equal → a ≡ b
unfolding cmp
cmp-equal [] [] e = refl
cmp-equal [] (y ∷ b) e = cc
cmp-equal (x ∷ a) [] e = cc
cmp-equal (x ∷ a) (y ∷ b) e = elim (Bool-cases (ltb x y)) [
  | inl below ↦ let e' = rw below at e in cc
  | inr not_below ↦ elim (Bool-cases (ltb y x)) [
    | inl above ↦ let e' = rw (not_below, above) at e in cc
    | inr not_above ↦
        let same : x ≡ y = ground arith in
        let e' = rw (not_below, not_above) at e in let others = cmp-equal a b e' in cc
  ]
]

-- A value that is serialized into what is deserialized as bytes comes back.
visit_bytes-serialize :
    {E : Type 0} (size : ℕ) (invalid_length : ℕ → E) (b : Bytes)
    → length b ≡ size
    → serialize (visit_bytes size invalid_length) b ≡ ok b
unfolding serialize visit_bytes
visit_bytes-serialize size invalid_length b whole = ground (arith, whole)

-- Values are ordered: one way round is the other turned around.
flipped : Order → Order
flipped less = greater
flipped equal = equal
flipped greater = less

partial_cmp-flipped :
    (a b : Bytes) → partial_cmp (into_array a) (into_array b) ≡ some (flipped (cmp b a))
unfolding partial_cmp into_array cmp flipped
partial_cmp-flipped [] [] = refl
partial_cmp-flipped [] (y ∷ b) = refl
partial_cmp-flipped (x ∷ a) [] = refl
partial_cmp-flipped (x ∷ a) (y ∷ b) = ground (arith, partial_cmp-flipped a b)

shown : display 4 (1 ∷ 35 ∷ 69 ∷ 171 ∷ []) ≡ codes "0123" ++ (8230 ∷ codes "45ab")
unfolding display
shown = refl

wrong_size : from_slice 4 {E = ℕ} (1 ∷ 2 ∷ []) ≡ panic
unfolding from_slice
wrong_size = refl

sequence_too_short : visit_seq 2 (λ n. n) (element 7 end) ≡ err 1
unfolding visit_seq
sequence_too_short = refl

bytes_too_long : visit_bytes 1 (λ n. n) (7 ∷ 8 ∷ []) ≡ err 2
unfolding visit_bytes
bytes_too_long = refl

cmp-order_of_example :
    cmp (1 ∷ 2 ∷ 255 ∷ []) (1 ∷ 3 ∷ 0 ∷ [])
    ≡ order_of (be_value (1 ∷ 2 ∷ 255 ∷ [])) (be_value (1 ∷ 3 ∷ 0 ∷ []))
cmp-order_of_example =
    cmp-order_of (1 ∷ 2 ∷ 255 ∷ []) (1 ∷ 3 ∷ 0 ∷ []) (omega arith) (omega arith) refl

-- A decoder of pairs of digits.
hex_value : ℕ → ℕ
hex_value c = if ltb c 58 then c - 48 else c - 87

decode : Bytes → Result FromHexError Bytes
unfolding hex_value
decode [] = ok []
decode (c ∷ []) = err invalid_hex_length
decode (c ∷ d ∷ s) = decode s >>= λ bs. ok ((hex_value c * 16 + hex_value d) ∷ bs)

hex_value-hex_digit : (n : ℕ) → n < 16 → hex_value (hex_digit n) ≡ n
unfolding hex_value hex_digit
hex_value-hex_digit n h = ground arith

decode-lower_hex : (bs : Bytes) → AreBytes bs → decode (lower_hex bs) ≡ ok bs
unfolding decode lower_hex
decode-lower_hex [] bytes = refl
decode-lower_hex (b ∷ bs) (byte, bytes) =
    let whole : b / 16 * 16 + b % 16 ≡ b = omega arith in
    rw
      (
        decode-lower_hex bs bytes,
        hex_value-hex_digit (b / 16) (omega arith),
        hex_value-hex_digit (b % 16) (omega arith),
        whole,
      )
      refl

from_static-lower_hex_example :
    (from_static 2 decode (lower_hex (7 ∷ 171 ∷ [])) ≡ ok (7 ∷ 171 ∷ []))
    × (from_static 2 decode (codes "0x" ++ lower_hex (7 ∷ 171 ∷ [])) ≡ ok (7 ∷ 171 ∷ []))
    × ((digits : Bytes)
        → lower_hex (7 ∷ 171 ∷ []) ≡ codes "0" ++ digits
        → from_static 2 decode (codes "0x" ++ digits) ≡ ok (7 ∷ 171 ∷ []))
from_static-lower_hex_example =
    from_static-lower_hex 2 decode decode-lower_hex (7 ∷ 171 ∷ []) (omega arith) refl
