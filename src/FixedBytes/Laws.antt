-- ===== src/FixedBytes/Laws.antt =====
-- The order of fixed-size bytes, and reading them back from their text (ekiden_crypto/src/bytes.rs).
use oasis_chain.Prelude.{
  ℕ, ◌+◌, ◌*◌, ◌/◌, ◌%◌, ◌^◌, ◌<◌, ◌≡◌, refl, ap, sym, inl, inr, true, false, Bool-cases, ltb,
  ltb→lt, ◌==◌, eq→==, ne→==, if◌then◌else◌, [], ◌∷◌, ◌++◌, Bytes, AreBytes, length, codes, Result,
  ok, arith,
}
use native.Mathlib.Nat.{pow-suc}
use oasis_chain.FixedBytes.{
  FromHexError, Order, less, equal, greater, cmp, hex_digit, lower_hex, strip_0x, from_str,
  or_panic, from_static,
}

-- The number that bytes are, the highest first.
unfoldable pub be_value : Bytes → ℕ
be_value [] = 0
be_value (b ∷ bs) = b * 256 ^ length bs + be_value bs

unfoldable pub order_of : ℕ → ℕ → Order
order_of m n = if ltb m n then less else if ltb n m then greater else equal

above : (a b p v : ℕ) → a < b → v < p → a * p + v < b * p
above a b p v lt small = grind arith

be_value-lt : (bs : Bytes) → AreBytes bs → be_value bs < 256 ^ length bs
unfolding be_value
be_value-lt [] bytes = omega arith
be_value-lt (b ∷ bs) (byte, bytes) = rw (pow-suc 256 (length bs)) (
    let high = above b 256 (256 ^ length bs) (be_value bs) byte (be_value-lt bs bytes) in
    omega arith)

ahead : (a b p q v w : ℕ) → p ≡ q → a < b → v < p → a * p + v < b * q + w
ahead a b p q v w same lt small = rw (← same) (omega (arith, above a b p v lt small))

order_of-lt : (m n : ℕ) → m < n → order_of m n ≡ less
unfolding order_of
order_of-lt m n lt = ground arith

order_of-gt : (m n : ℕ) → n < m → order_of m n ≡ greater
unfolding order_of
order_of-gt m n gt = ground arith

order_of-add : (k m n : ℕ) → order_of (k + m) (k + n) ≡ order_of m n
unfolding order_of
order_of-add k m n = ground arith

-- Two values of as many bytes compare as the numbers do that their bytes are, the highest first.
pub cmp-order_of :
    (a b : Bytes)
    → AreBytes a
    → AreBytes b
    → length a ≡ length b
    → cmp a b ≡ order_of (be_value a) (be_value b)
unfolding cmp be_value order_of
cmp-order_of [] [] ha hb same = refl
cmp-order_of [] (y ∷ b) ha hb same = absurd (omega arith)
cmp-order_of (x ∷ a) [] ha hb same = absurd (omega arith)
cmp-order_of (x ∷ a) (y ∷ b) (hx, ha) (hy, hb) same =
    let shorter : length a ≡ length b = omega arith in
    let va = be_value-lt a ha in
    let vb = be_value-lt b hb in
    elim (Bool-cases (ltb x y)) [
      | inl lt ↦ rw lt (
          sym (
            order_of-lt _ _ (
              ahead x y (256 ^ length a) (256 ^ length b) (be_value a) (be_value b)
                (ap (λ (k : ℕ). 256 ^ k) shorter) (ltb→lt x y lt) va)))
      | inr ge ↦ elim (Bool-cases (ltb y x)) [
        | inl gt ↦
            rw (ge, gt)
              (sym (
                order_of-gt _ _ (
                  ahead y x (256 ^ length b) (256 ^ length a) (be_value b) (be_value a)
                    (ap (λ (k : ℕ). 256 ^ k) (sym shorter)) (ltb→lt y x gt) vb)))
        | inr le ↦
            let equals : y ≡ x = ground arith in
            rw (ge, le, cmp-order_of a b ha hb shorter, equals, shorter)
              (sym (order_of-add (x * 256 ^ length b) (be_value a) (be_value b)))
      ]
    ]

length-lower_hex : (bs : Bytes) → length (lower_hex bs) ≡ 2 * length bs
unfolding lower_hex
length-lower_hex [] = omega arith
length-lower_hex (b ∷ bs) = omega (arith, length-lower_hex bs)

hex_digit-ne-x : (n : ℕ) → n < 16 → (hex_digit n == b'x') ≡ false
unfolding hex_digit
hex_digit-ne-x n h = ground arith

-- There is no prefix in the digits themselves.
strip_0x-lower_hex : (bs : Bytes) → AreBytes bs → strip_0x (lower_hex bs) ≡ lower_hex bs
unfolding strip_0x lower_hex
strip_0x-lower_hex [] bytes = refl
strip_0x-lower_hex (b ∷ bs) (byte, _) =
    let plain = hex_digit-ne-x (b % 16) (omega arith) in
    elim (Bool-cases (hex_digit (b / 16) == b'0')) [
      | inl starts ↦ rw (starts, plain) refl
      | inr other ↦ rw other refl
    ]

module _ (size : ℕ) (from_hex : Bytes → Result FromHexError Bytes)
    (decodes : (bs : Bytes) → AreBytes bs → from_hex (lower_hex bs) ≡ ok bs) where
  from_str-lower_hex :
      (bs : Bytes) → AreBytes bs → length bs ≡ size → from_str size from_hex (lower_hex bs) ≡ ok bs
  unfolding from_str
  from_str-lower_hex bs bytes whole = rw (decodes bs bytes, eq→== (length bs) size whole) refl

  -- A value is read back from its hex digits, with and without the prefix `0x`, and also where the
  -- first of the digits is a zero that is left out; where the decoder of hex digits decodes them.
  pub from_static-lower_hex :
      (bs : Bytes)
      → AreBytes bs
      → length bs ≡ size
      → (from_static size from_hex (lower_hex bs) ≡ ok bs)
        × (from_static size from_hex (codes "0x" ++ lower_hex bs) ≡ ok bs)
        × ((digits : Bytes)
            → lower_hex bs ≡ codes "0" ++ digits
            → from_static size from_hex (codes "0x" ++ digits) ≡ ok bs)
  unfolding from_static or_panic
  from_static-lower_hex bs bytes whole =
      let even : (length (lower_hex bs) % 2 == 1) ≡ false =
        ne→== (length (lower_hex bs) % 2) 1 (λ odd. omega (arith, length-lower_hex bs)) in
      (
        rw (strip_0x-lower_hex bs bytes, even, from_str-lower_hex bs bytes whole) refl,
        rw (even, from_str-lower_hex bs bytes whole) refl,
        λ digits e.
            let odd : (length digits % 2 == 1) ≡ true =
              eq→== (length digits % 2) 1
                (omega (arith, length-lower_hex bs, ap (length {A = ℕ}) e)) in
            rw (odd, ← e, from_str-lower_hex bs bytes whole) refl,
      )
