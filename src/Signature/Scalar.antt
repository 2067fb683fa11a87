-- ===== src/Signature/Scalar.antt =====
-- The scalar check of ekiden_crypto/src/signature.rs, and the number that it is about.
use native.Mathlib.Nat.{pow-suc}
use oasis_chain.Prelude.{
  ℕ, zero, suc, ◌+◌, ◌*◌, ◌^◌, ◌≤◌, ◌<◌, ◌≡◌, refl, ap, [], ◌∷◌, Bytes, IsByte, AreBytes, ok,
  length, take, drop, ltb, arith, length-take, length-drop, All-take, All-drop,
}
use oasis_chain.Words.{le_value, le_value-lt}
use oasis_chain.Signature.{WordReader, le_words, curve_order, compare_limbs, sc_minimal}

-- The order of the curve: 2 ^ 252 + 27742317777372353535851937790883648493.
abbrev pub order : ℕ
order = 2 ^ 252 + 27742317777372353535851937790883648493

le_value-split :
    (n : ℕ) (bs : Bytes)
    → n ≤ length bs
    → le_value bs ≡ le_value (take n bs) + 256 ^ n * le_value (drop n bs)
unfolding le_value
le_value-split zero bs h = omega arith
le_value-split (suc n) [] h = absurd (omega arith)
le_value-split (suc n) (b ∷ bs) h =
    let step : 256 ^ n * 256 * le_value (drop n bs) ≡ 256 * (256 ^ n * le_value (drop n bs)) =
      grind arith in
    rw (pow-suc 256 n, le_value-split n bs (omega arith), step) (omega arith)

le_value-none : (bs : Bytes) → length bs ≡ 0 → le_value bs ≡ 0
unfolding le_value
le_value-none [] h = refl
le_value-none (b ∷ bs) h = absurd (omega arith)

-- A word of 64 bits off the front.
le_value-word :
    (bs : Bytes)
    → 8 ≤ length bs
    → le_value bs ≡ le_value (take 8 bs) + 2 ^ 64 * le_value (drop 8 bs)
le_value-word bs h = le_value-split 8 bs h

word-lt : (bs : Bytes) → AreBytes bs → 8 ≤ length bs → le_value (take 8 bs) < 2 ^ 64
word-lt bs b h =
    let long : length (take 8 bs) ≡ 8 = omega (arith, length-take 8 bs) in
    rw long at (le_value-lt (take 8 bs) (All-take IsByte 8 bs b))

-- Comparing words from the most significant one on compares the numbers that they are.
compare_limbs-ltb :
    (a b c d : ℕ)
    → a < 2 ^ 64
    → b < 2 ^ 64
    → c < 2 ^ 64
    → d < 2 ^ 64
    → compare_limbs (d ∷ c ∷ b ∷ a ∷ []) curve_order
      ≡ ltb (a + 2 ^ 64 * (b + 2 ^ 64 * (c + 2 ^ 64 * d))) order
unfolding compare_limbs
compare_limbs-ltb a b c d ha hb hc hd = ground arith

-- On 32 bytes, the check of a scalar word by word answers whether the number that the bytes are,
-- the lowest first, is below the order of the curve.
pub sc_minimal-ltb :
    (reader : WordReader) (raw_s : Bytes)
    → length raw_s ≡ 32
    → AreBytes raw_s
    → sc_minimal reader raw_s ≡ ok (ltb (le_value raw_s) order)
unfolding sc_minimal le_words
sc_minimal-ltb reader raw_s long bytes =
    let at_8 = drop 8 raw_s in
    let at_16 = drop 8 at_8 in
    let at_24 = drop 8 at_16 in
    let l8 : length at_8 ≡ 24 = omega (arith, length-drop 8 raw_s) in
    let l16 : length at_16 ≡ 16 = omega (arith, length-drop 8 at_8) in
    let l24 : length at_24 ≡ 8 = omega (arith, length-drop 8 at_16) in
    let l32 : length (drop 8 at_24) ≡ 0 = omega (arith, length-drop 8 at_24) in
    let b8 = All-drop IsByte 8 raw_s bytes in
    let b16 = All-drop IsByte 8 at_8 b8 in
    let b24 = All-drop IsByte 8 at_16 b16 in
    let value : le_value raw_s
        ≡ le_value (take 8 raw_s)
          + 2 ^ 64
            * (le_value (take 8 at_8)
                + 2 ^ 64 * (le_value (take 8 at_16) + 2 ^ 64 * le_value (take 8 at_24))) =
      omega (
        arith,
        le_value-word raw_s (omega arith),
        le_value-word at_8 (omega arith),
        le_value-word at_16 (omega arith),
        le_value-word at_24 (omega arith),
        le_value-none (drop 8 at_24) l32,
      ) in
    rw (reader.reads 4 raw_s (omega arith), value)
      (ap ok (
        compare_limbs-ltb (le_value (take 8 raw_s)) (le_value (take 8 at_8))
          (le_value (take 8 at_16)) (le_value (take 8 at_24)) (word-lt raw_s bytes (omega arith))
          (word-lt at_8 b8 (omega arith)) (word-lt at_16 b16 (omega arith))
          (word-lt at_24 b24 (omega arith))))
