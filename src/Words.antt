-- ===== src/Words.antt =====
-- Machine words: `u64` and `usize` with their wrap-around in a release build, the little-endian
-- bytes of a word (`to_le_bytes`, `from_le_bytes`), and slices of byte strings.
use native.Mathlib.Nat.{pow-suc}
use oasis_chain.Prelude.{
  ℕ, zero, suc, ◌+◌, ◌-◌, ◌*◌, ◌/◌, ◌%◌, ◌^◌, ◌≤◌, ◌<◌, ◌≡◌, refl, ap, [], ◌∷◌, ◌++◌, ◌&&◌, Bytes,
  AreBytes, length, take, drop, Result, ok, panic, leb, if◌then◌else◌, arith, length-append,
  take-append, drop-append,
}

-- `a + b` on `u64`, which is `usize` here.
abbrev pub u64_add : ℕ → ℕ → ℕ
u64_add a b = (a + b) % 2 ^ 64

unfoldable pub le_bytes : ℕ → ℕ → Bytes
le_bytes zero n = []
le_bytes (suc k) n = n % 256 ∷ le_bytes k (n / 256)

unfoldable pub le_value : Bytes → ℕ
le_value [] = 0
le_value (b ∷ bs) = b + 256 * le_value bs

pub length-le_bytes : (k n : ℕ) → length (le_bytes k n) ≡ k
unfolding le_bytes
length-le_bytes zero n = refl
length-le_bytes (suc k) n = ap suc (length-le_bytes k (n / 256))

pub le_bytes-AreBytes : (k n : ℕ) → AreBytes (le_bytes k n)
unfolding le_bytes
le_bytes-AreBytes zero n = tt
le_bytes-AreBytes (suc k) n = (omega arith, le_bytes-AreBytes k (n / 256))

pub le_value-lt : (bs : Bytes) → AreBytes bs → le_value bs < 256 ^ length bs
unfolding le_value
le_value-lt [] h = omega arith
le_value-lt (b ∷ bs) h = rw (pow-suc 256 (length bs)) (omega (arith, h.0, le_value-lt bs h.1))

pub le_value-le_bytes : (k n : ℕ) → n < 256 ^ k → le_value (le_bytes k n) ≡ n
unfolding le_value le_bytes
le_value-le_bytes zero n h = omega arith
le_value-le_bytes (suc k) n h =
    let h' : n < 256 ^ k * 256 = rw (pow-suc 256 k) at h in
    omega (arith, le_value-le_bytes k (n / 256) (omega arith))

pub le_bytes-le_value :
    (k : ℕ) (bs : Bytes) → length bs ≡ k → AreBytes bs → le_bytes k (le_value bs) ≡ bs
unfolding le_value le_bytes
le_bytes-le_value zero [] h b = refl
le_bytes-le_value zero (x ∷ bs) h b = absurd (omega arith)
le_bytes-le_value (suc k) [] h b = absurd (omega arith)
le_bytes-le_value (suc k) (x ∷ bs) h b =
    let low : (x + 256 * le_value bs) % 256 ≡ x = omega (arith, b.0) in
    let high : (x + 256 * le_value bs) / 256 ≡ le_value bs = omega (arith, b.0) in
    rw (low, high, le_bytes-le_value k bs (omega arith) b.1)

-- `data[start..end]`
unfoldable pub slice : {E : Type 0} → Bytes → ℕ → ℕ → Result E Bytes
slice bs start end =
    if leb start end && leb end (length bs) then ok (take (end - start) (drop start bs)) else panic

pub slice-in :
    {E : Type 0} (bs : Bytes) (start end : ℕ)
    → start ≤ end
    → end ≤ length bs
    → slice {E = E} bs start end ≡ ok (take (end - start) (drop start bs))
unfolding slice
slice-in bs start end h k = ground arith

pub slice-backwards :
    {E : Type 0} (bs : Bytes) (start end : ℕ) → end < start → slice {E = E} bs start end ≡ panic
unfolding slice
slice-backwards bs start end h = ground arith

pub slice-out :
    {E : Type 0} (bs : Bytes) (start end : ℕ) → length bs < end → slice {E = E} bs start end ≡ panic
unfolding slice
slice-out bs start end h = ground arith

-- The slice of the middle of three parts.
pub slice-middle :
    {E : Type 0} (bs xs ys zs : Bytes) (start end : ℕ)
    → bs ≡ xs ++ (ys ++ zs)
    → length xs ≡ start
    → start + length ys ≡ end
    → slice {E = E} bs start end ≡ ok ys
slice-middle {E} bs xs ys zs start end e hs he =
    rw
      (
        e,
        slice-in {E = E} (xs ++ (ys ++ zs)) start end (omega arith)
            (omega (arith, length-append xs (ys ++ zs), length-append ys zs)),
        drop-append start xs (ys ++ zs) hs,
      )
      (ap ok (take-append (end - start) ys zs (omega arith)))
