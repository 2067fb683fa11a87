-- ===== src/Nonce/Sequence.antt =====
-- Repeated calls of `Nonce::increment` (ekiden_crypto/src/mrae/nonce.rs), from a new nonce on.
use oasis_chain.Prelude.{
  ℕ, zero, suc, ◌+◌, ◌%◌, ◌^◌, ◌<◌, ◌≡◌, refl, ap, sym, ◌∙◌, ◌≢◌, inl, inr, true, false, Bytes,
  AreBytes, length, take, length-take, take-append, Result, ok, err, panic, ◌==◌, arith, Bool-cases,
  length-append,
}
use native.Mathlib.Nat.{add-zero}
use oasis_chain.Nonce.{
  Nonce, NonceError, exhausted, Counter32, nonce_size, tag_size, new, next_counter, increment,
}
use oasis_chain.Nonce.Increment.{
  value_at, nonce_at, next_counter-mod, value_at-injective, value-is-at, increment-at,
  next_counter-lt,
}

module _ (order : Counter32) where
  open order use {length-write_u32, write_u32}

  abbrev pub resume :
      (Nonce → Result NonceError (Unit {0}) × Nonce)
      → Result NonceError (Unit {0}) × Nonce
      → Result NonceError (Unit {0}) × Nonce
  resume next (ok _, n) = next n
  resume next (err e, n) = (err e, n)
  resume next (panic, n) = (panic, n)

  -- Calls `increment` a number of times, up to the first call that fails.
  unfoldable pub increments : ℕ → Nonce → Result NonceError (Unit {0}) × Nonce
  increments zero n = (ok tt, n)
  increments (suc k) n = resume (increments k) (increment order n)

  -- The `i`-th counter after the first one.
  abbrev counter_after : ℕ → ℕ → ℕ
  counter_after start i = (start + i) % 2 ^ 32

  increment-fresh :
      (tag : Bytes) (start i : ℕ)
      → length tag ≡ tag_size
      → start < 2 ^ 32
      → i + 1 < 2 ^ 32
      → increment order (nonce_at order tag start (counter_after start i))
        ≡ (ok tt, nonce_at order tag start (counter_after start (i + 1)))
  increment-fresh tag start i ht hs hi =
      increment-at order tag start (counter_after start i) ht hs (omega arith)
      ∙ rw (next_counter-mod order (counter_after start i) (omega arith), wraps, differs)
    where
      wraps : (counter_after start i + 1) % 2 ^ 32 ≡ counter_after start (i + 1)
      wraps = omega arith

      differs : (counter_after start (i + 1) == start) ≡ false
      differs = ground arith

  increments-at :
      (tag : Bytes) (start i k : ℕ)
      → length tag ≡ tag_size
      → start < 2 ^ 32
      → i + k < 2 ^ 32
      → increments k (nonce_at order tag start (counter_after start i))
        ≡ (ok tt, nonce_at order tag start (counter_after start (i + k)))
  unfolding increments
  increments-at tag start i zero ht hs hk = rw (add-zero i)
  increments-at tag start i (suc k) ht hs hk =
      rw (increment-fresh tag start i ht hs (omega arith)) (
        increments-at tag start (i + 1) k ht hs (omega arith)
        ∙ ap (λ (j : ℕ). (ok tt, nonce_at order tag start (counter_after start j))) (omega arith))

  -- A new nonce is a tag with a counter, both times.
  new-at :
      (v : Bytes)
      → length v ≡ nonce_size
      → AreBytes v
      → (start : ℕ) × (start < 2 ^ 32)
        × (new v ≡ nonce_at order (take tag_size v) start (counter_after start 0))
  unfolding new
  new-at v h b =
      let (start, lt, e) = value-is-at order v h b in
      let back : counter_after start 0 ≡ start = omega arith in
      (start, lt, rw back (λ i. record { current_value = sym e i; start_value = sym e i }))

  tag-length : (v : Bytes) → length v ≡ nonce_size → length (take tag_size v) ≡ tag_size
  tag-length v h = omega (arith, length-take tag_size v)

  increments-new :
      (v : Bytes) (start k : ℕ)
      → length v ≡ nonce_size
      → start < 2 ^ 32
      → k < 2 ^ 32
      → new v ≡ nonce_at order (take tag_size v) start (counter_after start 0)
      → increments k (new v)
        ≡ (ok tt, nonce_at order (take tag_size v) start (counter_after start k))
  increments-new v start k h lt hk e =
      let same : 0 + k ≡ k = omega arith in
      rw e (
        increments-at (take tag_size v) start 0 k (tag-length v h) lt (omega arith)
        ∙ ap (λ (j : ℕ). (ok tt, nonce_at order (take tag_size v) start (counter_after start j)))
            same)

  -- From a new nonce of 15 bytes fewer than 2 ^ 32 calls of `increment` all succeed, and after
  -- different numbers of calls the values are different.
  pub increments-distinct :
      (v : Bytes) (j k : ℕ)
      → length v ≡ nonce_size
      → AreBytes v
      → j < k
      → k < 2 ^ 32
      → ((increments j (new v)).0 ≡ ok tt)
        × ((increments k (new v)).0 ≡ ok tt)
        × ((increments j (new v)).1.current_value ≢ (increments k (new v)).1.current_value)
  increments-distinct v j k h b hj hk =
      let (start, lt, e) = new-at v h b in
      rw (increments-new v start j h lt (omega arith) e, increments-new v start k h lt hk e)
        (
          refl,
          refl,
          λ same. omega (
            arith,
            value_at-injective order (take tag_size v) (counter_after start j)
                (counter_after start k) (omega arith) (omega arith) (tag-length v h) same,
          ),
        )

  exhausted-at :
      (tag : Bytes) (start k : ℕ)
      → length tag ≡ tag_size
      → start < 2 ^ 32
      → k + 1 ≡ 2 ^ 32
      → let n = nonce_at order tag start (counter_after start k) in
        increment order n ≡ (err exhausted, n)
  exhausted-at tag start k ht hs hk =
      increment-at order tag start (counter_after start k) ht hs (omega arith)
      ∙ rw (next_counter-mod order (counter_after start k) (omega arith), back)
    where
      back : ((counter_after start k + 1) % 2 ^ 32 == start) ≡ true
      back = ground arith

  -- After 2 ^ 32 - 1 calls on a new nonce of 15 bytes the next one reports exhaustion and leaves
  -- the nonce as it is.
  pub increments-exhausted :
      (v : Bytes) (k : ℕ)
      → length v ≡ nonce_size
      → AreBytes v
      → k + 1 ≡ 2 ^ 32
      → let n = (increments k (new v)).1 in increment order n ≡ (err exhausted, n)
  increments-exhausted v k h b hk =
      let (start, lt, e) = new-at v h b in
      rw (increments-new v start k h lt (omega arith) e)
        (exhausted-at (take tag_size v) start k (tag-length v h) lt hk)

  -- What holds after any number of calls: the tag and the first value are the ones that the nonce
  -- was made with.
  increments-keep-at :
      (tag : Bytes) (start c k : ℕ)
      → length tag ≡ tag_size
      → start < 2 ^ 32
      → c < 2 ^ 32
      → let (r, n) = increments k (nonce_at order tag start c) in
        (r ≢ panic)
        × (n.start_value ≡ value_at order tag start)
        × (take tag_size n.current_value ≡ tag)
        × (length n.current_value ≡ length tag + 4)
  unfolding increments
  increments-keep-at tag start c zero ht hs hc = (
    (λ e. cc),
    refl,
    take-append tag_size tag (write_u32 c) ht,
    omega (arith, length-append tag (write_u32 c), length-write_u32 c),
  )
  increments-keep-at tag start c (suc k) ht hs hc = elim (Bool-cases (next_counter c == start)) [
    | inl stop ↦
        rw (increment-at order tag start c ht hs hc, stop)
          (
            (λ e. cc),
            refl,
            take-append tag_size tag (write_u32 c) ht,
            omega (arith, length-append tag (write_u32 c), length-write_u32 c),
          )
    | inr more ↦
        rw (increment-at order tag start c ht hs hc, more)
          (increments-keep-at tag start (next_counter c) k ht hs
            (omega (arith, next_counter-lt order c hc)))
  ]

  -- After any number of calls on a new nonce of 15 bytes: the last one did not panic, the first
  -- value and the 11 bytes of the tag are as they were, and the value has 15 bytes.
  pub increments-keep :
      (v : Bytes) (k : ℕ)
      → length v ≡ nonce_size
      → AreBytes v
      → let (r, n) = increments k (new v) in
        (r ≢ panic)
        × (n.start_value ≡ v)
        × (take tag_size n.current_value ≡ take tag_size v)
        × (length n.current_value ≡ nonce_size)
  unfolding new
  increments-keep v k h b =
      let (start, lt, e) = new-at v h b in
      let kept =
        increments-keep-at (take tag_size v) start (counter_after start 0) k (tag-length v h) lt
          (omega arith) in
      rw e (
        kept.0,
        kept.1 ∙ sym (ap (λ (n : Nonce). n.start_value) e),
        kept.2,
        omega (arith, kept.3, tag-length v h),
      )

  -- The first two increments of a new nonce, by the nonces that they leave.
  pub increment-twice :
      (v : Bytes)
      → length v ≡ nonce_size
      → AreBytes v
      → (n m : Nonce) × (increment order (new v) ≡ (ok tt, n))
        × (increment order n ≡ (ok tt, m))
        × (length n.current_value ≡ nonce_size)
  increment-twice v h b =
      let (start, lt, e) = new-at v h b in
      let tag = take tag_size v in
      let ht = tag-length v h in
      (
        nonce_at order tag start (counter_after start 1),
        nonce_at order tag start (counter_after start 2),
        ap (increment order) e ∙ increment-fresh tag start 0 ht lt (omega arith),
        increment-fresh tag start 1 ht lt (omega arith),
        omega (
          arith,
          length-append tag (write_u32 (counter_after start 1)),
          length-write_u32 (counter_after start 1),
          ht,
        ),
      )
