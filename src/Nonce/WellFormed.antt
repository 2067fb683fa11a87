-- ===== src/Nonce/WellFormed.antt =====
-- The shape of a nonce (ekiden_crypto/src/mrae/nonce.rs): two values of 15 bytes under one tag.
use oasis_chain.Prelude.{
  ℕ, ◌^◌, ◌<◌, ◌≡◌, ◌≢◌, refl, ap, sym, ◌∙◌, inl, inr, false, Bytes, AreBytes, length, take,
  length-append, length-take, take-append, All-append, All-take, ok, panic, ◌==◌, arith, Bool-cases,
}
use oasis_chain.Nonce.{Nonce, Counter32, nonce_size, tag_size, new, next_counter, increment}
use oasis_chain.Nonce.Increment.{value_at, nonce_at, value-is-at, increment-at, next_counter-mod}

pub record IsNonce (n : Nonce) : Type 0 where
  pub current_size : length n.current_value ≡ nonce_size
  pub current_bytes : AreBytes n.current_value
  pub start_size : length n.start_value ≡ nonce_size
  pub start_bytes : AreBytes n.start_value
  pub same_tag : take tag_size n.current_value ≡ take tag_size n.start_value

pub new-IsNonce : (v : Bytes) → length v ≡ nonce_size → AreBytes v → IsNonce (new v)
unfolding new
new-IsNonce v h b = record {
  current_size = h;
  current_bytes = b;
  start_size = h;
  start_bytes = b;
  same_tag = refl;
}

module _ (order : Counter32) where
  open order use {write_u32, length-write_u32, write_u32-AreBytes}

  nonce_at-IsNonce :
      (tag : Bytes) (start c : ℕ)
      → length tag ≡ tag_size
      → AreBytes tag
      → IsNonce (nonce_at order tag start c)
  nonce_at-IsNonce tag start c ht b = record {
    current_size = omega (arith, length-append tag (write_u32 c), length-write_u32 c);
    current_bytes = All-append _ tag (write_u32 c) b (write_u32-AreBytes c);
    start_size = omega (arith, length-append tag (write_u32 start), length-write_u32 start);
    start_bytes = All-append _ tag (write_u32 start) b (write_u32-AreBytes start);
    same_tag =
        take-append tag_size tag (write_u32 c) ht
        ∙ sym (take-append tag_size tag (write_u32 start) ht);
  }

  -- How a nonce that is well formed stands to `increment`.
  IsNonce-at :
      (n : Nonce)
      → IsNonce n
      → (tag : Bytes) × (start : ℕ) × (c : ℕ) × (length tag ≡ tag_size)
        × AreBytes tag
        × (start < 2 ^ 32)
        × (c < 2 ^ 32)
        × (n ≡ nonce_at order tag start c)
  IsNonce-at n h =
      let (c, hc, ec) = value-is-at order n.current_value h.current_size h.current_bytes in
      let (s, hs, es) = value-is-at order n.start_value h.start_size h.start_bytes in
      let es' : value_at order (take tag_size n.current_value) s ≡ n.start_value =
        ap (λ (t : Bytes). value_at order t s) h.same_tag ∙ es in
      (
        take tag_size n.current_value,
        s,
        c,
        omega (arith, length-take tag_size n.current_value, h.current_size),
        All-take _ tag_size n.current_value h.current_bytes,
        hs,
        hc,
        λ i. record { current_value = sym ec i; start_value = sym es' i },
      )

  -- `increment` never panics on a well-formed nonce, and leaves one with the same first value.
  pub increment-IsNonce :
      (n : Nonce)
      → IsNonce n
      → let (r, n') = increment order n in
        (r ≢ panic) × IsNonce n' × (n'.start_value ≡ n.start_value)
  increment-IsNonce n h =
      let (tag, s, c, ht, hb, hs, hc, e) = IsNonce-at n h in
      rw e (elim (Bool-cases (next_counter c == s)) [
        | inl stop ↦
            rw (increment-at order tag s c ht hs hc, stop)
              ((λ x. cc), nonce_at-IsNonce tag s c ht hb, refl)
        | inr more ↦
            rw (increment-at order tag s c ht hs hc, more)
              ((λ x. cc), nonce_at-IsNonce tag s (next_counter c) ht hb, refl)
      ])

  -- The first increment of a new nonce succeeds.
  pub increment-new :
      (v : Bytes)
      → length v ≡ nonce_size
      → AreBytes v
      → (n : Nonce) × (increment order (new v) ≡ (ok tt, n)) × IsNonce n
  unfolding new
  increment-new v h b =
      let (c, hc, e) = value-is-at order v h b in
      let tag = take tag_size v in
      let ht : length tag ≡ tag_size = omega (arith, length-take tag_size v) in
      let apart : (next_counter c == c) ≡ false = ground (arith, next_counter-mod order c hc) in
      (
        nonce_at order tag c (next_counter c),
        ap (increment order) (λ i. record { current_value = sym e i; start_value = sym e i })
            ∙ increment-at order tag c c ht hc hc
            ∙ rw apart,
        nonce_at-IsNonce tag c (next_counter c) ht (All-take _ tag_size v b),
      )
