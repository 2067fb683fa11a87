-- ===== src/Nonce/Increment.antt =====
-- One call of `Nonce::increment` (ekiden_crypto/src/mrae/nonce.rs).
use oasis_chain.Prelude.{
  ℕ, ◌+◌, ◌%◌, ◌^◌, ◌<◌, ◌≡◌, ap, ◌∙◌, ◌++◌, Bytes, AreBytes, length, take, drop, length-append,
  length-drop, take-append, drop-append, take-append-drop, All-drop, ok, err, ◌==◌, if◌then◌else◌,
  arith, bytes_eq, bytes_eq_iff, Bool-eq_of_iff,
}
use oasis_chain.Nonce.{
  Nonce, exhausted, Counter32, nonce_size, tag_size, next_counter, next_value, checked_value,
  increment,
}

module _ (order : Counter32) where
  open order use {read_u32, write_u32, length-write_u32, read_u32-write_u32, write_u32-read_u32}

  -- The nonce value with a tag and a counter.
  abbrev pub value_at : Bytes → ℕ → Bytes
  value_at tag c = tag ++ write_u32 c

  -- A nonce that started at one counter and has come to another, under one tag.
  abbrev pub nonce_at : Bytes → ℕ → ℕ → Nonce
  nonce_at tag start c = record { current_value = value_at tag c; start_value = value_at tag start }

  pub next_counter-mod : (c : ℕ) → c < 2 ^ 32 → next_counter c ≡ (c + 1) % 2 ^ 32
  unfolding next_counter
  next_counter-mod c h = ground arith

  -- Two counters give two values.
  pub value_at-injective :
      (tag : Bytes) (c d : ℕ)
      → c < 2 ^ 32
      → d < 2 ^ 32
      → length tag ≡ tag_size
      → value_at tag c ≡ value_at tag d
      → c ≡ d
  value_at-injective tag c d hc hd ht e = cc (
    read_u32-write_u32 c hc,
    read_u32-write_u32 d hd,
    drop-append tag_size tag (write_u32 c) ht,
    drop-append tag_size tag (write_u32 d) ht,
  )

  -- Every 15-byte value is a tag with a counter.
  pub value-is-at :
      (v : Bytes)
      → length v ≡ nonce_size
      → AreBytes v
      → (c : ℕ) × (c < 2 ^ 32) × (value_at (take tag_size v) c ≡ v)
  value-is-at v h b =
      let (c, lt, e) =
        write_u32-read_u32 (drop tag_size v) (omega (arith, length-drop tag_size v))
          (All-drop _ tag_size v b) in
      (c, lt, ap (◌++◌ (take tag_size v)) e ∙ take-append-drop tag_size v)

  next_value-at :
      (tag : Bytes) (c : ℕ)
      → length tag ≡ tag_size
      → c < 2 ^ 32
      → next_value order (value_at tag c) ≡ ok (value_at tag (next_counter c))
  unfolding next_value
  next_value-at tag c ht hc =
      rw
        (
          drop-append tag_size tag (write_u32 c) ht,
          take-append tag_size tag (write_u32 c) ht,
          read_u32-write_u32 c hc,
        )
        (ground (
          arith,
          length-append tag (write_u32 (next_counter c)),
          length-write_u32 (next_counter c),
        ))

  pub next_counter-lt : (c : ℕ) → c < 2 ^ 32 → next_counter c < 2 ^ 32
  unfolding next_counter
  next_counter-lt c h = ground arith

  bytes_eq-at :
      (tag : Bytes) (c d : ℕ)
      → length tag ≡ tag_size
      → c < 2 ^ 32
      → d < 2 ^ 32
      → bytes_eq (value_at tag c) (value_at tag d) ≡ (c == d)
  bytes_eq-at tag c d ht hc hd = Bool-eq_of_iff _ _ (
    (λ e. ground (arith, value_at-injective tag c d hc hd ht ((bytes_eq_iff _ _).0 e))),
    (λ e. (bytes_eq_iff _ _).1 (ap (value_at tag) (ground arith))),
  )

  -- What `increment` does to a nonce with an 11-byte tag: it advances the counter modulo 2 ^ 32,
  -- or, where that is the first counter again, reports exhaustion and leaves the nonce.
  pub increment-at :
      (tag : Bytes) (start c : ℕ)
      → length tag ≡ tag_size
      → start < 2 ^ 32
      → c < 2 ^ 32
      → increment order (nonce_at tag start c) ≡ (
          if next_counter c == start
          then (err exhausted, nonce_at tag start c)
          else (ok tt, nonce_at tag start (next_counter c)))
  unfolding increment checked_value
  increment-at tag start c ht hs hc = ground (
    arith,
    next_value-at tag c ht hc,
    bytes_eq-at tag (next_counter c) start ht (next_counter-lt c hc) hs,
  )
