-- ===== src/Nonce/Tests.antt =====
-- The tests of ekiden_crypto/src/mrae/nonce.rs, and the theorems at concrete nonces.
use oasis_chain.Prelude.{
  ◌^◌, ◌-◌, ◌≡◌, ◌≢◌, refl, [], ◌∷◌, Bytes, AreBytes, length, take, replicate, ◌++◌, ok, err, panic,
  arith,
}
use oasis_chain.Nonce.{Nonce, exhausted, nonce_size, tag_size, new, increment}
use oasis_chain.Samples.{big_endian}
use oasis_chain.Nonce.Sequence.{
  increments, increments-distinct, increments-exhausted, increments-keep,
}

abbrev tag : Bytes
tag = replicate 11 0

-- A value whose counter is two calls from wrapping.
abbrev near_wrap : Bytes
near_wrap = tag ++ 255 ∷ 255 ∷ 255 ∷ 254 ∷ []

test_increment_carry : increment big_endian (new (replicate 12 0 ++ 255 ∷ 255 ∷ 255 ∷ [])) ≡ (
  ok tt,
  record {
    current_value = tag ++ 1 ∷ 0 ∷ 0 ∷ 0 ∷ [];
    start_value = replicate 12 0 ++ 255 ∷ 255 ∷ 255 ∷ [];
  },
)
unfolding increment new
test_increment_carry = refl

test_increment_overflow : (increments big_endian 2 (new near_wrap)).1.current_value ≡ replicate 15 0
unfolding increments increment new
test_increment_overflow = refl

abbrev last_nonce : Nonce
last_nonce = record { current_value = near_wrap; start_value = tag ++ 255 ∷ 255 ∷ 255 ∷ 255 ∷ [] }

test_increment_exhaustion : increment big_endian last_nonce ≡ (err exhausted, last_nonce)
unfolding increment
test_increment_exhaustion = refl

near_wrap-AreBytes : AreBytes near_wrap
near_wrap-AreBytes = omega arith

increments-distinct_example :
    ((increments big_endian 1 (new near_wrap)).0 ≡ ok tt)
    × ((increments big_endian 3 (new near_wrap)).0 ≡ ok tt)
    × ((increments big_endian 1 (new near_wrap)).1.current_value
        ≢ (increments big_endian 3 (new near_wrap)).1.current_value)
increments-distinct_example =
    increments-distinct big_endian near_wrap 1 3 refl near_wrap-AreBytes (omega arith) (omega arith)

increments-exhausted_example :
    let n = (increments big_endian (2 ^ 32 - 1) (new near_wrap)).1 in
    increment big_endian n ≡ (err exhausted, n)
increments-exhausted_example =
    increments-exhausted big_endian near_wrap (2 ^ 32 - 1) refl near_wrap-AreBytes (omega arith)

increments-keep_example :
    let (r, n) = increments big_endian 3 (new near_wrap) in
    (r ≢ panic)
    × (n.start_value ≡ near_wrap)
    × (take tag_size n.current_value ≡ take tag_size near_wrap)
    × (length n.current_value ≡ nonce_size)
increments-keep_example = increments-keep big_endian near_wrap 3 refl near_wrap-AreBytes
