-- ===== src/Signature/Tests.antt =====
-- The theorems on signatures at concrete ones, and scalars of the repository's own test.
use oasis_chain.Prelude.{
  ℕ, ◌*◌, ◌≤◌, ◌≡◌, ◌↔◌, refl, List, [], ◌∷◌, ◌++◌, true, false, Bytes, Option, none, some, ok, err,
  length, replicate, leb, ltb, if◌then◌else◌, arith,
}
use oasis_chain.Words.{le_value, slice}
use oasis_chain.Samples.{toy_primitives}
use oasis_chain.Signature.{
  WordReader, Ed25519, PrivateKey, le_words, sc_minimal, verify, sign, from_bytes, to_bytes,
  malleability_error,
}
use oasis_chain.Signature.Scalar.{order, sc_minimal-ltb}
use oasis_chain.Signature.Verification.{IsAccepted, verify-ok_iff}

abbrev read_words : ℕ → Bytes → Option (List ℕ)
read_words n bytes = if leb (n * 8) (length bytes) then some (le_words n bytes) else none

read_words_lem :
    (n : ℕ) (bytes : Bytes) → n * 8 ≤ length bytes → read_words n bytes ≡ some (le_words n bytes)
read_words_lem n bytes h = ground arith

abbrev reader : WordReader
reader = record { read_u64_into = read_words; reads = read_words_lem }

abbrev one_less : Bytes
one_less =
    0xec
      ∷ 0xd3
      ∷ 0xf5
      ∷ 0x5c
      ∷ 0x1a
      ∷ 0x63
      ∷ 0x12
      ∷ 0x58
      ∷ 0xd6
      ∷ 0x9c
      ∷ 0xf7
      ∷ 0xa2
      ∷ 0xde
      ∷ 0xf9
      ∷ 0xde
      ∷ 0x14
      ∷ replicate 15 0
    ++ 0x10 ∷ []

abbrev the_order : Bytes
the_order =
    0xed
      ∷ 0xd3
      ∷ 0xf5
      ∷ 0x5c
      ∷ 0x1a
      ∷ 0x63
      ∷ 0x12
      ∷ 0x58
      ∷ 0xd6
      ∷ 0x9c
      ∷ 0xf7
      ∷ 0xa2
      ∷ 0xde
      ∷ 0xf9
      ∷ 0xde
      ∷ 0x14
      ∷ replicate 15 0
    ++ 0x10 ∷ []

below_order : sc_minimal reader one_less ≡ ok true
unfolding sc_minimal le_words le_value
below_order = refl

at_order : sc_minimal reader the_order ≡ ok false
unfolding sc_minimal le_words le_value
at_order = refl

value_of_order : le_value the_order ≡ order
unfolding le_value
value_of_order = refl

sc_minimal-ltb_example : sc_minimal reader one_less ≡ ok (ltb (le_value one_less) order)
sc_minimal-ltb_example = sc_minimal-ltb reader one_less refl (omega arith)

-- Every key and signature decodes, and every signature of a digest fits.
abbrev lenient : Ed25519
lenient = record {
  secret_from_bytes = λ bytes. some bytes;
  public_from_secret = λ secret. secret;
  generate = λ rng. rng;
  sign = λ secret message. replicate 32 1 ++ one_less;
  public_from_bytes = λ bytes. some bytes;
  signature_from_bytes = λ bytes. some bytes;
  verify = λ public message signature. true;
}

abbrev key : PrivateKey
key = record { secret = replicate 32 3; public = replicate 32 3 }

abbrev signature : Bytes
signature = replicate 32 1 ++ one_less

signed : sign lenient toy_primitives key (1 ∷ []) (2 ∷ []) ≡ signature
unfolding sign
signed = refl

key_round_trip : from_bytes lenient (to_bytes lenient key) ≡ ok key
unfolding from_bytes to_bytes
key_round_trip = refl

verify-ok_iff_example :
    (verify lenient toy_primitives reader signature key.public (1 ∷ []) (2 ∷ []) ≡ ok tt)
    ↔ IsAccepted toy_primitives lenient signature key.public (1 ∷ []) (2 ∷ [])
verify-ok_iff_example =
    verify-ok_iff toy_primitives reader lenient signature key.public (1 ∷ []) (2 ∷ []) refl
      (omega arith)

malleable :
    verify lenient toy_primitives reader (replicate 32 1 ++ the_order) key.public (1 ∷ []) (2 ∷ [])
    ≡ err malleability_error
unfolding verify slice le_words le_value
malleable = refl
