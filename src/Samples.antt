-- ===== src/Samples.antt =====
-- Concrete instances of the interfaces to other crates, for the tests.
use oasis_chain.Prelude.{
  ℕ, ◌+◌, ◌*◌, ◌/◌, ◌%◌, ◌^◌, ◌<◌, ◌-◌, ◌≡◌, refl, ap, some, none, Option, [], ◌∷◌, ◌++◌, Bytes,
  AreBytes, length, take, replicate, length-append, take-append, arith,
}
use oasis_chain.Nonce.{Counter32}
use oasis_chain.Mrae.{Primitives, tag_size}

abbrev pub read_be : Bytes → Option ℕ
read_be (a ∷ b ∷ c ∷ d ∷ _) = some (((a * 256 + b) * 256 + c) * 256 + d)
read_be _ = none

abbrev pub write_be : ℕ → Bytes
write_be n = n / 2 ^ 24 % 256 ∷ n / 2 ^ 16 % 256 ∷ n / 2 ^ 8 % 256 ∷ n % 256 ∷ []

pub write_be-AreBytes : (n : ℕ) → AreBytes (write_be n)
write_be-AreBytes n = omega arith

pub read_be-write_be : (n : ℕ) → n < 2 ^ 32 → read_be (write_be n) ≡ some n
read_be-write_be n h = ground arith

pub write_be-read_be :
    (bs : Bytes) → length bs ≡ 4 → AreBytes bs → (n : ℕ) × (n < 2 ^ 32) × (write_be n ≡ bs)
write_be-read_be (a ∷ b ∷ c ∷ d ∷ []) h k =
    (((a * 256 + b) * 256 + c) * 256 + d, omega arith, ground arith)
write_be-read_be _ h k = absurd (omega arith)

abbrev pub big_endian : Counter32
big_endian = record {
  read_u32 = read_be;
  write_u32 = write_be;
  length-write_u32 = λ n. refl;
  write_u32-AreBytes = write_be-AreBytes;
  read_u32-write_u32 = read_be-write_be;
  write_u32-read_u32 = write_be-read_be;
}

-- A text is sealed by a constant tag behind it, and two secrets share the sum of their first bytes.
abbrev pub toy_seal : Bytes → Bytes → Bytes → Bytes → Bytes
toy_seal key nonce plaintext aad = plaintext ++ replicate 16 7

abbrev pub toy_unseal : Bytes → Bytes → Bytes → Bytes → Option Bytes
toy_unseal key nonce ciphertext aad = some (take (length ciphertext - 16) ciphertext)

pub toy_unseal-seal :
    (key nonce plaintext aad : Bytes)
    → toy_unseal key nonce (toy_seal key nonce plaintext aad) aad ≡ some plaintext
toy_unseal-seal key nonce plaintext aad = ap some (
    take-append _ plaintext (replicate 16 7)
      (omega (arith, length-append plaintext (replicate 16 7))))

pub toy_length-seal :
    (key nonce plaintext aad : Bytes)
    → length (toy_seal key nonce plaintext aad) ≡ length plaintext + tag_size
toy_length-seal key nonce plaintext aad = length-append plaintext (replicate 16 7)

abbrev pub first_byte : Bytes → ℕ
first_byte [] = 0
first_byte (b ∷ bs) = b

abbrev pub toy_public : Bytes → Bytes
toy_public secret = first_byte secret ∷ replicate 31 0

abbrev pub toy_shared : Bytes → Bytes → Bytes
toy_shared private public = (first_byte private + first_byte public) ∷ []

pub toy_shared_comm : (a b : Bytes) → toy_shared a (toy_public b) ≡ toy_shared b (toy_public a)
toy_shared_comm a b = ground arith

abbrev pub toy_hash : Bytes → Bytes
toy_hash bytes = length bytes % 256 ∷ replicate 31 0

pub toy_hash-AreBytes : (bytes : Bytes) → AreBytes (toy_hash bytes)
toy_hash-AreBytes bytes = omega arith

abbrev pub toy_primitives : Primitives
toy_primitives = record {
  seal = toy_seal;
  unseal = toy_unseal;
  unseal-seal = toy_unseal-seal;
  length-seal = toy_length-seal;
  public_from = toy_public;
  length-public_from = λ private_key. refl;
  diffie_hellman = toy_shared;
  diffie_hellman_comm = toy_shared_comm;
  hmac_sha512_trunc256 = λ key bytes. bytes;
  sha512_trunc256 = toy_hash;
  length-sha512_trunc256 = λ bytes. refl;
  sha512_trunc256-AreBytes = toy_hash-AreBytes;
  keccak = λ bytes. bytes;
}
