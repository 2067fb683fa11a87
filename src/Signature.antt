-- ===== src/Signature.antt =====
-- ekiden_crypto/src/signature.rs and hash.rs: Ed25519 keys and signatures over a digest, with the
-- check of the scalar against the order of the curve. Ed25519 itself and the reading of
-- little-endian words (`byteorder`) are interfaces.
pub mod Scalar
pub mod Verification
mod Tests
use oasis_chain.Prelude.{
  ℕ, zero, suc, ◌*◌, ◌≤◌, ◌≡◌, List, [], ◌∷◌, ◌++◌, Bool, true, false, Bytes, Option, none, some,
  Result, ok, err, panic, ◌>>=◌, ◌>>◌, guard, unwrap, length, take, drop, ltb, if◌then◌else◌,
  reverse, bytes_eq,
}
use oasis_chain.Words.{le_value, slice}
use oasis_chain.Mrae.{Primitives}

-- `Hash::digest_bytes`
unfoldable pub digest_bytes : Primitives → Bytes → Bytes
digest_bytes prims bytes = prims.sha512_trunc256 bytes

unfoldable pub concat : List Bytes → Bytes
concat [] = []
concat (bytes ∷ rest) = bytes ++ concat rest

-- `Hash::digest_bytes_list`: a hasher that is fed pieces digests their concatenation.
unfoldable pub digest_bytes_list : Primitives → List Bytes → Bytes
unfolding concat
digest_bytes_list prims pieces = prims.sha512_trunc256 (concat pieces)

-- `Hash::empty_hash`
abbrev pub empty_hash : Bytes
empty_hash =
    0xc6 ∷ 0x72 ∷ 0xb8 ∷ 0xd1 ∷ 0xef ∷ 0x56 ∷ 0xed ∷ 0x28 ∷ 0xab ∷ 0x87 ∷ 0xc3 ∷ 0x62 ∷ 0x2c ∷ 0x51
    ∷ 0x14 ∷ 0x06 ∷ 0x9b ∷ 0xdd ∷ 0x3a ∷ 0xd7 ∷ 0xb8 ∷ 0xf9 ∷ 0x73 ∷ 0x74 ∷ 0x98 ∷ 0xd0 ∷ 0xc0
    ∷ 0x1e ∷ 0xce ∷ 0xf0 ∷ 0x96 ∷ 0x7a ∷ []

-- `Hash::is_empty`
unfoldable pub is_empty : Bytes → Bool
is_empty hash = bytes_eq hash empty_hash

-- The first `n` little-endian words of 64 bits.
unfoldable pub le_words : ℕ → Bytes → List ℕ
le_words zero bytes = []
le_words (suc n) bytes = le_value (take 8 bytes) ∷ le_words n (drop 8 bytes)

-- `read_u64_into::<LittleEndian>` of `byteorder`, which fails where there are too few bytes.
pub record WordReader : Type 0 where
  pub read_u64_into : ℕ → Bytes → Option (List ℕ)
  pub reads :
      (n : ℕ) (bytes : Bytes)
      → n * 8 ≤ length bytes
      → read_u64_into n bytes ≡ some (le_words n bytes)

-- `CURVE_ORDER`, the most significant word first.
abbrev pub curve_order : List ℕ
curve_order = 0x1000000000000000 ∷ 0 ∷ 0x14def9dea2f79cd6 ∷ 0x5812631a5cf5d3ed ∷ []

-- The loop over the words; at its end the scalar is equal to the order of the curve.
unfoldable pub compare_limbs : List ℕ → List ℕ → Bool
compare_limbs (s ∷ ss) (l ∷ ls) =
    let rest = compare_limbs ss ls in if ltb l s then false else if ltb s l then true else rest
compare_limbs _ _ = false

pub data SignatureError : Type 0 where
  malleability_error : SignatureError
  dalek_error : SignatureError

unfoldable pub sc_minimal : WordReader → Bytes → Result SignatureError Bool
unfolding compare_limbs
sc_minimal reader raw_s = do
  s ← unwrap (reader.read_u64_into 4 raw_s)
  ok (compare_limbs (reverse s) curve_order)

-- `ed25519_dalek`
pub record Ed25519 : Type 0 where
  pub secret_from_bytes : Bytes → Option Bytes
  pub public_from_secret : Bytes → Bytes
  pub generate : Bytes → Bytes
  pub sign : Bytes → Bytes → Bytes
  pub public_from_bytes : Bytes → Option Bytes
  pub signature_from_bytes : Bytes → Option Bytes
  pub verify : Bytes → Bytes → Bytes → Bool

-- `PrivateKey`, which is a `Keypair`.
pub record PrivateKey : Type 0 where
  pub secret : Bytes
  pub public : Bytes

-- `SignatureBundle`
pub record SignatureBundle : Type 0 where
  pub public_key : Option Bytes
  pub signature : Bytes

module _ (ed : Ed25519) where
  -- `PrivateKey::generate`, from the random bytes that it draws.
  unfoldable pub generate : Bytes → PrivateKey
  generate rng =
      let secret = ed.generate rng in
      record { secret = secret; public = ed.public_from_secret secret }

  -- `PrivateKey::to_bytes`
  unfoldable pub to_bytes : PrivateKey → Bytes
  to_bytes key = key.secret

  -- `PrivateKey::from_bytes`
  unfoldable pub from_bytes : Bytes → Result SignatureError PrivateKey
  from_bytes bytes = do
    secret ← unwrap (ed.secret_from_bytes bytes)
    ok (record { secret = secret; public = ed.public_from_secret secret })

  -- `PrivateKey::from_test_seed`
  unfoldable pub from_test_seed : Primitives → Bytes → Result SignatureError PrivateKey
  unfolding digest_bytes from_bytes
  from_test_seed prims seed = from_bytes (digest_bytes prims seed)

  -- `PrivateKey::public_key`
  unfoldable pub public_key : PrivateKey → Bytes
  public_key key = key.public

  -- `PrivateKey::sign`
  unfoldable pub sign : Primitives → PrivateKey → Bytes → Bytes → Bytes
  unfolding digest_bytes_list
  sign prims key context message =
      ed.sign key.secret (digest_bytes_list prims (context ∷ message ∷ []))

  -- `Signature::verify`
  unfoldable pub verify :
      Primitives → WordReader → Bytes → Bytes → Bytes → Bytes → Result SignatureError (Unit {0})
  unfolding digest_bytes_list sc_minimal
  verify prims reader signature pk context message = do
    pk' ← unwrap (ed.public_from_bytes pk)
    let digest = digest_bytes_list prims (context ∷ message ∷ [])
    sig ← unwrap (ed.signature_from_bytes signature)
    scalar ← slice signature 32 (length signature)
    minimal ← sc_minimal reader scalar
    guard minimal malleability_error
    guard (ed.verify pk' digest sig) dalek_error
