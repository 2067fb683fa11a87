-- ===== src/Oasis/Tests.antt =====
-- The theorem on published keys at a concrete contract.
use oasis_chain.Prelude.{◌≡◌, refl, some, [], ◌∷◌, ◌++◌, Bytes, replicate, ok, arith, lookup}
use oasis_chain.Nonce
use oasis_chain.Payload.{encode_encryption}
use oasis_chain.Words.{le_bytes}
use oasis_chain.Mrae.{box_seal}
use oasis_chain.Encryption.{encrypt}
use oasis_chain.KeyManager.{
  Entropy, SignedPublicKey, no_keys, get_public_key, get_or_create_keys, generate_mock,
}
use oasis_chain.ConfidentialCtx
use oasis_chain.ConfidentialCtx.{activate, decrypt_session}
use oasis_chain.Oasis.{public_key}
use oasis_chain.Oasis.PublishedKey.{published_key_opens}
use oasis_chain.Samples.{big_endian, toy_primitives, toy_public}

abbrev rng : Entropy
rng = record { secret = replicate 32 5; state_key = replicate 32 6 }

abbrev address : Bytes
address = replicate 20 1

abbrev peer : Bytes
peer = replicate 32 9

abbrev nonce_value : Bytes
nonce_value = replicate 15 3

abbrev published : SignedPublicKey
published = record { key = toy_public rng.secret; checksum = []; signature = replicate 64 0 }

abbrev payload : Bytes
payload =
    toy_public peer
    ++ 18 ∷ replicate 7 0
    ++ 1 ∷ replicate 7 0
    ++ 10 ∷ 20 ∷ replicate 16 7
    ++ 30 ∷ nonce_value

published_key_opens_example :
    let (_, keys') = public_key toy_primitives rng no_keys address in
    let (_, ctx', _) =
      activate toy_primitives rng (ConfidentialCtx.new (replicate 32 0)) keys' (some address) in
    (decrypt_session toy_primitives big_endian ctx' payload).0
    ≡ ok (record { decrypted_data = 10 ∷ 20 ∷ []; additional_data = 30 ∷ [] })
unfolding public_key get_public_key get_or_create_keys generate_mock lookup encrypt
    encode_encryption le_bytes box_seal Nonce.new
published_key_opens_example =
    published_key_opens toy_primitives big_endian rng rng no_keys
      (ConfidentialCtx.new (replicate 32 0)) address peer nonce_value (10 ∷ 20 ∷ []) (30 ∷ [])
      payload published (λ id key e. cc) refl refl (omega arith) (omega arith) refl
