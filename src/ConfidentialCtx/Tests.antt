-- ===== src/ConfidentialCtx/Tests.antt =====
-- The theorems on encryption, keys and confidential contexts at concrete inputs.
use oasis_chain.Prelude.{
  ◌≡◌, ◌≢◌, refl, none, some, false, List, [], ◌∷◌, ◌++◌, Bytes, replicate, ok, arith, ◌>>=◌,
  lookup,
}
use oasis_chain.Nonce
use oasis_chain.Nonce.{Nonce, increment, nonce_size}
use oasis_chain.Words.{le_bytes, le_value, slice}
use oasis_chain.Payload.{encode_encryption, split_encrypted_payload}
use oasis_chain.Mrae.{derive_symmetric_key, box_seal, box_open}
use oasis_chain.Encryption.{Decryption, encrypt, decrypt}
use oasis_chain.Encryption.Laws.{decrypt-encrypt, decrypt_sound}
use oasis_chain.KeyManager.{Entropy, SignedPublicKey, no_keys, generate_mock, get_or_create_keys}
use oasis_chain.KeyManager.Laws.{KeysMatch, requests, get_or_create_keys-stable}
use oasis_chain.ConfidentialCtx
use oasis_chain.ConfidentialCtx.Operations
use oasis_chain.ConfidentialCtx.{
  ConfidentialCtx, new_test, activate, swap_contract, is_encrypting, encrypt_session,
  decrypt_session, encrypt_storage_value, decrypt_storage_value, storage_nonce,
}
use oasis_chain.ConfidentialCtx.Operations.{
  Call, activates, deactivates, encrypts_session, decrypts_session, encrypts_storage_value, IsInput,
  run,
}
use oasis_chain.ConfidentialCtx.Invariant.{IsConsistent, run-IsConsistent}
use oasis_chain.ConfidentialCtx.Storage.{
  after_values, storage_round_trip, storage_nonces-distinct, activate-restarts,
}
use oasis_chain.ConfidentialCtx.Stored.{nonce_part}
use oasis_chain.ConfidentialCtx.Session.{session_round_trip}
use oasis_chain.Samples.{big_endian, toy_primitives, toy_public}

abbrev rng : Entropy
rng = record { secret = replicate 32 5; state_key = replicate 32 6 }

abbrev address : Bytes
address = replicate 20 1

abbrev peer : Bytes
peer = replicate 32 9

abbrev nonce_value : Bytes
nonce_value = replicate 15 3

-- The payload of a peer's two-byte request.
abbrev request : Bytes
request =
    toy_public peer
    ++ 18 ∷ replicate 7 0
    ++ 1 ∷ replicate 7 0
    ++ 10 ∷ 20 ∷ replicate 16 7
    ++ 30 ∷ nonce_value

decrypt-encrypt_example :
    (encrypt toy_primitives
        (10 ∷ 20 ∷ [])
        (Nonce.new nonce_value)
        (toy_public peer)
        (toy_public rng.secret)
        rng.secret
        (30 ∷ [])
      >>= λ payload. decrypt toy_primitives (some payload) peer)
    ≡ ok (record {
      plaintext = 10 ∷ 20 ∷ [];
      nonce = Nonce.new nonce_value;
      peer_public_key = toy_public rng.secret;
      aad = 30 ∷ [];
    })
unfolding Nonce.new
decrypt-encrypt_example =
    decrypt-encrypt toy_primitives (10 ∷ 20 ∷ []) (Nonce.new nonce_value) rng.secret peer (30 ∷ [])
      refl (omega arith)

abbrev opened : Decryption
opened = record {
  plaintext = 10 ∷ 20 ∷ [];
  nonce = record { current_value = nonce_value; start_value = nonce_value };
  peer_public_key = toy_public peer;
  aad = 30 ∷ [];
}

decrypt_sound_example :
    (cipher : Bytes) × (encode_encryption cipher opened.nonce opened.peer_public_key opened.aad
      ≡ request)
    × (toy_primitives.unseal
          (derive_symmetric_key toy_primitives opened.peer_public_key rng.secret)
          opened.nonce.current_value
          cipher
          opened.aad
        ≡ some opened.plaintext)
unfolding decrypt split_encrypted_payload slice le_value box_open Nonce.new
decrypt_sound_example =
    decrypt_sound toy_primitives request rng.secret opened (omega arith) (omega arith) refl

get_or_create_keys-stable_example :
    let (key, keys') = get_or_create_keys toy_primitives rng address no_keys in
    let keys'' = requests toy_primitives ((rng, peer) ∷ (rng, address) ∷ []) keys' in
    get_or_create_keys toy_primitives rng address keys'' ≡ (key, keys'')
get_or_create_keys-stable_example =
    get_or_create_keys-stable toy_primitives rng rng address ((rng, peer) ∷ (rng, address) ∷ [])
      no_keys

abbrev published : SignedPublicKey
published = record { key = toy_public rng.secret; checksum = []; signature = replicate 64 0 }

no_keys-KeysMatch : KeysMatch toy_primitives no_keys
unfolding lookup
no_keys-KeysMatch id key e = cc

abbrev block_hash : Bytes
block_hash = replicate 32 4

-- A transaction that runs a confidential contract, which stores a value and answers its caller.
abbrev calls : List Call
calls =
    activates rng (some address)
    ∷ decrypts_session request
    ∷ encrypts_storage_value (1 ∷ []) (2 ∷ 3 ∷ [])
    ∷ encrypts_session (4 ∷ [])
    ∷ []

run-IsConsistent_example :
    IsConsistent toy_primitives
      (run toy_primitives big_endian calls (ConfidentialCtx.new block_hash, no_keys)).0
run-IsConsistent_example =
    run-IsConsistent toy_primitives big_endian block_hash no_keys calls (omega arith)

-- The context once the contract has been activated.
abbrev active : ConfidentialCtx
active =
    (run toy_primitives big_endian (activates rng (some address) ∷ [])
      (ConfidentialCtx.new block_hash, no_keys)).0

active-IsConsistent : IsConsistent toy_primitives active
active-IsConsistent =
    run-IsConsistent toy_primitives big_endian block_hash no_keys
      (activates rng (some address) ∷ []) (omega arith)

abbrev first_nonce : Bytes
first_nonce = storage_nonce toy_primitives block_hash address

storage_round_trip_example :
    decrypt_storage_value toy_primitives active (1 ∷ []) ((2 ∷ [] ++ replicate 16 7) ++ first_nonce)
    ≡ ok (2 ∷ [])
unfolding run Operations.step activate swap_contract encrypt_storage_value get_or_create_keys
    generate_mock lookup increment ConfidentialCtx.new
storage_round_trip_example =
    storage_round_trip toy_primitives big_endian active active (1 ∷ []) (2 ∷ [])
      ((2 ∷ [] ++ replicate 16 7) ++ first_nonce) active-IsConsistent refl refl

storage_nonces-distinct_example :
    (one two : Bytes) × ((encrypt_storage_value toy_primitives big_endian
        (after_values toy_primitives big_endian [] active)
        (1 ∷ [])
        (2 ∷ [])).0
      ≡ ok one)
    × ((encrypt_storage_value toy_primitives big_endian
          (after_values toy_primitives big_endian ((1 ∷ [], 2 ∷ []) ∷ []) active)
          (1 ∷ [])
          (2 ∷ [])).0
        ≡ ok two)
    × (nonce_part one ≢ nonce_part two)
unfolding run Operations.step activate swap_contract get_or_create_keys generate_mock lookup
    ConfidentialCtx.new
storage_nonces-distinct_example =
    storage_nonces-distinct toy_primitives big_endian [] ((1 ∷ [], 2 ∷ []) ∷ []) active first_nonce
      (replicate 32 6) (1 ∷ []) (2 ∷ []) (1 ∷ []) (2 ∷ []) refl refl refl (omega arith)
      (omega arith) (omega arith)

activate-restarts_example :
    let (_, first, keys') =
      activate toy_primitives rng (ConfidentialCtx.new block_hash) no_keys (some address) in
    let keys'' = requests toy_primitives ((rng, peer) ∷ (rng, request) ∷ []) keys' in
    let (_, again, _) =
      activate toy_primitives rng (ConfidentialCtx.new block_hash) keys'' (some address) in
    (again.d2 ≡ first.d2) × (again.next_storage_nonce ≡ first.next_storage_nonce)
activate-restarts_example =
    activate-restarts toy_primitives rng rng (ConfidentialCtx.new block_hash)
      (ConfidentialCtx.new block_hash) no_keys address ((rng, peer) ∷ (rng, request) ∷ []) refl

session_round_trip_example :
    let (opened, ctx') = decrypt_session toy_primitives big_endian active request in
    let (sealed, ctx'') = encrypt_session toy_primitives big_endian ctx' (4 ∷ []) in
    (opened ≡ ok (record { decrypted_data = 10 ∷ 20 ∷ []; additional_data = 30 ∷ [] }))
    × (reply : Bytes) × (sealed ≡ ok reply)
    × (decrypt toy_primitives (some reply) peer
        ≡ ok (record {
          plaintext = 4 ∷ [];
          nonce = Nonce.new (increment big_endian (Nonce.new nonce_value)).1.current_value;
          peer_public_key = toy_public rng.secret;
          aad = [];
        }))
unfolding run Operations.step activate swap_contract get_or_create_keys generate_mock lookup encrypt
    encode_encryption le_bytes box_seal Nonce.new
session_round_trip_example =
    session_round_trip toy_primitives big_endian active address (generate_mock toy_primitives rng)
      peer nonce_value (10 ∷ 20 ∷ []) (30 ∷ []) (4 ∷ []) request refl refl refl (omega arith)
      (omega arith) (omega arith) refl

-- A context that is made with nothing is a new one.
new_test-none :
    (hash : Bytes) → new_test none none none false hash none none ≡ ConfidentialCtx.new hash
unfolding new_test ConfidentialCtx.new
new_test-none hash = refl
