-- ===== src/KeyManager/Laws.antt =====
-- What callers of the mock key manager (ekiden_keymanager/src/client.rs) can rely on.
use oasis_chain.Prelude.{
  ◌≡◌, ◌∙◌, refl, List, [], ◌∷◌, Bytes, some, inl, inr, lookup, insert, bytes_key, lookup-insert,
  lookup-insert_self, lookup-insert_ne, arith, Option-cases,
}
use oasis_chain.Mrae.{Primitives}
use oasis_chain.KeyManager.{
  ContractKey, Entropy, MockClient, SignedPublicKey, generate_mock, get_or_create_keys,
  get_public_key,
}

-- Every secret key that is stored stands beside its public key.
abbrev pub KeysMatch : Primitives → MockClient → Type 0
KeysMatch prims keys =
    (id : Bytes) (key : ContractKey)
    → lookup id keys ≡ some key
    → key.input_keypair.pk ≡ prims.public_from key.input_keypair.sk

module _ (prims : Primitives) where
  get_or_create_keys-known :
      (rng : Entropy) (id : Bytes) (keys : MockClient) {key : ContractKey}
      → lookup id keys ≡ some key
      → get_or_create_keys prims rng id keys ≡ (key, keys)
  unfolding get_or_create_keys
  get_or_create_keys-known rng id keys e = rw (e, get_or_create_keys)

  lookup-get_or_create_keys :
      (rng : Entropy) (id : Bytes) (keys : MockClient)
      → let (key, keys') = get_or_create_keys prims rng id keys in lookup id keys' ≡ some key
  unfolding get_or_create_keys
  lookup-get_or_create_keys rng id keys = elim (Option-cases (lookup id keys)) [
    | inl e ↦ rw (e, get_or_create_keys) (lookup-insert_self id (generate_mock prims rng) keys)
    | inr (key, e) ↦ rw (e, get_or_create_keys) e
  ]

  get_or_create_keys-keeps :
      (rng : Entropy) (id j : Bytes) (keys : MockClient) {key : ContractKey}
      → lookup j keys ≡ some key
      → lookup j (get_or_create_keys prims rng id keys).1 ≡ some key
  unfolding get_or_create_keys
  get_or_create_keys-keeps rng id j keys e = elim (Option-cases (lookup id keys)) [
    | inl new ↦ rw (new, get_or_create_keys) (lookup-insert_ne j id _ keys (λ same. cc) ∙ e)
    | inr (_, old) ↦ rw (old, get_or_create_keys) e
  ]

  -- The stored keys after some requests, each with what the random source yields.
  abbrev pub requests : List (Entropy × Bytes) → MockClient → MockClient
  requests [] keys = keys
  requests ((rng, id) ∷ rest) keys = requests rest (get_or_create_keys prims rng id keys).1

  requests-keeps :
      (between : List (Entropy × Bytes)) (j : Bytes) (keys : MockClient) {key : ContractKey}
      → lookup j keys ≡ some key
      → lookup j (requests between keys) ≡ some key
  requests-keeps [] j keys e = e
  requests-keeps ((rng, id) ∷ rest) j keys e =
      requests-keeps rest j (get_or_create_keys prims rng id keys).1
        (get_or_create_keys-keeps rng id j keys e)

  -- Once a contract has been asked for, its keys stay the same after any other requests, whatever
  -- these ask for and whatever the random source yields; and asking again changes nothing that is
  -- stored.
  pub get_or_create_keys-stable :
      (rng rng' : Entropy) (id : Bytes) (between : List (Entropy × Bytes)) (keys : MockClient)
      → let (key, keys') = get_or_create_keys prims rng id keys in
        let keys'' = requests between keys' in
        get_or_create_keys prims rng' id keys'' ≡ (key, keys'')
  get_or_create_keys-stable rng rng' id between keys =
      get_or_create_keys-known rng' id _
        (requests-keeps between id _ (lookup-get_or_create_keys rng id keys))

  -- The public key that is handed out is that of the keys that the contract gets right after.
  pub get_public_key-agrees :
      (rng rng' : Entropy) (id : Bytes) (keys : MockClient) {spk : SignedPublicKey}
      → (get_public_key prims rng id keys).0 ≡ some spk
      → (get_or_create_keys prims rng' id (get_public_key prims rng id keys).1).0.input_keypair.pk
        ≡ spk.key
  unfolding get_public_key
  get_public_key-agrees rng rng' id keys e =
      rw (get_or_create_keys-known rng' id _ (lookup-get_or_create_keys rng id keys)) cc

  generated-KeysMatch :
      (rng : Entropy) (id : Bytes) (keys : MockClient)
      → KeysMatch prims keys
      → KeysMatch prims (insert id (generate_mock prims rng) keys)
  unfolding generate_mock
  generated-KeysMatch rng id keys h j key e =
      ground (arith, h j key, lookup-insert j id (generate_mock prims rng) keys)

  -- When every stored key pair has the public key of its secret key, so has the pair that is handed
  -- out, and so have the pairs that are stored then.
  pub get_or_create_keys-KeysMatch :
      (rng : Entropy) (id : Bytes) (keys : MockClient)
      → KeysMatch prims keys
      → let (key, keys') = get_or_create_keys prims rng id keys in
        KeysMatch prims keys' × (key.input_keypair.pk ≡ prims.public_from key.input_keypair.sk)
  unfolding get_or_create_keys generate_mock
  get_or_create_keys-KeysMatch rng id keys h = elim (Option-cases (lookup id keys)) [
    | inl new ↦ rw (new, get_or_create_keys) (generated-KeysMatch rng id keys h, refl)
    | inr (key, old) ↦ rw (old, get_or_create_keys) (h, h id key old)
  ]
