-- ===== src/Oasis/PublishedKey.antt =====
-- What a client can do with the public key that src/impls/oasis.rs answers with.
use oasis_chain.Prelude.{◌+◌, ◌^◌, ◌<◌, ◌≡◌, refl, some, [], Bytes, AreBytes, length, ok, arith}
use oasis_chain.Nonce
use oasis_chain.Nonce.{Counter32, nonce_size}
use oasis_chain.Payload.Slices.{overhead}
use oasis_chain.Mrae.{Primitives, tag_size}
use oasis_chain.Encryption.{encrypt}
use oasis_chain.KeyManager.{
  Entropy, MockClient, SignedPublicKey, get_or_create_keys, get_public_key,
}
use oasis_chain.KeyManager.Laws.{KeysMatch, get_public_key-agrees, get_or_create_keys-KeysMatch}
use oasis_chain.ConfidentialCtx.{ConfidentialCtx, activate, swap_contract, decrypt_session}
use oasis_chain.ConfidentialCtx.Session.{session_round_trip}
use oasis_chain.Oasis.{public_key}

module _ (prims : Primitives) (order : Counter32) where
  public_key-KeysMatch :
      (rng : Entropy) (keys : MockClient) (address : Bytes)
      → KeysMatch prims keys
      → KeysMatch prims (public_key prims rng keys address).1
  unfolding public_key get_public_key
  public_key-KeysMatch rng keys address good =
      (get_or_create_keys-KeysMatch prims rng (prims.keccak address) keys good).0

  -- A request that a client encrypts for the public key that the RPC answers with, under a nonce of
  -- 15 bytes and in fewer than 2 ^ 64 bytes, is opened to its text by a context that activates the
  -- contract at that address afterwards; where the key manager's stored key pairs match.
  pub published_key_opens :
      (rng rng' : Entropy) (keys : MockClient) (ctx : ConfidentialCtx)
      (address peer v request aad payload : Bytes) (published : SignedPublicKey)
      → KeysMatch prims keys
      → (public_key prims rng keys address).0 ≡ some published
      → length v ≡ nonce_size
      → AreBytes v
      → overhead + (length request + tag_size) + length aad < 2 ^ 64
      → encrypt prims request (Nonce.new v) published.key (prims.public_from peer) peer aad
        ≡ ok payload
      → let (_, keys') = public_key prims rng keys address in
        let (_, ctx', _) = activate prims rng' ctx keys' (some address) in
        (decrypt_session prims order ctx' payload).0
        ≡ ok (record { decrypted_data = request; additional_data = aad })
  unfolding public_key activate swap_contract
  published_key_opens rng rng' keys ctx address peer v request aad payload published good e hv bv
        small sealed =
      let id = prims.keccak address in
      let keys' = (public_key prims rng keys address).1 in
      let key = (get_or_create_keys prims rng' id keys').0 in
      let ctx' = (activate prims rng' ctx keys' (some address)).1 in
      let agrees : key.input_keypair.pk ≡ published.key =
        get_public_key-agrees prims rng rng' id keys e in
      let match =
        (get_or_create_keys-KeysMatch prims rng' id keys'
          (public_key-KeysMatch rng keys address good)).1 in
      (session_round_trip prims order ctx' address key peer v request aad [] payload refl match hv
        bv small (omega arith) (rw agrees sealed)).0
