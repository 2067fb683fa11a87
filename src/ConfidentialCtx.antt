-- ===== src/ConfidentialCtx.antt =====
-- src/confidential/confidential_ctx.rs: the keys and nonces of a confidential transaction.
-- An instance of `DeoxysII` is known by its key; the key manager, which the source shares by an
-- `Arc`, is an argument and a result of `activate`, the one method that uses it.
pub mod Operations
pub mod Invariant
pub mod Stored
pub mod Storage
pub mod Session
mod Tests
use oasis_chain.Prelude.{
  ℕ, ◌+◌, ◌-◌, ◌≡◌, Bool, true, false, not, ◌&&◌, ◌||◌, Option, none, some, [], ◌++◌, Bytes, length,
  take, drop, replicate, ltb, if◌then◌else◌, Result, ok, err, panic, unwrap, is_some, guard, ◌>>=◌,
  ◌>>◌, bytes_key,
}
use mathlib.Core.Option
use oasis_chain.Nonce
use oasis_chain.Nonce.{Nonce, NonceError, Counter32, nonce_size, increment}
use oasis_chain.Payload.{CryptoError}
use oasis_chain.Mrae.{Primitives, key_size, tag_size}
use oasis_chain.Encryption.{Decryption, encrypt, decrypt}
use oasis_chain.KeyManager.{ContractKey, Entropy, MockClient, get_or_create_keys}

-- `Error::Confidential`, by the message that it carries.
pub data CtxError : Type 0 where
  -- Which of the peer's key, the contract and the nonce are missing.
  cannot_encrypt_session : Bool → Bool → Bool → CtxError
  crypto : CryptoError → CtxError
  nonce_error : NonceError → CtxError
  truncated_ciphertext : CtxError

pub record AuthenticatedPayload : Type 0 where
  pub decrypted_data : Bytes
  pub additional_data : Bytes

pub record ConfidentialCtx : Type 0 where
  pub peer_public_key : Option Bytes
  pub contract : Option (Bytes × ContractKey)
  pub next_nonce : Option Nonce
  pub activated : Bool
  pub prev_block_hash : Bytes
  pub d2 : Option Bytes
  pub next_storage_nonce : Option Nonce

-- `ConfidentialCtx::new`
unfoldable pub new : Bytes → ConfidentialCtx
new prev_block_hash = record {
  peer_public_key = none;
  contract = none;
  next_nonce = none;
  activated = false;
  prev_block_hash = prev_block_hash;
  d2 = none;
  next_storage_nonce = none;
}

-- `ConfidentialCtx::new_test`
unfoldable pub new_test :
    Option Bytes
    → Option (Bytes × ContractKey)
    → Option Nonce
    → Bool
    → Bytes
    → Option Bytes
    → Option Nonce
    → ConfidentialCtx
new_test peer_public_key contract next_nonce activated prev_block_hash d2 next_storage_nonce =
    record {
      peer_public_key = peer_public_key;
      contract = contract;
      next_nonce = next_nonce;
      activated = activated;
      prev_block_hash = prev_block_hash;
      d2 = d2;
      next_storage_nonce = next_storage_nonce;
    }

unfoldable pub is_encrypting : ConfidentialCtx → Bool
is_encrypting ctx = ctx.activated && is_some ctx.contract

unfoldable pub deactivate : ConfidentialCtx → ConfidentialCtx
deactivate ctx = record ctx {
  peer_public_key = none;
  contract = none;
  next_nonce = none;
  activated = false;
  d2 = none;
  next_storage_nonce = none;
}

unfoldable pub peer : ConfidentialCtx → Option Bytes
peer ctx = ctx.peer_public_key

module _ (prims : Primitives) where
  open prims use {seal, unseal, sha512_trunc256, keccak}

  -- H(prev_block_hash || address)[:11] || 0x00000000
  unfoldable pub storage_nonce : Bytes → Bytes → Bytes
  storage_nonce prev_block_hash address =
      take Nonce.tag_size (sha512_trunc256 (prev_block_hash ++ address))
      ++ replicate (nonce_size - Nonce.tag_size) 0

  unfoldable pub swap_contract :
      ConfidentialCtx → Option (Bytes × ContractKey) → Option Bytes × ConfidentialCtx
  unfolding storage_nonce Nonce.new
  swap_contract ctx contract = (
    Option.map (λ c. c.0) ctx.contract,
    record ctx {
      contract = contract;
      d2 = Option.map (λ c. take key_size c.1.state_key) contract;
      next_storage_nonce =
          Option.map (λ c. Nonce.new (storage_nonce ctx.prev_block_hash c.0)) contract;
    },
  )

  -- `activate`: the address of the contract before, the context and the key manager's keys.
  unfoldable pub activate :
      Entropy
      → ConfidentialCtx
      → MockClient
      → Option Bytes
      → Option Bytes × ConfidentialCtx × MockClient
  activate rng ctx keys none =
      let (old, ctx') = swap_contract (record ctx { activated = true }) none in (old, ctx', keys)
  activate rng ctx keys (some contract) =
      let contract_id = keccak contract in
      let (contract_key, keys') = get_or_create_keys prims rng contract_id keys in
      let (old, ctx') =
        swap_contract (record ctx { activated = true }) (some (contract, contract_key)) in
      (old, ctx', keys')

  unfoldable pub encrypt_storage_key : ConfidentialCtx → Bytes → Result CtxError Bytes
  encrypt_storage_key ctx bytes = do
    key ← unwrap ctx.d2
    ok (seal key (replicate nonce_size 0) bytes [])

  unfoldable pub decrypt_storage_value : ConfidentialCtx → Bytes → Bytes → Result CtxError Bytes
  decrypt_storage_value ctx storage_key bytes = do
    guard (not (ltb (length bytes) (tag_size + nonce_size))) truncated_ciphertext
    let nonce_offset = length bytes - nonce_size
    let nonce = drop nonce_offset bytes
    let ciphertext = take nonce_offset bytes
    key ← unwrap ctx.d2
    unwrap (unseal key nonce ciphertext storage_key)

  module _ (order : Counter32) where
    -- `self.next_nonce.increment()`, after which `value` is returned.
    then_increment {ℓ} :
        {A : Type ℓ} → Nonce → (Nonce → ConfidentialCtx) → A → Result CtxError A × ConfidentialCtx
    then_increment nonce put value =
        let (r, nonce') = increment order nonce in
        (elim r [ ok _ ↦ ok value | err e ↦ err (nonce_error e) | panic ↦ panic ], put nonce')

    encrypt_for :
        Option Bytes
        → Option (Bytes × ContractKey)
        → Option Nonce
        → ConfidentialCtx
        → Bytes
        → Result CtxError Bytes × ConfidentialCtx
    unfolding then_increment
    encrypt_for (some peer_public_key) (some (_, contract_key)) (some next_nonce) ctx bytes =
        elim (encrypt prims bytes next_nonce peer_public_key pk sk []) [
          | ok payload ↦ then_increment next_nonce (λ n. record ctx { next_nonce = some n }) payload
          | err e ↦ (err (crypto e), ctx)
          | panic ↦ (panic, ctx)
        ]
      where
        open contract_key.input_keypair use {pk, sk}
    encrypt_for peer_key contract next_nonce ctx bytes = (
      err (
          cannot_encrypt_session (not (is_some peer_key)) (not (is_some contract))
            (not (is_some next_nonce))),
      ctx,
    )

    unfoldable pub encrypt_session :
        ConfidentialCtx → Bytes → Result CtxError Bytes × ConfidentialCtx
    unfolding encrypt_for
    encrypt_session ctx bytes =
        encrypt_for ctx.peer_public_key ctx.contract ctx.next_nonce ctx bytes

    -- The peer's key is stored before the nonce is incremented, and the nonce after.
    open_channel :
        ConfidentialCtx → Decryption → Result CtxError AuthenticatedPayload × ConfidentialCtx
    open_channel ctx decryption =
        let (r, nonce) = increment order decryption.nonce in
        let ctx' = record ctx { peer_public_key = some decryption.peer_public_key } in
        elim r [
          | ok _ ↦ (
            ok (record { decrypted_data = decryption.plaintext; additional_data = decryption.aad }),
            record ctx' { next_nonce = some nonce },
          )
          | err e ↦ (err (nonce_error e), ctx')
          | panic ↦ (panic, ctx')
        ]

    decrypt_from :
        Option (Bytes × ContractKey)
        → ConfidentialCtx
        → Bytes
        → Result CtxError AuthenticatedPayload × ConfidentialCtx
    unfolding open_channel
    decrypt_from none ctx encrypted_payload = (panic, ctx)
    decrypt_from (some (_, contract_key)) ctx encrypted_payload =
        elim (decrypt prims (some encrypted_payload) contract_key.input_keypair.sk) [
          | ok decryption ↦ open_channel ctx decryption
          | err e ↦ (err (crypto e), ctx)
          | panic ↦ (panic, ctx)
        ]

    unfoldable pub decrypt_session :
        ConfidentialCtx → Bytes → Result CtxError AuthenticatedPayload × ConfidentialCtx
    unfolding decrypt_from
    decrypt_session ctx encrypted_payload = decrypt_from ctx.contract ctx encrypted_payload

    encrypt_value :
        Option Nonce
        → Option Bytes
        → ConfidentialCtx
        → Bytes
        → Bytes
        → Result CtxError Bytes × ConfidentialCtx
    unfolding then_increment
    encrypt_value (some next) (some key) ctx storage_key bytes =
        let nonce = next.current_value in
        let ciphertext = seal key nonce bytes storage_key ++ nonce in
        then_increment next (λ n. record ctx { next_storage_nonce = some n }) ciphertext
    encrypt_value next key ctx storage_key bytes = (panic, ctx)

    unfoldable pub encrypt_storage_value :
        ConfidentialCtx → Bytes → Bytes → Result CtxError Bytes × ConfidentialCtx
    unfolding encrypt_value
    encrypt_storage_value ctx storage_key bytes =
        encrypt_value ctx.next_storage_nonce ctx.d2 ctx storage_key bytes
