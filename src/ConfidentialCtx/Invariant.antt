-- ===== src/ConfidentialCtx/Invariant.antt =====
-- The invariant of a confidential context (src/confidential/confidential_ctx.rs), which keeps the
-- `expect`s and `unwrap`s on the cipher and on the nonces from panicking.
use oasis_chain.Prelude.{
  ◌^◌, ◌<◌, ◌≡◌, ◌≢◌, refl, ap, sym, subst, ◌∙◌, inl, inr, true, Option, none, some, List, [], ◌∷◌,
  ◌++◌, Bytes, AreBytes, All, length, take, replicate, length-append, length-take, All-append,
  All-take, panic, arith, Result-cases, is_some,
}
use oasis_chain.Nonce
use oasis_chain.Nonce.{Nonce, Counter32, nonce_size, increment}
use oasis_chain.Nonce.WellFormed.{IsNonce, new-IsNonce, increment-IsNonce, increment-new}
use oasis_chain.Mrae.{Primitives, key_size, box_seal}
use oasis_chain.Encryption.{Decryption, encrypt, decrypt}
use oasis_chain.Encryption.Laws.{decrypt-nonce}
use oasis_chain.KeyManager.{ContractKey, Entropy, MockClient}
use oasis_chain.ConfidentialCtx
use oasis_chain.ConfidentialCtx.{
  ConfidentialCtx, storage_nonce, swap_contract, activate, deactivate, encrypt_session,
  decrypt_session, encrypt_storage_value, is_encrypting, encrypt_for, open_channel, decrypt_from,
  encrypt_value, then_increment,
}
use oasis_chain.ConfidentialCtx.Operations.{
  Call, activates, deactivates, encrypts_session, decrypts_session, encrypts_storage_value, IsInput,
  step, run,
}

-- The nonce is there exactly where the peer's key is, and is well formed.
abbrev pub Channel : Option Bytes → Option Nonce → Type 0
Channel none none = Unit
Channel none (some n) = ⊥
Channel (some key) none = ⊥
Channel (some key) (some n) = IsNonce n

module _ (prims : Primitives) where
  open prims use {sha512_trunc256, length-sha512_trunc256, sha512_trunc256-AreBytes}

  -- The cipher and the storage nonce are there exactly where the contract is; the cipher has the
  -- contract's state key, and the nonce started at the value for the block and the contract.
  abbrev pub Storage : Bytes → Option (Bytes × ContractKey) → Option Bytes → Option Nonce → Type 0
  Storage prev none none none = Unit
  Storage prev (some (address, key)) (some cipher) (some n) =
      (cipher ≡ take key_size key.state_key)
      × (n.start_value ≡ storage_nonce prims prev address)
      × IsNonce n
  Storage prev _ _ _ = ⊥

  pub record IsConsistent (ctx : ConfidentialCtx) : Type 0 where
    pub channel : Channel ctx.peer_public_key ctx.next_nonce
    pub storage : Storage ctx.prev_block_hash ctx.contract ctx.d2 ctx.next_storage_nonce

  length-storage_nonce :
      (prev address : Bytes) → length (storage_nonce prims prev address) ≡ nonce_size
  unfolding storage_nonce
  length-storage_nonce prev address = omega (
    arith,
    length-append (take Nonce.tag_size (sha512_trunc256 (prev ++ address))) (replicate 4 0),
    length-take Nonce.tag_size (sha512_trunc256 (prev ++ address)),
    length-sha512_trunc256 (prev ++ address),
  )

  storage_nonce-AreBytes : (prev address : Bytes) → AreBytes (storage_nonce prims prev address)
  unfolding storage_nonce
  storage_nonce-AreBytes prev address =
      All-append _ (take Nonce.tag_size (sha512_trunc256 (prev ++ address))) (replicate 4 0)
        (All-take _ Nonce.tag_size _ (sha512_trunc256-AreBytes (prev ++ address))) (omega arith)

  pub new-IsConsistent : (prev : Bytes) → IsConsistent (ConfidentialCtx.new prev)
  unfolding ConfidentialCtx.new
  new-IsConsistent prev = record { channel = tt; storage = tt }

  swap_contract-IsConsistent :
      (ctx : ConfidentialCtx) (contract : Option (Bytes × ContractKey))
      → Channel ctx.peer_public_key ctx.next_nonce
      → IsConsistent (swap_contract prims ctx contract).1
  unfolding swap_contract
  swap_contract-IsConsistent ctx none h = record { channel = h; storage = tt }
  swap_contract-IsConsistent ctx (some (address, key)) h = record {
    channel = h;
    storage = (
      refl,
      refl,
      new-IsNonce (storage_nonce prims ctx.prev_block_hash address)
          (length-storage_nonce ctx.prev_block_hash address)
          (storage_nonce-AreBytes ctx.prev_block_hash address),
    );
  }

  activate-IsConsistent :
      (rng : Entropy) (ctx : ConfidentialCtx) (keys : MockClient) (contract : Option Bytes)
      → Channel ctx.peer_public_key ctx.next_nonce
      → IsConsistent (activate prims rng ctx keys contract).1
  unfolding activate
  activate-IsConsistent rng ctx keys none h = swap_contract-IsConsistent _ none h
  activate-IsConsistent rng ctx keys (some a) h = swap_contract-IsConsistent _ (some (a, _)) h

  module _ (order : Counter32) where
    encrypt_for-IsConsistent :
        (ctx : ConfidentialCtx) (bytes : Bytes) (key : Option Bytes)
        (contract : Option (Bytes × ContractKey)) (n : Option Nonce)
        → ctx.peer_public_key ≡ key
        → Channel key n
        → IsConsistent ctx
        → IsConsistent (encrypt_for prims order key contract n ctx bytes).1
    unfolding encrypt_for encrypt box_seal then_increment
    encrypt_for-IsConsistent ctx bytes (some key) (some (_, ck)) (some n) e h v = record {
      channel =
          subst (λ (k : Option Bytes). Channel k (some (increment order n).1)) (sym e)
            (increment-IsNonce order n h).1;
      storage = v.storage;
    }
    encrypt_for-IsConsistent ctx bytes none contract n e h v = v
    encrypt_for-IsConsistent ctx bytes (some key) none n e h v = v
    encrypt_for-IsConsistent ctx bytes (some key) (some c) none e h v = v

    open_channel-IsConsistent :
        (ctx : ConfidentialCtx) (d : Decryption) (v : Bytes)
        → length v ≡ nonce_size
        → AreBytes v
        → d.nonce ≡ Nonce.new v
        → IsConsistent ctx
        → IsConsistent (open_channel prims order ctx d).1
    unfolding open_channel
    open_channel-IsConsistent ctx d v h b e c =
        let (n, done, good) = increment-new order v h b in
        let stepped = ap (increment order) e ∙ done in
        rw (stepped, open_channel)
          (record {
            channel = subst IsNonce (sym (ap (λ (r : _ × Nonce). r.1) stepped)) good;
            storage = c.storage;
          })

    decrypt_from-IsConsistent :
        (ctx : ConfidentialCtx) (payload : Bytes) (contract : Option (Bytes × ContractKey))
        → AreBytes payload
        → length payload < 2 ^ 64
        → IsConsistent ctx
        → IsConsistent (decrypt_from prims order contract ctx payload).1
    unfolding decrypt_from
    decrypt_from-IsConsistent ctx payload none b small c = c
    decrypt_from-IsConsistent ctx payload (some (_, ck)) b small c =
        elim (Result-cases (decrypt prims (some payload) ck.input_keypair.sk)) [
          | inl (d, e) ↦
              let (v, h, vb, same) = decrypt-nonce prims payload ck.input_keypair.sk d b small e in
              rw (e, decrypt_from) (open_channel-IsConsistent ctx d v h vb same c)
          | inr (inl (_, e)) ↦ rw (e, decrypt_from) c
          | inr (inr e) ↦ rw (e, decrypt_from) c
        ]

    -- The stored value is encrypted under the contract's cipher; what is left satisfies the
    -- invariant, and the call panics only without a contract.
    encrypt_value-IsConsistent :
        (ctx : ConfidentialCtx) (storage_key bytes : Bytes)
        (contract : Option (Bytes × ContractKey)) (cipher : Option Bytes) (n : Option Nonce)
        → ctx.contract ≡ contract
        → ctx.d2 ≡ cipher
        → Storage ctx.prev_block_hash contract cipher n
        → Channel ctx.peer_public_key ctx.next_nonce
        → IsConsistent ctx
        → let (r, ctx') = encrypt_value prims order n cipher ctx storage_key bytes in
          IsConsistent ctx' × (is_some contract ≡ true → r ≢ panic)
    unfolding encrypt_value then_increment
    encrypt_value-IsConsistent ctx k bytes none none none ec ed st ch c = (c, λ h. cc)
    encrypt_value-IsConsistent ctx k bytes (some (a, ck)) (some key) (some n) ec ed st ch c =
        let (fine, good, same) = increment-IsNonce order n st.2 in
        (
          record {
            channel = ch;
            storage =
                subst
                  (λ (x : Option (Bytes × ContractKey)).
                    Storage ctx.prev_block_hash x ctx.d2 (some (increment order n).1))
                  (sym ec)
                  (subst
                    (λ (x : Option Bytes).
                      Storage ctx.prev_block_hash (some (a, ck)) x (some (increment order n).1))
                    (sym ed) (st.0, same ∙ st.1, good));
          },
          λ _. ground arith,
        )
    encrypt_value-IsConsistent ctx k bytes none none (some n) ec ed st ch c = absurd st
    encrypt_value-IsConsistent ctx k bytes none (some d) n ec ed st ch c = absurd st
    encrypt_value-IsConsistent ctx k bytes (some _) none n ec ed st ch c = absurd st
    encrypt_value-IsConsistent ctx k bytes (some _) (some _) none ec ed st ch c = absurd st

    -- Each call keeps the invariant, whatever its outcome.
    pub step-IsConsistent :
        (call : Call) (s : ConfidentialCtx × MockClient)
        → IsInput call
        → IsConsistent s.0
        → IsConsistent (step prims order call s).0
    unfolding step encrypt_session decrypt_session encrypt_storage_value deactivate
    step-IsConsistent (activates rng contract) (ctx, keys) h c =
        activate-IsConsistent rng ctx keys contract c.channel
    step-IsConsistent deactivates (ctx, keys) h c = record { channel = tt; storage = tt }
    step-IsConsistent (encrypts_session bytes) (ctx, keys) h c =
        encrypt_for-IsConsistent ctx bytes _ _ _ refl c.channel c
    step-IsConsistent (decrypts_session payload) (ctx, keys) h c =
        decrypt_from-IsConsistent ctx payload ctx.contract h.0 h.1 c
    step-IsConsistent (encrypts_storage_value storage_key bytes) (ctx, keys) h c =
        (encrypt_value-IsConsistent ctx storage_key bytes _ _ _ refl refl c.storage c.channel c).0

    run-keeps :
        (calls : List Call) (s : ConfidentialCtx × MockClient)
        → All IsInput calls
        → IsConsistent s.0
        → IsConsistent (run prims order calls s).0
    unfolding run
    run-keeps [] s h c = c
    run-keeps (call ∷ calls) s h c =
        run-keeps calls (step prims order call s) h.1 (step-IsConsistent call s h.0 c)

    -- After any sequence of calls from a new context, with payloads of fewer than 2 ^ 64 bytes: the
    -- cipher, keyed with the contract's state key, and the storage nonce, started at the value for
    -- the block and the contract, are there exactly where a contract is; the session nonce is there
    -- exactly where the peer's key is.
    pub run-IsConsistent :
        (prev : Bytes) (keys : MockClient) (calls : List Call)
        → All IsInput calls
        → IsConsistent (run prims order calls (ConfidentialCtx.new prev, keys)).0
    run-IsConsistent prev keys calls h = run-keeps calls _ h (new-IsConsistent prev)

    -- A consistent context that is encrypting does not panic when it encrypts a storage value.
    encrypt_storage_value-ne-panic :
        (ctx : ConfidentialCtx) (storage_key bytes : Bytes)
        → IsConsistent ctx
        → is_encrypting ctx ≡ true
        → (encrypt_storage_value prims order ctx storage_key bytes).0 ≢ panic
    unfolding encrypt_storage_value is_encrypting
    encrypt_storage_value-ne-panic ctx storage_key bytes c h =
        (encrypt_value-IsConsistent ctx storage_key bytes _ _ _ refl refl c.storage c.channel c).1
          (ground arith)
