-- ===== src/ConfidentialCtx/Storage.antt =====
-- Encrypted contract storage (src/confidential/confidential_ctx.rs).
use oasis_chain.Prelude.{
  suc, ◌+◌, ◌^◌, ◌<◌, ◌≡◌, ◌≢◌, refl, ap, sym, ◌∙◌, Option, none, some, List, [], ◌∷◌, ◌++◌, Bytes,
  AreBytes, length, ok, arith, true,
}
use mathlib.Core.Option
use oasis_chain.Nonce
use oasis_chain.Nonce.{Nonce, NonceError, Counter32, nonce_size, increment}
use oasis_chain.Nonce.Sequence.{increments, increments-distinct, increments-keep}
use oasis_chain.Nonce.Steps.{increments-suc, increments-then}
use oasis_chain.Mrae.{Primitives}
use oasis_chain.KeyManager.{ContractKey, Entropy, MockClient}
use oasis_chain.KeyManager.Laws.{requests, get_or_create_keys-stable}
use oasis_chain.ConfidentialCtx.{
  ConfidentialCtx, storage_nonce, swap_contract, activate, encrypt_storage_value,
  decrypt_storage_value, encrypt_value, then_increment,
}
use oasis_chain.ConfidentialCtx.Stored.{nonce_part, nonce_part-stored, decrypt-stored}
use oasis_chain.ConfidentialCtx.Invariant.{IsConsistent, Storage}

module _ (prims : Primitives) where
  open prims use {seal, unseal, length-seal, unseal-seal}

  module _ (order : Counter32) where
    encrypt_value-stored :
        (ctx : ConfidentialCtx) (n : Nonce) (key storage_key bytes stored : Bytes)
        → (encrypt_value prims order (some n) (some key) ctx storage_key bytes).0 ≡ ok stored
        → stored ≡ seal key n.current_value bytes storage_key ++ n.current_value
    unfolding encrypt_value then_increment
    encrypt_value-stored ctx n key storage_key bytes stored e = ground arith

    value_round_trip :
        (ctx ctx' : ConfidentialCtx) (prev storage_key bytes stored : Bytes)
        (contract : Option (Bytes × ContractKey)) (cipher : Option Bytes) (n : Option Nonce)
        → Storage prims prev contract cipher n
        → (encrypt_value prims order n cipher ctx storage_key bytes).0 ≡ ok stored
        → ctx'.d2 ≡ cipher
        → decrypt_storage_value prims ctx' storage_key stored ≡ ok bytes
    unfolding encrypt_value
    value_round_trip ctx ctx' prev k bytes stored none none none st e ed = cc
    value_round_trip ctx ctx' prev k bytes stored (some (a, ck)) (some key) (some n) st e ed =
        rw (encrypt_value-stored ctx n key k bytes stored e)
          (decrypt-stored prims ctx' key n.current_value bytes k st.2.current_size ed)
    value_round_trip ctx ctx' prev k bytes stored none none (some n) st e ed = absurd st
    value_round_trip ctx ctx' prev k bytes stored none (some d) n st e ed = absurd st
    value_round_trip ctx ctx' prev k bytes stored (some _) none n st e ed = absurd st
    value_round_trip ctx ctx' prev k bytes stored (some _) (some _) none st e ed = absurd st

    -- A value that a consistent context encrypted under a storage key decrypts to itself under that
    -- key, in any context that has the same cipher.
    pub storage_round_trip :
        (ctx ctx' : ConfidentialCtx) (storage_key bytes stored : Bytes)
        → IsConsistent prims ctx
        → (encrypt_storage_value prims order ctx storage_key bytes).0 ≡ ok stored
        → ctx'.d2 ≡ ctx.d2
        → decrypt_storage_value prims ctx' storage_key stored ≡ ok bytes
    unfolding encrypt_storage_value
    storage_round_trip ctx ctx' storage_key bytes stored c e ed =
        value_round_trip ctx ctx' _ storage_key bytes stored _ _ _ c.storage e ed

    -- The context after values have been encrypted.
    unfoldable pub after_values : List (Bytes × Bytes) → ConfidentialCtx → ConfidentialCtx
    after_values [] ctx = ctx
    after_values ((storage_key, bytes) ∷ values) ctx =
        after_values values (encrypt_storage_value prims order ctx storage_key bytes).1

    then_increment-ok :
        {A : Type 0} (n m : Nonce) (put : Nonce → ConfidentialCtx) (value : A)
        → increment order n ≡ (ok tt, m)
        → then_increment prims order n put value ≡ (ok value, put m)
    unfolding then_increment
    then_increment-ok n m put value e = ground arith

    encrypt_value-steps :
        (ctx : ConfidentialCtx) (n : Nonce) (key storage_key bytes : Bytes)
        → ctx.next_storage_nonce ≡ some n
        → ctx.d2 ≡ some key
        → encrypt_storage_value prims order ctx storage_key bytes
          ≡ then_increment prims order n
              (λ m. record ctx { next_storage_nonce = some m })
              (seal key n.current_value bytes storage_key ++ n.current_value)
    unfolding encrypt_storage_value encrypt_value
    encrypt_value-steps ctx n key storage_key bytes en ed =
        ap (λ o. encrypt_value prims order o ctx.d2 ctx storage_key bytes) en
        ∙ ap (λ o. encrypt_value prims order (some n) o ctx storage_key bytes) ed

    after_values-nonce :
        (values : List (Bytes × Bytes)) (ctx : ConfidentialCtx) (n : Nonce) (key : Bytes)
        → ctx.next_storage_nonce ≡ some n
        → ctx.d2 ≡ some key
        → (increments order (length values) n).0 ≡ ok tt
        → ((after_values values ctx).next_storage_nonce
            ≡ some (increments order (length values) n).1)
          × ((after_values values ctx).d2 ≡ some key)
    unfolding after_values increments
    after_values-nonce [] ctx n key en ed h = (en, ed)
    after_values-nonce ((k, bytes) ∷ values) ctx n key en ed h =
        let (m, first, rest) = increments-suc order (length values) n h in
        let stored = seal key n.current_value bytes k ++ n.current_value in
        let stepped =
          encrypt_value-steps ctx n key k bytes en ed
          ∙ then_increment-ok n m (λ (x : Nonce). record ctx { next_storage_nonce = some x }) stored
              first in
        let next = record ctx { next_storage_nonce = some m } in
        let all_ok = sym (ap (λ (r : _ × Nonce). r.0) rest) ∙ h in
        let ih = after_values-nonce values next m key refl ed all_ok in
        (
          ap (λ (r : _ × ConfidentialCtx). (after_values values r.1).next_storage_nonce) stepped
              ∙ ih.0
              ∙ ap (λ (r : _ × Nonce). some r.1) (sym rest),
          ap (λ (r : _ × ConfidentialCtx). (after_values values r.1).d2) stepped ∙ ih.1,
        )

    -- The value that is encrypted after others, from a new storage nonce on, fewer than 2 ^ 32 - 1
    -- in all: it is stored, and ends in the nonce after as many increments.
    stored-after :
        (values : List (Bytes × Bytes)) (ctx : ConfidentialCtx) (v key storage_key bytes : Bytes)
        → ctx.next_storage_nonce ≡ some (Nonce.new v)
        → ctx.d2 ≡ some key
        → length v ≡ nonce_size
        → AreBytes v
        → length values + 1 < 2 ^ 32
        → (stored : Bytes) × ((encrypt_storage_value prims order
              (after_values values ctx)
              storage_key
              bytes).0
            ≡ ok stored)
          × (nonce_part stored ≡ (increments order (length values) (Nonce.new v)).1.current_value)
    stored-after values ctx v key k bytes en ed hv bv small =
        let here =
          (increments-distinct order v (length values) (suc (length values)) hv bv (omega arith)
            (omega arith)) in
        let (next, cipher) = after_values-nonce values ctx (Nonce.new v) key en ed here.0 in
        let n = (increments order (length values) (Nonce.new v)).1 in
        let fine : (increment order n).0 ≡ ok tt =
          sym (
            ap (λ (r : _ × Nonce). r.0)
              (increments-then order (length values) (Nonce.new v) here.0))
          ∙ here.1 in
        (
          seal key n.current_value bytes k ++ n.current_value,
          ap (λ (r : _ × ConfidentialCtx). r.0)
              (encrypt_value-steps (after_values values ctx) n key k bytes next cipher
                ∙ then_increment-ok n (increment order n).1 _ _
                    (λ i. (fine i, (increment order n).1))),
          nonce_part-stored prims key n.current_value bytes k
              (increments-keep order v (length values) hv bv).3,
        )

    -- Where a context has a cipher and a new storage nonce of 15 bytes, two values that are stored
    -- after different numbers of stored values, fewer than 2 ^ 32 - 1, end in different nonces.
    pub storage_nonces-distinct :
        (earlier later : List (Bytes × Bytes)) (ctx : ConfidentialCtx)
        (v key k bytes k' bytes' : Bytes)
        → ctx.next_storage_nonce ≡ some (Nonce.new v)
        → ctx.d2 ≡ some key
        → length v ≡ nonce_size
        → AreBytes v
        → length earlier < length later
        → length later + 1 < 2 ^ 32
        → (one two : Bytes) × ((encrypt_storage_value prims order
              (after_values earlier ctx)
              k
              bytes).0
            ≡ ok one)
          × ((encrypt_storage_value prims order (after_values later ctx) k' bytes').0 ≡ ok two)
          × (nonce_part one ≢ nonce_part two)
    storage_nonces-distinct earlier later ctx v key k bytes k' bytes' en ed hv bv before small =
        let (one, e1, n1) = stored-after earlier ctx v key k bytes en ed hv bv (omega arith) in
        let (two, e2, n2) = stored-after later ctx v key k' bytes' en ed hv bv small in
        let apart =
          (increments-distinct order v (length earlier) (length later) hv bv before
            (omega arith)).2 in
        (one, two, e1, e2, λ same. apart (sym n1 ∙ same ∙ n2))

  swap_contract-same :
      (ctx ctx' : ConfidentialCtx) (c : Option (Bytes × ContractKey))
      → ctx.prev_block_hash ≡ ctx'.prev_block_hash
      → ((swap_contract prims ctx c).1.d2 ≡ (swap_contract prims ctx' c).1.d2)
        × ((swap_contract prims ctx c).1.next_storage_nonce
            ≡ (swap_contract prims ctx' c).1.next_storage_nonce)
  unfolding swap_contract
  swap_contract-same ctx ctx' c e = (
    refl,
    ap
        (λ (hash : Bytes).
          Option.map (λ (x : Bytes × ContractKey). Nonce.new (storage_nonce prims hash x.0)) c)
        e,
  )

  -- Activating a contract again, on the same block hash and after any requests to the key manager,
  -- brings back its cipher and starts its storage nonce again at the first value, whatever was
  -- stored.
  pub activate-restarts :
      (rng rng' : Entropy) (ctx later : ConfidentialCtx) (keys : MockClient) (address : Bytes)
      (between : List (Entropy × Bytes))
      → later.prev_block_hash ≡ ctx.prev_block_hash
      → let (_, first, keys') = activate prims rng ctx keys (some address) in
        let (_, again, _) =
          activate prims rng' later (requests prims between keys') (some address) in
        (again.d2 ≡ first.d2) × (again.next_storage_nonce ≡ first.next_storage_nonce)
  unfolding activate
  activate-restarts rng rng' ctx later keys address between e =
      let kept = get_or_create_keys-stable prims rng rng' (prims.keccak address) between keys in
      rw (ap (λ (r : ContractKey × MockClient). r.0) kept) (
        swap_contract-same (record later { activated = true }) (record ctx { activated = true }) _
          e)
