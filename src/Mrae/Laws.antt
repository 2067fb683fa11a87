-- ===== src/Mrae/Laws.antt =====
-- Two parties agree on the symmetric key (ekiden_crypto/src/mrae/deoxysii.rs).
use oasis_chain.Prelude.{◌≡◌, Bytes, ok, ◌>>=◌}
use oasis_chain.Mrae.{Primitives, derive_symmetric_key, box_seal, box_open}

module _ (prims : Primitives) where
  open prims use {public_from, diffie_hellman_comm}

  pub derive_symmetric_key_comm :
      (a b : Bytes)
      → derive_symmetric_key prims (public_from b) a ≡ derive_symmetric_key prims (public_from a) b
  unfolding derive_symmetric_key
  derive_symmetric_key_comm a b = rw (diffie_hellman_comm a b)

  -- What one party seals for another's public key, the other opens with the first one's.
  pub box_open-box_seal :
      (nonce plaintext additional_data a b : Bytes)
      → (box_seal prims nonce plaintext additional_data (public_from b) a >>= λ sealed.
          box_open prims nonce sealed additional_data (public_from a) b)
        ≡ ok plaintext
  unfolding box_seal box_open
  box_open-box_seal nonce plaintext additional_data a b = rw (
    derive_symmetric_key_comm a b,
    prims.unseal-seal (derive_symmetric_key prims (public_from a) b) nonce plaintext
        additional_data,
  )
