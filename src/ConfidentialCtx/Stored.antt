-- ===== src/ConfidentialCtx/Stored.antt =====
-- The form of a stored value: ciphertext, tag and nonce (src/confidential/confidential_ctx.rs).
use oasis_chain.Prelude.{
  ◌+◌, ◌-◌, ◌≡◌, some, ◌++◌, Bytes, length, drop, length-append, take-append, drop-append, ok,
  le→ltb, arith,
}
use oasis_chain.Nonce.{nonce_size}
use oasis_chain.Mrae.{Primitives, tag_size}
use oasis_chain.ConfidentialCtx.{ConfidentialCtx, decrypt_storage_value}

-- The nonce at the end of ciphertext || tag || nonce.
abbrev pub nonce_part : Bytes → Bytes
nonce_part stored = drop (length stored - nonce_size) stored

module _ (prims : Primitives) where
  open prims use {seal, unseal, length-seal, unseal-seal}

  pub length-stored :
      (key nonce bytes storage_key : Bytes)
      → length nonce ≡ nonce_size
      → length (seal key nonce bytes storage_key ++ nonce) ≡ length bytes + tag_size + nonce_size
  length-stored key nonce bytes storage_key h = omega (
    arith,
    length-append (seal key nonce bytes storage_key) nonce,
    length-seal key nonce bytes storage_key,
  )

  pub stored-offset :
      (key nonce bytes storage_key : Bytes)
      → length nonce ≡ nonce_size
      → length (seal key nonce bytes storage_key)
        ≡ length (seal key nonce bytes storage_key ++ nonce) - nonce_size
  stored-offset key nonce bytes storage_key h =
      omega (arith, length-append (seal key nonce bytes storage_key) nonce)

  pub nonce_part-stored :
      (key nonce bytes storage_key : Bytes)
      → length nonce ≡ nonce_size
      → nonce_part (seal key nonce bytes storage_key ++ nonce) ≡ nonce
  nonce_part-stored key nonce bytes storage_key h =
      drop-append _ (seal key nonce bytes storage_key) nonce
        (stored-offset key nonce bytes storage_key h)

  pub decrypt-stored :
      (ctx : ConfidentialCtx) (key nonce bytes storage_key : Bytes)
      → length nonce ≡ nonce_size
      → ctx.d2 ≡ some key
      → decrypt_storage_value prims ctx storage_key (seal key nonce bytes storage_key ++ nonce)
        ≡ ok bytes
  unfolding decrypt_storage_value
  decrypt-stored ctx key nonce bytes storage_key h e = rw (
    le→ltb (length (seal key nonce bytes storage_key ++ nonce)) (tag_size + nonce_size)
        (omega (arith, length-stored key nonce bytes storage_key h)),
    e,
    nonce_part-stored key nonce bytes storage_key h,
    take-append _ (seal key nonce bytes storage_key) nonce
        (stored-offset key nonce bytes storage_key h),
    unseal-seal key nonce bytes storage_key,
  )
