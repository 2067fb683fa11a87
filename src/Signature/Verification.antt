-- ===== src/Signature/Verification.antt =====
-- Which signatures ekiden_crypto/src/signature.rs accepts.
use oasis_chain.Prelude.{
  ◌-◌, ◌<◌, ◌≡◌, ◌↔◌, refl, ap, ◌∙◌, [], ◌∷◌, Bool, true, false, Bytes, AreBytes, IsByte, Option,
  none, some, ok, >>=-eq-ok, guard, unwrap, length, drop, ltb, ltb→lt, lt→ltb, arith, length-drop,
  All-drop, take-all,
}
use oasis_chain.Words.{le_value, slice, slice-in}
use oasis_chain.Mrae.{Primitives}
use oasis_chain.Signature.{
  WordReader, Ed25519, SignatureError, malleability_error, digest_bytes_list, sc_minimal, verify,
}
use oasis_chain.Signature.Scalar.{order, sc_minimal-ltb}

unwrap-eq-ok :
    {A : Type 0} (o : Option A) {a : A} → unwrap {E = SignatureError} o ≡ ok a → o ≡ some a
unwrap-eq-ok none h = cc
unwrap-eq-ok (some x) h = cc

guard-eq-ok : (b : Bool) (e : SignatureError) → guard b e ≡ ok tt → b ≡ true
guard-eq-ok true e h = refl
guard-eq-ok false e h = cc

module _ (prims : Primitives) (ed : Ed25519) where
  -- What it takes for a signature to be accepted.
  abbrev pub IsAccepted : Bytes → Bytes → Bytes → Bytes → Type 0
  IsAccepted signature pk context message =
      (pk' : Bytes) × (sig : Bytes) × (ed.public_from_bytes pk ≡ some pk')
      × (ed.signature_from_bytes signature ≡ some sig)
      × (le_value (drop 32 signature) < order)
      × (ed.verify pk' (digest_bytes_list prims (context ∷ message ∷ [])) sig ≡ true)

module _ (prims : Primitives) (reader : WordReader) (ed : Ed25519) where
  -- A signature of 64 bytes is accepted exactly where the public key and the signature decode, its
  -- second half is a number below the order of the curve, and the decoded signature is one of the
  -- digest of context and message under that key.
  pub verify-ok_iff :
      (signature pk context message : Bytes)
      → length signature ≡ 64
      → AreBytes signature
      → (verify ed prims reader signature pk context message ≡ ok tt)
        ↔ IsAccepted prims ed signature pk context message
  unfolding verify
  verify-ok_iff signature pk context message long bytes = (accepted, accepts)
    where
      scalar : slice {E = SignatureError} signature 32 (length signature) ≡ ok (drop 32 signature)
      scalar =
          slice-in signature 32 (length signature) (omega arith) (omega arith)
          ∙ ap ok (
              take-all (length signature - 32) (drop 32 signature)
                (omega (arith, length-drop 32 signature)))

      minimal :
          sc_minimal reader (drop 32 signature) ≡ ok (ltb (le_value (drop 32 signature)) order)
      minimal =
          sc_minimal-ltb reader (drop 32 signature) (omega (arith, length-drop 32 signature))
            (All-drop IsByte 32 signature bytes)

      accepted :
          verify ed prims reader signature pk context message ≡ ok tt
          → IsAccepted prims ed signature pk context message
      accepted e =
          let (pk', at_pk, e1) = >>=-eq-ok (unwrap (ed.public_from_bytes pk)) _ e in
          let (sig, at_sig, e2) = >>=-eq-ok (unwrap (ed.signature_from_bytes signature)) _ e1 in
          let e3 = rw (scalar, minimal) at e2 in
          let (_, small, e4) =
            >>=-eq-ok (guard (ltb (le_value (drop 32 signature)) order) malleability_error) _ e3 in
          (
            pk',
            sig,
            unwrap-eq-ok _ at_pk,
            unwrap-eq-ok _ at_sig,
            ltb→lt _ _ (guard-eq-ok _ _ small),
            guard-eq-ok _ _ e4,
          )

      accepts :
          IsAccepted prims ed signature pk context message
          → verify ed prims reader signature pk context message ≡ ok tt
      accepts (pk', sig, at_pk, at_sig, small, valid) =
          rw (at_pk, at_sig, scalar, minimal, lt→ltb _ _ small, valid) refl
