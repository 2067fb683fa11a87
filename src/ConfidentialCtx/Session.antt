-- ===== src/ConfidentialCtx/Session.antt =====
-- A session between a peer and a confidential contract (src/confidential/confidential_ctx.rs).
use oasis_chain.Prelude.{
  ◌+◌, ◌^◌, ◌<◌, ◌≡◌, refl, ap, sym, ◌∙◌, Option, some, [], Bytes, AreBytes, length, Result, ok,
  arith,
}
use oasis_chain.Nonce
use oasis_chain.Nonce.{Nonce, Counter32, nonce_size, increment}
use oasis_chain.Nonce.Sequence.{increment-twice}
use oasis_chain.Payload.{CryptoError}
use oasis_chain.Payload.Slices.{overhead}
use oasis_chain.Mrae.{Primitives, tag_size, box_seal}
use oasis_chain.Encryption.{Decryption, encrypt, decrypt}
use oasis_chain.Encryption.Laws.{decrypt-encrypt}
use oasis_chain.KeyManager.{ContractKey}
use oasis_chain.ConfidentialCtx.{
  ConfidentialCtx, encrypt_session, decrypt_session, encrypt_for, decrypt_from, open_channel,
  then_increment,
}

module _ (prims : Primitives) (order : Counter32) where
  open prims use {public_from}

  encrypt-total :
      (plaintext : Bytes) (nonce : Nonce) (peer_key public_key secret aad : Bytes)
      → (payload : Bytes) × (encrypt prims plaintext nonce peer_key public_key secret aad
          ≡ ok payload)
  unfolding encrypt box_seal
  encrypt-total plaintext nonce peer_key public_key secret aad = (_, refl)

  open_channel-opens :
      (ctx : ConfidentialCtx) (d : Decryption) (n : Nonce)
      → increment order d.nonce ≡ (ok tt, n)
      → open_channel prims order ctx d ≡ (
        ok (record { decrypted_data = d.plaintext; additional_data = d.aad }),
        record ctx { peer_public_key = some d.peer_public_key; next_nonce = some n },
      )
  unfolding open_channel
  open_channel-opens ctx d n step = ground arith

  decrypt_from-opens :
      (ctx : ConfidentialCtx) (address payload : Bytes) (key : ContractKey) (d : Decryption)
      (n : Nonce)
      → decrypt prims (some payload) key.input_keypair.sk ≡ ok d
      → increment order d.nonce ≡ (ok tt, n)
      → decrypt_from prims order (some (address, key)) ctx payload ≡ (
        ok (record { decrypted_data = d.plaintext; additional_data = d.aad }),
        record ctx { peer_public_key = some d.peer_public_key; next_nonce = some n },
      )
  unfolding decrypt_from open_channel
  decrypt_from-opens ctx address payload key d n e step =
      rw (e, decrypt_from) (open_channel-opens ctx d n step)

  encrypt_for-seals :
      (ctx : ConfidentialCtx) (peer_key address answer reply : Bytes)
      (contract : Option (Bytes × ContractKey)) (key : ContractKey) (n m : Nonce)
      → contract ≡ some (address, key)
      → encrypt prims answer n peer_key key.input_keypair.pk key.input_keypair.sk [] ≡ ok reply
      → increment order n ≡ (ok tt, m)
      → (encrypt_for prims order (some peer_key) contract (some n) ctx answer).0 ≡ ok reply
  unfolding encrypt_for then_increment
  encrypt_for-seals ctx peer_key address answer reply contract key n m ec e step =
      rw (ec, encrypt_for, e) (ground arith)

  -- In a context with a contract whose key pair matches: a request that the peer encrypted for the
  -- contract's public key under a nonce of 15 bytes is opened to its text, and the answer that is
  -- encrypted next is one that the peer decrypts, with the contract's public key and the nonce
  -- after the request's; where both payloads have fewer than 2 ^ 64 bytes.
  pub session_round_trip :
      (ctx : ConfidentialCtx) (address : Bytes) (key : ContractKey)
      (peer v request aad answer payload : Bytes)
      → ctx.contract ≡ some (address, key)
      → key.input_keypair.pk ≡ public_from key.input_keypair.sk
      → length v ≡ nonce_size
      → AreBytes v
      → overhead + (length request + tag_size) + length aad < 2 ^ 64
      → overhead + (length answer + tag_size) + 0 < 2 ^ 64
      → encrypt prims request (Nonce.new v) key.input_keypair.pk (public_from peer) peer aad
        ≡ ok payload
      → let (opened, ctx') = decrypt_session prims order ctx payload in
        let (sealed, ctx'') = encrypt_session prims order ctx' answer in
        (opened ≡ ok (record { decrypted_data = request; additional_data = aad }))
        × (reply : Bytes) × (sealed ≡ ok reply)
        × (decrypt prims (some reply) peer
            ≡ ok (record {
              plaintext = answer;
              nonce = Nonce.new (increment order (Nonce.new v)).1.current_value;
              peer_public_key = public_from key.input_keypair.sk;
              aad = [];
            }))
  unfolding decrypt_session encrypt_session Nonce.new
  session_round_trip ctx address key peer v request aad answer payload ec ek hv bv small small' e =
      let (n, m, first, second, hn) = increment-twice order v hv bv in
      let (reply, sent) = encrypt-total answer n (public_from peer) (public_from sk) sk [] in
      let received = rw e' at (decrypt-encrypt prims request (Nonce.new v) peer sk aad hv small) in
      let answered = rw sent at (decrypt-encrypt prims answer n sk peer [] hn small') in
      let sent' : encrypt prims answer n (public_from peer) key.input_keypair.pk sk [] ≡ ok reply =
        rw ek sent in
      let opened =
        ap (λ c. decrypt_from prims order c ctx payload) ec
        ∙ decrypt_from-opens ctx address payload key _ n received first in
      rw opened (
        refl,
        reply,
        encrypt_for-seals _ (public_from peer) address answer reply ctx.contract key n m ec sent'
            second,
        answered ∙ ap replied (sym (ap (λ (r : _ × Nonce). r.1.current_value) first)),
      )
    where
      replied : Bytes → Result CryptoError Decryption
      replied value = ok (record {
        plaintext = answer;
        nonce = Nonce.new value;
        peer_public_key = public_from key.input_keypair.sk;
        aad = [];
      })

      open key.input_keypair use {sk}

      e' :
          encrypt prims request (Nonce.new v) (public_from sk) (public_from peer) peer aad
          ≡ ok payload
      e' = rw ek at e
