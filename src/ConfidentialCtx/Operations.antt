-- ===== src/ConfidentialCtx/Operations.antt =====
-- The calls of a confidential context (src/confidential/confidential_ctx.rs) in sequence, as the
-- transaction executor makes them.
use oasis_chain.Prelude.{◌^◌, ◌<◌, List, [], ◌∷◌, Bytes, AreBytes, length, Option}
use oasis_chain.Nonce.{Counter32}
use oasis_chain.Mrae.{Primitives}
use oasis_chain.KeyManager.{Entropy, MockClient}
use oasis_chain.ConfidentialCtx.{
  ConfidentialCtx, activate, deactivate, encrypt_session, decrypt_session, encrypt_storage_value,
}

-- The methods that change the context.
pub data Call : Type 0 where
  activates : Entropy → Option Bytes → Call
  deactivates : Call
  encrypts_session decrypts_session : Bytes → Call
  encrypts_storage_value : Bytes → Bytes → Call

-- A payload is a `Vec<u8>`: bytes, no more than a `usize` can count.
abbrev pub IsInput : Call → Type 0
IsInput (decrypts_session payload) = AreBytes payload × (length payload < 2 ^ 64)
IsInput _ = Unit

module _ (prims : Primitives) (order : Counter32) where
  unfoldable pub step : Call → ConfidentialCtx × MockClient → ConfidentialCtx × MockClient
  step (activates rng contract) (ctx, keys) =
      let (_, ctx', keys') = activate prims rng ctx keys contract in (ctx', keys')
  step deactivates (ctx, keys) = (deactivate ctx, keys)
  step (encrypts_session bytes) (ctx, keys) = ((encrypt_session prims order ctx bytes).1, keys)
  step (decrypts_session payload) (ctx, keys) = ((decrypt_session prims order ctx payload).1, keys)
  step (encrypts_storage_value storage_key bytes) (ctx, keys) =
      ((encrypt_storage_value prims order ctx storage_key bytes).1, keys)

  unfoldable pub run : List Call → ConfidentialCtx × MockClient → ConfidentialCtx × MockClient
  run [] s = s
  run (c ∷ cs) s = run cs (step c s)
