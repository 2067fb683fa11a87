-- ===== src/Parity.antt =====
-- src/parity.rs: the back end that states are opened on, which is a cache that holds nothing. The
-- trait is `ethcore`'s, with its types as parameters; the calls that change the back end hand it back.
use oasis_chain.Prelude.{ℕ, Bool, false, Option, none, Result, panic}

-- `ethcore::state::backend::Backend`, for back ends `B`.
pub record Backend (HashDb Account Code B : Type 0) : Type 1 where
  pub as_hashdb : B → Result (Unit {0}) HashDb
  pub as_hashdb_mut : B → Result (Unit {0}) HashDb
  pub add_to_account_cache : ℕ → Option Account → Bool → B → B
  pub cache_code : ℕ → Code → B → B
  pub get_cached_account : B → ℕ → Option (Option Account)
  pub get_cached : (U : Type 0) → B → ℕ → (Option Account → U) → Option U
  pub get_cached_code : B → ℕ → Option Code
  pub note_non_null_account : ℕ → B → B
  pub is_known_null : B → ℕ → Bool

pub data NullBackend : Type 0 where
  null_backend : NullBackend

-- `impl Backend for NullBackend`
unfoldable pub null_backend_impl :
    (HashDb Account Code : Type 0) → Backend HashDb Account Code NullBackend
null_backend_impl HashDb Account Code = record {
  as_hashdb = λ b. panic;
  as_hashdb_mut = λ b. panic;
  add_to_account_cache = λ address account modified b. b;
  cache_code = λ hash code b. b;
  get_cached_account = λ b address. none;
  get_cached = λ U b address f. none;
  get_cached_code = λ b hash. none;
  note_non_null_account = λ address b. b;
  is_known_null = λ b address. false;
}
