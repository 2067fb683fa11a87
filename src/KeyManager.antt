-- ===== src/KeyManager.antt =====
-- ekiden_keymanager/src/api.rs and client.rs: the keys of a contract, and the mock client that makes
-- them up when a contract is first asked for. What the system's random source yields is an argument.
pub mod Laws
use oasis_chain.Prelude.{
  ℕ, ◌≡◌, [], Bytes, replicate, Option, none, some, Dict, lookup, insert, bytes_key,
}
use oasis_chain.Mrae.{Primitives}

pub record InputKeyPair : Type 0 where
  pub pk : Bytes
  pub sk : Bytes

pub record ContractKey : Type 0 where
  pub input_keypair : InputKeyPair
  pub state_key : Bytes
  pub checksum : Bytes

pub record SignedPublicKey : Type 0 where
  pub key : Bytes
  pub checksum : Bytes
  pub signature : Bytes

-- The bytes drawn for one call of `generate_mock`: a secret key and a state key.
pub record Entropy : Type 0 where
  pub secret : Bytes
  pub state_key : Bytes

-- `ContractKey::new`
unfoldable pub contract_key : Bytes → Bytes → Bytes → Bytes → ContractKey
contract_key pk sk k sum = record {
  input_keypair = record { pk = pk; sk = sk };
  state_key = k;
  checksum = sum;
}

-- `ContractKey::from_public_key`
unfoldable pub from_public_key : Bytes → Bytes → ContractKey
from_public_key k sum = record {
  input_keypair = record { pk = k; sk = replicate 32 0 };
  state_key = replicate 32 0;
  checksum = sum;
}

-- `MockClient::keys`
abbrev pub MockClient : Type 0
MockClient = Dict Bytes ContractKey

abbrev pub no_keys : MockClient
no_keys = []

module _ (prims : Primitives) where
  open prims use {public_from}

  unfoldable pub generate_mock : Entropy → ContractKey
  unfolding contract_key
  generate_mock rng = contract_key (public_from rng.secret) rng.secret rng.state_key []

  unfoldable pub get_or_create_keys : Entropy → Bytes → MockClient → ContractKey × MockClient
  get_or_create_keys rng contract_id keys = elim (lookup contract_id keys) [
    | some key ↦ (key, keys)
    | none ↦ let key = generate_mock rng in (key, insert contract_id key keys)
  ]

  unfoldable pub get_public_key : Entropy → Bytes → MockClient → Option SignedPublicKey × MockClient
  get_public_key rng contract_id keys =
      let (key, keys') = get_or_create_keys rng contract_id keys in
      (
        some (record { key = key.input_keypair.pk; checksum = []; signature = replicate 64 0 }),
        keys',
      )
