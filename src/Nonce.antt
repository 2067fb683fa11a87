-- ===== src/Nonce.antt =====
-- ekiden_crypto/src/mrae/nonce.rs: the 120-bit nonce with an 11-byte tag and a 32-bit counter.
-- The crate `byteorder`, which reads and writes the counter, is the interface `Counter32`.
pub mod Increment
pub mod Sequence
pub mod Steps
pub mod WellFormed
mod Tests
use oasis_chain.Prelude.{
  ℕ, ◌+◌, ◌-◌, ◌^◌, ◌<◌, ◌≡◌, Bool, true, false, Option, none, some, ◌++◌, Bytes, AreBytes,
  bytes_eq, length, take, drop, Result, ok, err, panic, unwrap, assert, guard, ◌>>=◌, ◌>>◌, ◌==◌,
  if◌then◌else◌, not,
}

abbrev pub nonce_size : ℕ
nonce_size = 15

abbrev pub tag_size : ℕ
tag_size = 11

-- `!(0 as u32)`
abbrev pub u32_max : ℕ
u32_max = 2 ^ 32 - 1

-- `read_u32` and `write_u32` at one byte order. What the nonce relies on: four bytes are written,
-- and each of the two functions undoes the other.
pub record Counter32 : Type 0 where
  pub read_u32 : Bytes → Option ℕ
  pub write_u32 : ℕ → Bytes
  pub length-write_u32 : (n : ℕ) → length (write_u32 n) ≡ 4
  pub write_u32-AreBytes : (n : ℕ) → AreBytes (write_u32 n)
  pub read_u32-write_u32 : (n : ℕ) → n < 2 ^ 32 → read_u32 (write_u32 n) ≡ some n
  pub write_u32-read_u32 :
      (bs : Bytes) → length bs ≡ 4 → AreBytes bs → (n : ℕ) × (n < 2 ^ 32) × (write_u32 n ≡ bs)

pub data NonceError : Type 0 where
  exhausted : NonceError

pub record Nonce : Type 0 where
  pub current_value : Bytes
  pub start_value : Bytes

-- `Nonce::new`
unfoldable pub new : Bytes → Nonce
new start_value = record { current_value = start_value; start_value = start_value }

-- The new counter: the next one, or 0 where the counter is about to overflow.
unfoldable pub next_counter : ℕ → ℕ
next_counter counter = if counter == u32_max then 0 else counter + 1

module _ (order : Counter32) where
  open order use {read_u32, write_u32}

  -- The value that `increment` would store.
  next_value : Bytes → Result NonceError Bytes
  unfolding next_counter
  next_value current_value = do
    counter ← unwrap (read_u32 (drop tag_size current_value))
    let new_value = take tag_size current_value ++ write_u32 (next_counter counter)
    assert (length new_value == nonce_size)
    ok new_value

  checked_value : Nonce → Result NonceError Bytes
  unfolding next_value
  checked_value n = do
    new_value ← next_value n.current_value
    guard (not (bytes_eq new_value n.start_value)) exhausted
    ok new_value

  -- `Nonce::increment`: how it ends, and the nonce that it leaves.
  unfoldable pub increment : Nonce → Result NonceError (Unit {0}) × Nonce
  unfolding checked_value
  increment n = elim (checked_value n) [
    | ok new_value ↦ (ok tt, record n { current_value = new_value })
    | err e ↦ (err e, n)
    | panic ↦ (panic, n)
  ]
