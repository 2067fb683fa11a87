-- ===== src/FixedBytes.antt =====
-- ekiden_crypto/src/bytes.rs: the types of a fixed number of bytes that `impl_bytes!` defines. A value
-- is its bytes; the decoder of hex digits (`rustc_hex`) and the deserializer's sequence are parameters.
pub mod Laws
mod Tests
use oasis_chain.Prelude.{
  ℕ, zero, suc, ◌+◌, ◌-◌, ◌/◌, ◌%◌, Bool, true, false, if◌then◌else◌, ◌==◌, ltb, Option, none, some,
  List, [], ◌∷◌, ◌++◌, take, drop, length, replicate, Bytes, bytes_eq, codes, Result, ok, err,
  panic, ◌>>=◌,
}

-- `rustc_hex::FromHexError`
pub data FromHexError : Type 0 where
  invalid_hex_character : ℕ → ℕ → FromHexError
  invalid_hex_length : FromHexError

-- `core::cmp::Ordering`
pub data Order : Type 0 where
  less equal greater : Order

-- `eq` and `cmp`, of the bytes in order.
unfoldable pub eq : Bytes → Bytes → Bool
eq a b = bytes_eq a b

unfoldable pub cmp : Bytes → Bytes → Order
cmp [] [] = equal
cmp [] (b ∷ bs) = less
cmp (a ∷ as') [] = greater
cmp (a ∷ as') (b ∷ bs) =
    let rest = cmp as' bs in if ltb a b then less else if ltb b a then greater else rest

-- `partial_cmp`
unfoldable pub partial_cmp : Bytes → Bytes → Option Order
partial_cmp a b = some (cmp a b)

-- `as_ref` and `into`: the bytes.
unfoldable as_ref : Bytes → Bytes
as_ref b = b

unfoldable pub into_array : Bytes → Bytes
into_array b = b

-- `serialize`; the serializer's `serialize_bytes` is a parameter.
unfoldable pub serialize {ℓ} : {S : Type ℓ} → (Bytes → S) → Bytes → S
unfolding as_ref
serialize serialize_bytes b = serialize_bytes (as_ref b)

-- A digit of `{:02x}`.
unfoldable pub hex_digit : ℕ → ℕ
hex_digit n = if ltb n 10 then b'0' + n else b'a' + (n - 10)

-- `LowerHex::fmt`
unfoldable pub lower_hex : Bytes → Bytes
unfolding hex_digit
lower_hex [] = []
lower_hex (b ∷ bs) = hex_digit (b / 16) ∷ hex_digit (b % 16) ∷ lower_hex bs

-- Without a leading `0x`.
unfoldable pub strip_0x : Bytes → Bytes
strip_0x (c ∷ d ∷ s) = if c == b'0' then (if d == b'x' then s else c ∷ d ∷ s) else c ∷ d ∷ s
strip_0x s = s

-- How a sequence of a deserializer goes on: an error, no more elements, or one.
pub data Elements (E : Type 0) : Type 0 where
  failure : E → Elements E
  end : Elements E
  element : ℕ → Elements E → Elements E

module _ (size : ℕ) where
  -- `len`
  pub len : ℕ
  len = size

  -- `default`
  unfoldable pub default : Bytes
  default = replicate size 0

  -- `From<&[u8]>`: a slice of another length panics.
  unfoldable pub from_slice : {E : Type 0} → Bytes → Result E Bytes
  from_slice b = if length b == size then ok b else panic

  -- `From<Vec<u8>>`
  unfoldable pub from_vec : {E : Type 0} → Bytes → Result E Bytes
  unfolding from_slice
  from_vec v = from_slice v

  -- `Display::fmt`; the ellipsis is one character.
  unfoldable pub display : Bytes → Bytes
  unfolding lower_hex
  display b = lower_hex (take 2 b) ++ (8230 ∷ lower_hex (drop (size - 2) b))

  module _ (from_hex : Bytes → Result FromHexError Bytes) where
    -- `FromStr::from_str`
    unfoldable pub from_str : Bytes → Result FromHexError Bytes
    from_str s = from_hex s >>= λ a. if length a == size then ok a else err invalid_hex_length

    -- `unwrap`
    unfoldable pub or_panic : Result FromHexError Bytes → Result FromHexError Bytes
    or_panic (ok a) = ok a
    or_panic _ = panic

    -- `From<&'static str>`
    unfoldable pub from_static : Bytes → Result FromHexError Bytes
    unfolding from_str or_panic strip_0x
    from_static text =
        let s = strip_0x text in
        if length s % 2 == 1 then or_panic (from_str (codes "0" ++ s)) else or_panic (from_str s)

  module _ {E : Type 0} (invalid_length : ℕ → E) where
    -- `visit_seq`, from an index on with so many elements left: the rest is not read.
    unfoldable pub visit_from : ℕ → ℕ → Elements E → Result E Bytes
    visit_from zero i seq = ok []
    visit_from (suc left) i (failure e) = err e
    visit_from (suc left) i end = err (invalid_length i)
    visit_from (suc left) i (element b seq) = visit_from left (suc i) seq >>= λ bs. ok (b ∷ bs)

    unfoldable pub visit_seq : Elements E → Result E Bytes
    unfolding visit_from
    visit_seq seq = visit_from size 0 seq

    -- `visit_bytes`
    unfoldable pub visit_bytes : Bytes → Result E Bytes
    visit_bytes data_bytes =
        if length data_bytes == size
        then ok data_bytes
        else err (invalid_length (length data_bytes))
