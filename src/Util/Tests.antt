-- ===== src/Util/Tests.antt =====
-- The conversions of src/util.rs: the gas price is never saturated, and pending is the latest block.
use oasis_chain.Prelude.{ℕ, ◌*◌, ◌^◌, ◌<◌, ◌≡◌, refl, arith}
use oasis_chain.Blockchain.{latest}
use oasis_chain.Util.{gwei_to_wei, block_number_to_id, pending}

gwei_to_wei-exact : (gwei : ℕ) → gwei < 2 ^ 64 → gwei_to_wei gwei ≡ gwei * 1000000000
unfolding gwei_to_wei
gwei_to_wei-exact gwei h = omega arith

pending_is_latest : block_number_to_id pending ≡ latest
unfolding block_number_to_id
pending_is_latest = refl
