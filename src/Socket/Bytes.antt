-- ===== src/Socket/Bytes.antt =====
-- The bytes of the length prefix, and back.
use ngp_encode_server.Base.{ℕ, zero, suc, ◌*◌, ◌/◌, ◌^◌, ◌<◌, ◌≡◌, refl, ap, arith, length}
use native.Mathlib.Nat.{pow-succ'}
use ngp_encode_server.Socket.{le_bytes, le_value}

pub length-le_bytes : (k n : ℕ) → length (le_bytes k n) ≡ k
unfolding le_bytes
length-le_bytes zero n = refl
length-le_bytes (suc k) n = ap suc (length-le_bytes k (n / 256))

-- `k` bytes hold every number below 256 ^ k.
pub le_value-le_bytes : (k n : ℕ) → n < 256 ^ k → le_value (le_bytes k n) ≡ n
unfolding le_bytes le_value
le_value-le_bytes zero n h = omega arith
le_value-le_bytes (suc k) n h =
    let bound : n < 256 * 256 ^ k = rw (pow-succ' 256 k) at h in
    omega (arith, le_value-le_bytes k (n / 256) (omega arith))
