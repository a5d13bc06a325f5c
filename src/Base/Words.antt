-- ===== src/Base/Words.antt =====
-- Machine words. A `u64` is a native number below 2^64, and every sum keeps its wrap-around: an
-- atomic counter wraps always, the plain operators do so in the release profile.
use Prim.Native.Nat.{ℕ, ◌+◌, ◌-◌, ◌%◌, ◌^◌}

abbrev pub u64_mod : ℕ
u64_mod = 2 ^ 64

abbrev pub u32_mod : ℕ
u32_mod = 2 ^ 32

-- `a.wrapping_add(b)`, `fetch_add`.
abbrev pub add64 : ℕ → ℕ → ℕ
add64 a b = (a + b) % u64_mod

-- `a.wrapping_sub(b)`, `fetch_sub`, for `b` in range.
abbrev pub sub64 : ℕ → ℕ → ℕ
sub64 a b = (a + u64_mod - b) % u64_mod

-- `1u64 << k`, for `k` below 64.
abbrev pub shl_one : ℕ → ℕ
shl_one k = 2 ^ k

-- The outcome of code that may panic.
pub data Run {ℓ} (A : Type ℓ) : Type ℓ where
  ok : A → Run A
  panic : Run A
