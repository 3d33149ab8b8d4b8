-- ===== src/Base/Integers.antt =====
-- Integers over the native numbers.
use Prim.Native.Nat.{ℕ, suc, ◌+◌, ◌-◌, ◌%◌, ◌^◌, max}
use ha_intratone.Base.Checks.{ltb, if◌then◌else◌}

-- `negsuc n` is the negative number `-(n + 1)`.
pub data ℤ : Type 0 where
  pos negsuc : ℕ → ℤ

infixl 60 ◌+ℤ◌
-- `a - b`
unfoldable pub difference : ℕ → ℕ → ℤ
difference a b = if ltb a b then negsuc (b - a - 1) else pos (a - b)

-- `n + z`
unfoldable pub ◌+ℤ◌ : ℕ → ℤ → ℤ
unfolding difference
n +ℤ (pos k) = pos (n + k)
n +ℤ (negsuc k) = difference n (suc k)

-- `z & (2 ** w - 1)`
unfoldable pub low_bits : ℕ → ℤ → ℕ
low_bits w (pos k) = k % 2 ^ w
low_bits w (negsuc k) = 2 ^ w - 1 - k % 2 ^ w

-- `max(n, z)`
abbrev pub max_with : ℕ → ℤ → ℕ
max_with n (pos k) = max n k
max_with n (negsuc k) = n
