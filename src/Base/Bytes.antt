-- ===== src/Base/Bytes.antt =====
-- Byte strings as lists of numbers, and big-endian words in them (`struct`, `int.from_bytes`).
use Prim.Native.Nat.{ℕ, zero, suc, ◌+◌, ◌*◌, ◌/◌, ◌%◌, ◌<◌}
use mathlib.Core.List.{List, [], ◌∷◌}

abbrev pub Bytes : Type 0
Bytes = List ℕ

-- Every item is a byte.
abbrev pub AreBytes : Bytes → Type 0
AreBytes [] = Unit {0}
AreBytes (b ∷ bs) = (b < 256) × AreBytes bs

-- The formats `>B`, `>H` and `>I` of a value in range.
abbrev pub be16 : ℕ → Bytes
be16 n = n / 256 ∷ n % 256 ∷ []

abbrev pub be32 : ℕ → Bytes
be32 n = n / 16777216 ∷ n / 65536 % 256 ∷ n / 256 % 256 ∷ n % 256 ∷ []

-- `data[i]`; a read past the end is an IndexError, which the callers' length tests rule out.
abbrev pub byte_at : Bytes → ℕ → ℕ
byte_at [] i = 0
byte_at (b ∷ bs) zero = b
byte_at (b ∷ bs) (suc i) = byte_at bs i

-- `int.from_bytes(data[i:i+2], "big")` and its four-byte form, inside the data.
abbrev pub read16 : Bytes → ℕ → ℕ
read16 d i = byte_at d i * 256 + byte_at d (i + 1)

abbrev pub read32 : Bytes → ℕ → ℕ
read32 d i = read16 d i * 65536 + read16 d (i + 2)
