-- ===== src/Base/Bytes.antt =====
-- `u32::to_le_bytes` and `u32::from_le_bytes`.
use Prim.Native.Nat.{ℕ, ◌+◌, ◌*◌, ◌/◌, ◌%◌, ◌^◌, ◌<◌}
use mathlib.Core.Path.{◌≡◌}
use mathlib.Core.List.{List, [], ◌∷◌}
use native.Mathlib.Omega.{arith}

abbrev pub to_le_bytes : ℕ → List ℕ
to_le_bytes num =
    (num % 256) ∷ (num / 256 % 256) ∷ (num / 256 ^ 2 % 256) ∷ (num / 256 ^ 3 % 256) ∷ []

abbrev pub from_le_bytes : List ℕ → ℕ
from_le_bytes [] = 0
from_le_bytes (b ∷ bs) = b + 256 * from_le_bytes bs

-- A number of 32 bits comes back.
pub from_le_bytes-to_le_bytes : (n : ℕ) → n < 2 ^ 32 → from_le_bytes (to_le_bytes n) ≡ n
from_le_bytes-to_le_bytes n h = omega arith

-- So does a length that is cast to 32 bits, if it has no more.
pub from_le_bytes-cast : (n : ℕ) → n < 2 ^ 32 → from_le_bytes (to_le_bytes (n % 2 ^ 32)) ≡ n
from_le_bytes-cast n h = omega arith
