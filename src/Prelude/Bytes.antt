-- ===== src/Prelude/Bytes.antt =====
-- Machine words and their little-endian bytes (`to_le_bytes`, `from_le_bytes`).
use Prim.Native.Nat.{ℕ, zero, suc, ◌+◌, ◌-◌, ◌*◌, ◌/◌, ◌%◌, ◌^◌, ◌<◌, min}
use mathlib.Core.Path.{◌≡◌, refl, ap}
use mathlib.Core.List.{List, [], ◌∷◌}
use native.Mathlib.Omega.{arith}
use native.Mathlib.Nat.{pow-suc}
use peat_btle.Prelude.Lists.{length, All}

abbrev pub u8_mod : ℕ
u8_mod = 256

abbrev pub u16_mod : ℕ
u16_mod = 2 ^ 16

abbrev pub u32_mod : ℕ
u32_mod = 2 ^ 32

abbrev pub u64_mod : ℕ
u64_mod = 2 ^ 64

-- `a.saturating_add(b)` at the type whose values are below `m`.
abbrev pub sat_add : ℕ → ℕ → ℕ → ℕ
sat_add m a b = min (a + b) (m - 1)

-- The `w` low bytes of a number, the lowest first.
abbrev pub le_bytes : ℕ → ℕ → List ℕ
le_bytes zero n = []
le_bytes (suc w) n = (n % 256) ∷ le_bytes w (n / 256)

abbrev pub from_le_bytes : List ℕ → ℕ
from_le_bytes [] = 0
from_le_bytes (b ∷ bs) = b + 256 * from_le_bytes bs

abbrev pub IsByte : ℕ → Type 0
IsByte b = b < 256

pub length-le_bytes : (w n : ℕ) → length (le_bytes w n) ≡ w
length-le_bytes zero n = refl
length-le_bytes (suc w) n = ap suc (length-le_bytes w (n / 256))

pub le_bytes-IsByte : (w n : ℕ) → All IsByte (le_bytes w n)
le_bytes-IsByte zero n = tt
le_bytes-IsByte (suc w) n = (omega arith, le_bytes-IsByte w (n / 256))

pub from_le_bytes-le_bytes : (w n : ℕ) → n < 256 ^ w → from_le_bytes (le_bytes w n) ≡ n
from_le_bytes-le_bytes zero n h = omega arith
from_le_bytes-le_bytes (suc w) n h =
    omega (arith, from_le_bytes-le_bytes w (n / 256) (quotient_small w n h))
  where
    quotient_small : (w n : ℕ) → n < 256 ^ suc w → n / 256 < 256 ^ w
    quotient_small w n h = omega (arith, pow-suc 256 w)
