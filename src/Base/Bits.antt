-- ===== src/Base/Bits.antt =====
-- Little-endian bytes, and the masks that the source uses as arithmetic.
use Prim.Native.Nat.{ℕ, zero, suc, ◌+◌, ◌*◌, ◌/◌, ◌%◌, ◌^◌, ◌<◌}
use mathlib.Core.Path.{◌≡◌, refl, ap}
use mathlib.Core.List.{List, [], ◌∷◌}
use native.Mathlib.Omega.{arith}
use native.Mathlib.Nat.{pow-suc}
use rsdb.Base.Lists.{length, All}

-- `to_le_bytes` of an integer of `w` bytes.
abbrev pub to_le : ℕ → ℕ → List ℕ
to_le zero n = []
to_le (suc w) n = n % 256 ∷ to_le w (n / 256)

-- `from_le_bytes`
abbrev pub from_le : List ℕ → ℕ
from_le [] = 0
from_le (b ∷ bs) = b + 256 * from_le bs

pub length-to_le : (w n : ℕ) → length (to_le w n) ≡ w
length-to_le zero n = refl
length-to_le (suc w) n = ap suc (length-to_le w (n / 256))

low_byte : (b n : ℕ) → b < 256 → (b + 256 * n) % 256 ≡ b
low_byte b n h = omega arith

high_bytes : (b n : ℕ) → b < 256 → (b + 256 * n) / 256 ≡ n
high_bytes b n h = omega arith

-- Writing back what was read gives the same bytes.
pub to_le-from_le : (bs : List ℕ) → All (λ b. b < 256) bs → to_le (length bs) (from_le bs) ≡ bs
to_le-from_le [] h = refl
to_le-from_le (b ∷ bs) (hb, hbs) =
    rw (low_byte b (from_le bs) hb, high_bytes b (from_le bs) hb, to_le-from_le bs hbs)

-- Reading back an integer that fits the width gives the integer.
pub from_le-to_le : (w n : ℕ) → n < 256 ^ w → from_le (to_le w n) ≡ n
from_le-to_le zero n h = omega arith
from_le-to_le (suc w) n h = omega (arith, from_le-to_le w (n / 256) (omega (arith, pow-suc 256 w)))

pub from_le_bound : (bs : List ℕ) → All (λ b. b < 256) bs → from_le bs < 256 ^ length bs
from_le_bound [] h = omega arith
from_le_bound (b ∷ bs) (hb, hbs) = omega (arith, from_le_bound bs hbs, pow-suc 256 (length bs))
