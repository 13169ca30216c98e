-- ===== src/Shared/Endian.antt =====
-- `to_le_bytes` and `from_le_bytes` of the unsigned integers.
use Prim.Native.Nat.{ℕ, zero, suc, ◌+◌, ◌*◌, ◌/◌, ◌%◌, ◌<◌}
use mathlib.Core.Path.{◌≡◌, refl, ap}
use mathlib.Core.List.{[], ◌∷◌}
use native.Mathlib.Omega.{arith}
use devicelane.Shared.Lists.{Bytes, All, length}

-- The number of values of so many bytes.
abbrev pub byte_values : ℕ → ℕ
byte_values zero = 1
byte_values (suc w) = 256 * byte_values w

unfoldable pub to_le_bytes : ℕ → ℕ → Bytes
to_le_bytes zero n = []
to_le_bytes (suc w) n = n % 256 ∷ to_le_bytes w (n / 256)

unfoldable pub from_le_bytes : Bytes → ℕ
from_le_bytes [] = 0
from_le_bytes (b ∷ bytes) = b + 256 * from_le_bytes bytes

abbrev pub AreBytes : Bytes → Type 0
AreBytes bytes = All (λ b. b < 256) bytes

pub length-to_le_bytes : (w n : ℕ) → length (to_le_bytes w n) ≡ w
unfolding to_le_bytes
length-to_le_bytes zero n = refl
length-to_le_bytes (suc w) n = omega (arith, length-to_le_bytes w (n / 256))

pub AreBytes-to_le_bytes : (w n : ℕ) → AreBytes (to_le_bytes w n)
unfolding to_le_bytes
AreBytes-to_le_bytes zero n = tt
AreBytes-to_le_bytes (suc w) n = (omega arith, AreBytes-to_le_bytes w (n / 256))

pub from_le_bytes-to_le_bytes : (w n : ℕ) → n < byte_values w → from_le_bytes (to_le_bytes w n) ≡ n
unfolding to_le_bytes from_le_bytes
from_le_bytes-to_le_bytes zero n h = omega (arith, h)
from_le_bytes-to_le_bytes (suc w) n h =
    omega (arith, from_le_bytes-to_le_bytes w (n / 256) (omega (arith, h)))

pub from_le_bytes_bound :
    (w : ℕ) (bytes : Bytes)
    → AreBytes bytes
    → length bytes ≡ w
    → from_le_bytes bytes < byte_values w
unfolding from_le_bytes
from_le_bytes_bound zero [] h k = omega arith
from_le_bytes_bound zero (b ∷ bytes) h k = absurd (omega (arith, k))
from_le_bytes_bound (suc w) [] h k = absurd (omega (arith, k))
from_le_bytes_bound (suc w) (b ∷ bytes) h k =
    omega (arith, h.0, from_le_bytes_bound w bytes h.1 (omega (arith, k)))

pub to_le_bytes-from_le_bytes :
    (w : ℕ) (bytes : Bytes)
    → AreBytes bytes
    → length bytes ≡ w
    → to_le_bytes w (from_le_bytes bytes) ≡ bytes
unfolding to_le_bytes from_le_bytes
to_le_bytes-from_le_bytes zero [] h k = refl
to_le_bytes-from_le_bytes zero (b ∷ bytes) h k = absurd (omega (arith, k))
to_le_bytes-from_le_bytes (suc w) [] h k = absurd (omega (arith, k))
to_le_bytes-from_le_bytes (suc w) (b ∷ bytes) h k =
    let low : (b + 256 * from_le_bytes bytes) % 256 ≡ b = omega (arith, h.0) in
    let high : (b + 256 * from_le_bytes bytes) / 256 ≡ from_le_bytes bytes = omega (arith, h.0) in
    rw (low, high) (ap (◌∷◌ b) (to_le_bytes-from_le_bytes w bytes h.1 (omega (arith, k))))
