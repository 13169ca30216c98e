-- ===== src/Shared/Words.antt =====
-- The unsigned 64-bit arithmetic of the source. `usize` is taken to be 64 bits wide.
use Prim.Native.Nat.{ℕ, ◌+◌, ◌-◌, min}
use mathlib.Core.Option.{Option, none, some}
use devicelane.Shared.Tests.{leb, if◌then◌else◌}

abbrev pub u64_max : ℕ
u64_max = 18446744073709551615

abbrev pub checked_add : ℕ → ℕ → Option ℕ
checked_add a b = if leb (a + b) u64_max then some (a + b) else none

abbrev pub saturating_add : ℕ → ℕ → ℕ
saturating_add a b = min (a + b) u64_max

-- Truncated, as `-` on ℕ is.
abbrev pub saturating_sub : ℕ → ℕ → ℕ
saturating_sub a b = a - b
