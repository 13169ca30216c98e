-- ===== src/Shared/Text.antt =====
-- Texts. `str::trim().is_empty()`: every character is of Unicode's White_Space.
use Prim.Native.Nat.{ℕ, ◌-◌}
use Prim.Native.Char.{code, len_utf8}
use Prim.Native.String.{String}
use mathlib.Core.Bool.{Bool, true, ◌&&◌, ◌||◌}
use mathlib.Core.Option.{Option, none, some}
use devicelane.Shared.Tests.{leb, ltb, ◌==◌, nat_eq, string_eq, if◌then◌else◌}

within : ℕ → ℕ → ℕ → Bool
within lo hi c = leb lo c && leb c hi

is_whitespace : ℕ → Bool
unfolding within
is_whitespace c =
    within 9 13 c
    || (c == 32
        || (c == 133
            || (c == 160
                || (c == 5760
                    || (within 8192 8202 c
                        || (within 8232 8233 c || (c == 8239 || (c == 8287 || c == 12288))))))))

unfoldable pub is_blank : String → Bool
unfolding is_whitespace
is_blank String.[] = true
is_blank (String.◌∷◌ c s) = is_whitespace (code c) && is_blank s

-- `str::trim_end`.
unfoldable pub trim_end : String → String
unfolding is_whitespace
trim_end String.[] = String.[]
trim_end (String.◌∷◌ c s) =
    let rest = trim_end s in
    if rest == "" && is_whitespace (code c) then String.[] else String.◌∷◌ c rest

-- `str::trim_start` and `str::trim`.
unfoldable pub trim_start : String → String
unfolding is_whitespace
trim_start String.[] = String.[]
trim_start (String.◌∷◌ c s) =
    let rest = trim_start s in if is_whitespace (code c) then rest else String.◌∷◌ c s

unfoldable pub trim : String → String
unfolding trim_start trim_end
trim s = trim_end (trim_start s)

-- `s.get(..n)`: `none` beyond the text or inside a character.
unfoldable pub byte_prefix : ℕ → String → Option String
byte_prefix n String.[] = if n == 0 then some String.[] else none
byte_prefix n (String.◌∷◌ c s) =
    let rest = byte_prefix (n - len_utf8 c) s in
    if n == 0
    then some String.[]
    else if ltb n (len_utf8 c)
    then none
    else elim rest [ none ↦ none | some p ↦ some (String.◌∷◌ c p) ]
