-- ===== src/Shared/Utf8.antt =====
-- `str::as_bytes`: UTF-8.
use Prim.Native.Nat.{ℕ, ◌+◌, ◌/◌, ◌%◌}
use Prim.Native.String.{String}
use mathlib.Core.List.{List, [], ◌∷◌, ◌++◌}
use devicelane.Shared.Tests.{ltb, if◌then◌else◌}
use devicelane.Shared.Lists.{Bytes}
use devicelane.Shared.Paths.{codes}

abbrev continuation : ℕ → ℕ
continuation c = 128 + c % 64

abbrev utf8_char : ℕ → Bytes
utf8_char c =
    if ltb c 128
    then c ∷ []
    else if ltb c 2048
    then (192 + c / 64) ∷ continuation c ∷ []
    else if ltb c 65536
    then (224 + c / 4096) ∷ continuation (c / 64) ∷ continuation c ∷ []
    else (240 + c / 262144) ∷ continuation (c / 4096) ∷ continuation (c / 64) ∷ continuation c ∷ []

abbrev utf8_chars : List ℕ → Bytes
utf8_chars [] = []
utf8_chars (c ∷ cs) = utf8_char c ++ utf8_chars cs

unfoldable pub as_bytes : String → Bytes
unfolding codes
as_bytes s = utf8_chars (codes s)
