-- ===== src/Shared/Paths.antt =====
-- `std::path::Path` on Unix: a text is split at its slashes. A text is read by its characters' codes.
use Prim.Native.Nat.{ℕ}
use Prim.Native.Char.{code}
use Prim.Native.String.{String}
use mathlib.Core.Path.{◌≡◌, refl}
use mathlib.Core.Logic.{◌≢◌}
use mathlib.Core.Bool.{Bool, true, false, not, ◌&&◌, ◌||◌}
use mathlib.Core.List.{List, [], ◌∷◌, ◌++◌}
use native.Mathlib.Omega.{arith}
use text.Mathlib.TextEquality.{Char-path}
use devicelane.Shared.Tests.{◌==◌, nat_eq, ltb, if◌then◌else◌}
use devicelane.Shared.Lists.{all, All, bytes_eq}

-- The codes of the characters.
unfoldable pub codes : String → List ℕ
codes String.[] = []
codes (String.◌∷◌ c s) = code c ∷ codes s

abbrev pub onto_first : ℕ → List (List ℕ) → List (List ℕ)
onto_first c [] = (c ∷ []) ∷ []
onto_first c (w ∷ ws) = (c ∷ w) ∷ ws

-- What stands between the slashes.
unfoldable pub segments : List ℕ → List (List ℕ)
segments [] = [] ∷ []
segments (c ∷ cs) = let rest = segments cs in if c == 47 then [] ∷ rest else onto_first c rest

pub data Component : Type 0 where
  root_dir cur_dir parent_dir : Component
  normal : List ℕ → Component

abbrev pub is_normal : Component → Bool
is_normal root_dir = false
is_normal cur_dir = false
is_normal parent_dir = false
is_normal (normal _) = true

abbrev pub dot : List ℕ
dot = 46 ∷ []

abbrev pub dot_dot : List ℕ
dot_dot = 46 ∷ 46 ∷ []

-- A dot counts at the start only.
unfoldable pub walk : Bool → List (List ℕ) → List Component
walk first [] = []
walk first (w ∷ ws) =
    let rest = walk false ws in
    if w == []
    then rest
    else if w == dot
    then (if first then cur_dir ∷ rest else rest)
    else if w == dot_dot
    then parent_dir ∷ rest
    else normal w ∷ rest

abbrev pub is_absolute : List ℕ → Bool
is_absolute [] = false
is_absolute (c ∷ _) = c == 47

unfoldable pub components : List ℕ → List Component
unfolding segments walk
components cs =
    (if is_absolute cs then root_dir ∷ [] else []) ++ walk (not (is_absolute cs)) (segments cs)

-- Only `Component::Normal`.
unfoldable pub is_relative : String → Bool
unfolding codes components
is_relative s = not (is_absolute (codes s)) && all is_normal (components (codes s))

walk-all :
    (first : Bool) (ws : List (List ℕ))
    → all is_normal (walk first ws) ≡ true
    → All (λ w. dot_dot ≢ w) ws
unfolding walk
walk-all first [] h = tt
walk-all first (w ∷ ws) h = ground (arith, h, walk-all false ws)

pub is_relative-segments :
    (s : String)
    → is_relative s ≡ true
    → (is_absolute (codes s) ≡ false) × All (λ w. dot_dot ≢ w) (segments (codes s))
unfolding is_relative components
is_relative-segments s h = ground (arith, h, walk-all true (segments (codes s)))

-- Lexicographic order, of texts by their codes: the order of the UTF-8 bytes is the same.
abbrev pub leb_codes : List ℕ → List ℕ → Bool
leb_codes [] ys = true
leb_codes (x ∷ xs) [] = false
leb_codes (x ∷ xs) (y ∷ ys) = ltb x y || (x == y && leb_codes xs ys)

-- `str::starts_with`.
abbrev pub is_prefix : List ℕ → List ℕ → Bool
is_prefix [] ys = true
is_prefix (x ∷ xs) [] = false
is_prefix (x ∷ xs) (y ∷ ys) = x == y && is_prefix xs ys

pub leb_codes_total : (xs ys : List ℕ) → leb_codes xs ys ≡ false → leb_codes ys xs ≡ true
leb_codes_total [] ys h = cc
leb_codes_total (x ∷ xs) [] h = refl
leb_codes_total (x ∷ xs) (y ∷ ys) h = ground (arith, h, leb_codes_total xs ys)

pub leb_codes_trans :
    (xs ys zs : List ℕ) → leb_codes xs ys ≡ true → leb_codes ys zs ≡ true → leb_codes xs zs ≡ true
leb_codes_trans [] ys zs h k = refl
leb_codes_trans (x ∷ xs) [] zs h k = cc
leb_codes_trans (x ∷ xs) (y ∷ ys) [] h k = cc
leb_codes_trans (x ∷ xs) (y ∷ ys) (z ∷ zs) h k = ground (arith, h, k, leb_codes_trans xs ys zs)

pub leb_codes_antisym : (xs ys : List ℕ) → leb_codes xs ys ≡ true → leb_codes ys xs ≡ true → xs ≡ ys
leb_codes_antisym [] [] h k = refl
leb_codes_antisym [] (y ∷ ys) h k = cc
leb_codes_antisym (x ∷ xs) [] h k = cc
leb_codes_antisym (x ∷ xs) (y ∷ ys) h k = ground (arith, h, k, leb_codes_antisym xs ys)

pub codes-injective : (s t : String) → codes s ≡ codes t → s ≡ t
unfolding codes
codes-injective String.[] String.[] h = refl
codes-injective String.[] (String.◌∷◌ c t) h = cc
codes-injective (String.◌∷◌ c s) String.[] h = cc
codes-injective (String.◌∷◌ c s) (String.◌∷◌ d t) h =
    cc (Char-path c d (cc h), codes-injective s t (cc h))
