-- ===== src/Shared/Decimal.antt =====
-- Numbers printed in decimal (`format!("{}", n)`), which read back as themselves.
use Prim.Native.Nat.{ℕ, zero, suc, ◌+◌, ◌-◌, ◌*◌, ◌/◌, ◌%◌, ◌≤◌, ◌<◌, compare, Ordering}
use Prim.Native.Char.{Char, char, IsScalar, code}
use Prim.Native.String.{String}
use mathlib.Core.Path.{◌≡◌}
use mathlib.Core.Logic.{inl, inr}
use native.Mathlib.Omega.{arith}
use devicelane.Shared.Tests.{ltb, if◌then◌else◌, Bool-cases, ltb→lt, ltb→ge}

-- `String::push_str`.
unfoldable pub push_str : String → String → String
push_str String.[] t = t
push_str (String.◌∷◌ c s) t = String.◌∷◌ c (push_str s t)

compare-lt : (a b : ℕ) → a < b → compare a b ≡ Ordering.lt
compare-lt a b h = ground arith

pub is_scalar : (c : ℕ) → c < 55296 → IsScalar c
is_scalar c h = rw (compare-lt c 55296 h) tt

digit : ℕ → Char
digit n = char (48 + n % 10) (is_scalar (48 + n % 10) (omega arith))

unfoldable hex_char : ℕ → Char
hex_char d =
    if ltb d 10
    then char (48 + d % 10) (is_scalar (48 + d % 10) (omega arith))
    else char (87 + d % 16) (is_scalar (87 + d % 16) (omega arith))

-- The hexadecimal digit of a number below 16, in lower case; of its last one otherwise.
unfoldable pub hex_digit : ℕ → Char
unfolding hex_char
hex_digit n = hex_char (n % 16)

abbrev one_digit : ℕ → String
one_digit n = String.◌∷◌ (digit n) String.[]

-- The fuel `n` is enough for `n`.
print_from : ℕ → ℕ → String
unfolding digit
print_from zero n = one_digit n
print_from (suc fuel) n =
    let rest = print_from fuel (n / 10) in
    if ltb n 10 then one_digit n else push_str rest (one_digit (n % 10))

pub print : ℕ → String
print n = print_from n n

pub read_decimal : ℕ → String → ℕ
read_decimal acc String.[] = acc
read_decimal acc (String.◌∷◌ c s) = read_decimal (10 * acc + (code c - 48)) s

code-digit : (n : ℕ) → n < 10 → code (digit n) ≡ 48 + n
unfolding digit
code-digit n h = omega (arith, h)

read_decimal-push_str :
    (acc : ℕ) (s : String) (n : ℕ)
    → n < 10
    → read_decimal acc (push_str s (one_digit n)) ≡ 10 * read_decimal acc s + n
unfolding read_decimal push_str
read_decimal-push_str acc String.[] n h = omega (arith, code-digit n h)
read_decimal-push_str acc (String.◌∷◌ c s) n h =
    read_decimal-push_str (10 * acc + (code c - 48)) s n h

read_decimal-print_from : (fuel n : ℕ) → n ≤ fuel → read_decimal 0 (print_from fuel n) ≡ n
unfolding print_from read_decimal
read_decimal-print_from zero n h = omega (arith, read_decimal-push_str 0 String.[] n)
read_decimal-print_from (suc fuel) n h = elim (Bool-cases (ltb n 10)) [
  | inl small ↦
      rw (small, print_from)
        (omega (arith, small, ltb→lt n 10 small, read_decimal-push_str 0 String.[] n))
  | inr big ↦
      rw (big, print_from)
        (omega (
          arith,
          ltb→ge n 10 big,
          read_decimal-print_from fuel (n / 10),
          read_decimal-push_str 0 (print_from fuel (n / 10)) (n % 10),
        ))
]

pub read_decimal-print : (n : ℕ) → read_decimal 0 (print n) ≡ n
unfolding print
read_decimal-print n = read_decimal-print_from n n (omega arith)
