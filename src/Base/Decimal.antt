-- ===== src/Base/Decimal.antt =====
-- Python's `str(n)` and `int(s)` on decimal numbers.
use Prim.Native.Nat.{ℕ, zero, suc, ◌+◌, ◌-◌, ◌*◌, ◌/◌, ◌%◌, ◌<◌}
use Prim.Native.Char.{Char, char, code, IsScalar}
use Prim.Native.String.{String}
use mathlib.Core.Path.{◌≡◌, refl}
use mathlib.Core.Logic.{inl, inr}
use mathlib.Core.Bool.{Bool, ◌&&◌}
use mathlib.Core.Option.{Option, none, some}
use native.Mathlib.Omega.{arith}
use film_compliance_agent.Base.Tests.{if◌then◌else◌, ◌+++◌, leb, ltb, Bool-cases}

pub scalar_digit : (d : ℕ) → IsScalar (48 + d % 10)
scalar_digit d = ground arith

-- the character of a number's last digit
abbrev pub digit : ℕ → Char
digit d = char (48 + d % 10) (scalar_digit d)

-- The fuel counts the digits; a number has no more digits than its value.
print_onto : ℕ → ℕ → String → String
print_onto zero n out = out
print_onto (suc fuel) n out =
    if ltb n 10
    then String.◌∷◌ (digit n) out
    else print_onto fuel (n / 10) (String.◌∷◌ (digit n) out)

-- `str(n)`
unfoldable pub print_nat : ℕ → String
unfolding print_onto scalar_digit
print_nat n = print_onto (suc n) n ""

-- `f"{n:03d}"`
unfoldable pub print_padded : ℕ → String
print_padded n =
    if ltb n 10
    then "00" +++ print_nat n
    else if ltb n 100
    then "0" +++ print_nat n
    else print_nat n

abbrev is_digit : ℕ → Bool
is_digit c = leb 48 c && leb c 57

scan : ℕ → String → Option ℕ
scan n String.[] = some n
scan n (String.◌∷◌ c s) = if is_digit (code c) then scan (n * 10 + (code c - 48)) s else none

-- `int(s)` on a text of digits; `none` is a `ValueError`
unfoldable pub parse_nat : String → Option ℕ
unfolding scan
parse_nat String.[] = none
parse_nat (String.◌∷◌ c s) = scan 0 (String.◌∷◌ c s)

scan-digit :
    (n d : ℕ) (out : String) → scan n (String.◌∷◌ (digit d) out) ≡ scan (n * 10 + d % 10) out
unfolding scan
scan-digit n d out = ground arith

scan-print_onto :
    (fuel n : ℕ) (out : String) → n < fuel → scan 0 (print_onto fuel n out) ≡ scan n out
unfolding print_onto
scan-print_onto zero n out h = absurd (omega arith)
scan-print_onto (suc fuel) n out h = ground (
  arith,
  scan-digit 0 n out,
  scan-digit (n / 10) n out,
  scan-print_onto fuel (n / 10) (String.◌∷◌ (digit n) out),
)

print_onto-cons :
    (fuel n : ℕ) (out : String)
    → (c : Char) × (s : String) × (print_onto (suc fuel) n out ≡ String.◌∷◌ c s)
unfolding print_onto
print_onto-cons zero n out = elim (Bool-cases (ltb n 10)) [
  | inl small ↦ (digit n, out, rw small refl)
  | inr large ↦ (digit n, out, rw large refl)
]
print_onto-cons (suc fuel) n out = elim (Bool-cases (ltb n 10)) [
  | inl small ↦ (digit n, out, rw small refl)
  | inr large ↦
      let (c, s, e) = print_onto-cons fuel (n / 10) (String.◌∷◌ (digit n) out) in (c, s, rw large e)
]

-- A printed number is read back.
pub parse_nat-print_nat : (n : ℕ) → parse_nat (print_nat n) ≡ some n
unfolding parse_nat print_nat scan
parse_nat-print_nat n =
    let (c, s, e) = print_onto-cons n n "" in
    let back = scan-print_onto (suc n) n "" (omega arith) in rw e (rw e at back)
