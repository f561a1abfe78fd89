-- ===== src/Base/Decimal.antt =====
-- strconv.Itoa on the natural numbers and strconv.Atoi, over bytes.
use Prim.Native.Nat.{ℕ, zero, suc, ◌+◌, ◌-◌, ◌*◌, ◌/◌, ◌%◌, ◌^◌, ◌≤◌, ◌<◌}
use mathlib.Core.Path.{◌≡◌, ap, ◌∙◌}
use mathlib.Core.Bool.{Bool, true, false, ◌&&◌}
use mathlib.Core.Option.{Option, none, some}
use mathlib.Core.List.{[], ◌∷◌, ◌++◌}
use native.Mathlib.Omega.{arith}
use go_webtools.Base.Tests.{Bytes, ltb, leb, ◌==◌, if◌then◌else◌, ltb→lt, ltb-false, Bool-cases}
use go_webtools.Base.Lists.{length, length-append}
use mathlib.Core.Logic.{inl, inr}

-- `negsuc n` is -(n + 1).
pub data ℤ : Type 0 where
  pos : ℕ → ℤ
  negsuc : ℕ → ℤ

abbrev pub is_digit : ℕ → Bool
is_digit c = leb b'0' c && leb c b'9'

itoa_fuel : ℕ → ℕ → Bytes
itoa_fuel zero n = []
itoa_fuel (suc f) n =
    let rest = itoa_fuel f (n / 10) in
    if ltb n 10 then (b'0' + n) ∷ [] else rest ++ ((b'0' + n % 10) ∷ [])

-- one round for each digit: `n + 1` rounds are enough
unfoldable pub itoa : ℕ → Bytes
unfolding itoa_fuel
itoa n = itoa_fuel (suc n) n

unfoldable pub parse_digits : ℕ → Bytes → Option ℕ
parse_digits acc [] = some acc
parse_digits acc (c ∷ cs) = if is_digit c then parse_digits (acc * 10 + (c - b'0')) cs else none

-- a number without its sign: at least one digit
unsigned : Bytes → Option ℕ
unfolding parse_digits
unsigned [] = none
unsigned (c ∷ cs) = parse_digits 0 (c ∷ cs)

-- a value out of the range of int is an error
abbrev in_range : Bool → ℕ → Option ℤ
in_range true zero = some (pos 0)
in_range true (suc n) = if ltb n (2 ^ 63) then some (negsuc n) else none
in_range false n = if ltb n (2 ^ 63) then some (pos n) else none

signed : Bool → Option ℕ → Option ℤ
signed minus none = none
signed minus (some n) = in_range minus n

unfoldable pub atoi : Bytes → Option ℤ
unfolding unsigned signed
atoi [] = none
atoi (c ∷ cs) =
    if c == b'-'
    then signed true (unsigned cs)
    else (if c == b'+' then signed false (unsigned cs) else signed false (unsigned (c ∷ cs)))

abbrev pub AllDigits : Bytes → Type 0
AllDigits [] = Unit {0}
AllDigits (c ∷ cs) = (b'0' ≤ c) × (c ≤ b'9') × AllDigits cs

AllDigits-append : (xs ys : Bytes) → AllDigits xs → AllDigits ys → AllDigits (xs ++ ys)
AllDigits-append [] ys h k = k
AllDigits-append (x ∷ xs) ys h k = (h.0, h.1, AllDigits-append xs ys h.2 k)

parse_digits-append :
    (acc a : ℕ) (xs ys : Bytes)
    → parse_digits acc xs ≡ some a
    → parse_digits acc (xs ++ ys) ≡ parse_digits a ys
unfolding parse_digits
parse_digits-append acc a [] ys h = ground arith
parse_digits-append acc a (x ∷ xs) ys h =
    ground (arith, parse_digits-append (acc * 10 + (x - b'0')) a xs ys)

itoa_fuel-AllDigits : (f n : ℕ) → AllDigits (itoa_fuel f n)
unfolding itoa_fuel
itoa_fuel-AllDigits zero n = tt
itoa_fuel-AllDigits (suc f) n = elim (Bool-cases (ltb n 10)) [
  | inl small ↦ rw small (omega arith, omega (arith, ltb→lt n 10 small), tt)
  | inr large ↦ rw large (
      AllDigits-append (itoa_fuel f (n / 10)) ((b'0' + n % 10) ∷ [])
        (itoa_fuel-AllDigits f (n / 10)) (omega arith, omega arith, tt))
]

parse_digit : (acc d : ℕ) → d < 10 → parse_digits acc ((b'0' + d) ∷ []) ≡ some (acc * 10 + d)
unfolding parse_digits
parse_digit acc d h = ground arith

parse_digits-itoa_fuel : (f n : ℕ) → n < f → parse_digits 0 (itoa_fuel f n) ≡ some n
unfolding itoa_fuel
parse_digits-itoa_fuel zero n h = absurd (omega arith)
parse_digits-itoa_fuel (suc f) n h = elim (Bool-cases (ltb n 10)) [
  | inl small ↦ rw small (parse_digit 0 n (ltb→lt n 10 small) ∙ ap some (omega arith))
  | inr large ↦ rw large (
      parse_digits-append 0 (n / 10) (itoa_fuel f (n / 10)) ((b'0' + n % 10) ∷ [])
        (parse_digits-itoa_fuel f (n / 10) (omega (arith, ltb-false n 10 large)))
      ∙ parse_digit (n / 10) (n % 10) (omega arith)
      ∙ ap some (omega arith))
]

atoi_of_digits :
    (text : Bytes) (n : ℕ)
    → AllDigits text
    → 0 < n + length text
    → parse_digits 0 text ≡ some n
    → n < 2 ^ 63
    → atoi text ≡ some (pos n)
unfolding atoi parse_digits
atoi_of_digits [] n d l e h = ground arith
atoi_of_digits (c ∷ cs) n d l e h = ground arith

length-itoa : (f n : ℕ) → 0 < length (itoa_fuel (suc f) n)
unfolding itoa_fuel
length-itoa f n = elim (Bool-cases (ltb n 10)) [
  | inl small ↦ rw small (omega arith)
  | inr large ↦
      rw large (omega (arith, length-append (itoa_fuel f (n / 10)) ((b'0' + n % 10) ∷ [])))
]

pub itoa-AllDigits : (n : ℕ) → AllDigits (itoa n)
unfolding itoa
itoa-AllDigits n = itoa_fuel-AllDigits (suc n) n

-- Atoi reads back what Itoa writes, within int.
pub atoi-itoa : (n : ℕ) → n < 2 ^ 63 → atoi (itoa n) ≡ some (pos n)
unfolding itoa
atoi-itoa n h =
    atoi_of_digits (itoa_fuel (suc n) n) n (itoa_fuel-AllDigits (suc n) n)
      (omega (arith, length-itoa n n)) (parse_digits-itoa_fuel (suc n) n (omega arith)) h
