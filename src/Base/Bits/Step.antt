-- ===== src/Base/Bits/Step.antt =====
-- The lowest digit of `|` and `&`, from the recursion on digits that the native operations stand for.
use Prim.Native.Nat.{
  ℕ, zero, suc, ◌+◌, ◌*◌, ◌/◌, ◌%◌, ◌≤◌, min, max, digits, bitwise, bit_and, bit_or,
  bit_and-bitwise, bit_or-bitwise,
}
use mathlib.Core.Path.{◌≡◌, refl, sym, ◌∙◌}
use native.Mathlib.Nat.{le_refl}
use native.Mathlib.Omega.{arith}

-- `alone` is the operation against 0, `digit` the one on two digits
module _ (alone : ℕ → ℕ) (digit : ℕ → ℕ → ℕ) where
  more_fuel : (x y n m : ℕ) → x ≤ n → x ≤ m → digits alone digit n x y ≡ digits alone digit m x y
  more_fuel zero y n m p q = at_zero n ∙ sym (at_zero m)
    where
      at_zero : (k : ℕ) → digits alone digit k zero y ≡ alone y
      at_zero zero = refl
      at_zero (suc k) = refl
  more_fuel (suc x) y zero m p q = absurd (omega arith)
  more_fuel (suc x) y (suc n) zero p q = absurd (omega arith)
  more_fuel (suc x) y (suc n) (suc m) p q =
      rw (more_fuel (suc x / 2) (y / 2) n m (omega arith) (omega arith)) refl

  lowest :
      (x y : ℕ)
      → bitwise alone digit (suc x) y
        ≡ digit (suc x % 2) (y % 2) + bitwise alone digit (suc x / 2) (y / 2) * 2
  lowest x y =
      let half = suc x / 2 in
      omega (arith, more_fuel half (y / 2) x half (omega arith) (le_refl half))

pub bit_or_digit : (x y : ℕ) → bit_or x y ≡ bit_or (x / 2) (y / 2) * 2 + max (x % 2) (y % 2)
bit_or_digit zero y = simp bit_or-bitwise (omega arith)
bit_or_digit (suc x) y = simp bit_or-bitwise (omega (arith, lowest (λ d. d) max x y))

pub bit_and_digit : (x y : ℕ) → bit_and x y ≡ bit_and (x / 2) (y / 2) * 2 + min (x % 2) (y % 2)
bit_and_digit zero y = simp bit_and-bitwise (omega arith)
bit_and_digit (suc x) y = simp bit_and-bitwise (omega (arith, lowest (λ d. 0) min x y))
