-- ===== src/Base/Bits.antt =====
-- The bits of a number, from the lowest, and what the operations of machine words do to them.
mod Step
use Step.{bit_or_digit, bit_and_digit}
use Prim.Native.Nat.{
  ℕ, zero, suc, ◌+◌, ◌-◌, ◌*◌, ◌/◌, ◌%◌, ◌^◌, ◌≤◌, ◌<◌, min, max, bit_and, bit_or,
}
use mathlib.Core.Path.{◌≡◌, refl, sym, ap, ◌∙◌}
use mathlib.Core.Logic.{◌≢◌}
use native.Mathlib.Nat.{
  pow-suc, one-le-pow, div-div-eq-div-mul, div-add-mod, mod-lt, mod-eq_of_lt, add-mul-mod_self_left,
}
use native.Mathlib.Omega.{arith}

unfoldable pub bit : ℕ → ℕ → ℕ
bit zero x = x % 2
bit (suc k) x = bit k (x / 2)

pub bit-le-one : (k x : ℕ) → bit k x ≤ 1
unfolding bit
bit-le-one zero x = omega arith
bit-le-one (suc k) x = bit-le-one k (x / 2)

pub bit-zero : (k : ℕ) → bit k 0 ≡ 0
unfolding bit
bit-zero zero = refl
bit-zero (suc k) = bit-zero k

pub bit-bit_or : (k x y : ℕ) → bit k (bit_or x y) ≡ max (bit k x) (bit k y)
unfolding bit
bit-bit_or zero x y = omega (arith, bit_or_digit x y)
bit-bit_or (suc k) x y =
    let half : bit_or x y / 2 ≡ bit_or (x / 2) (y / 2) = omega (arith, bit_or_digit x y) in
    rw half (bit-bit_or k (x / 2) (y / 2))

double : (k : ℕ) → 2 ^ suc k ≡ 2 * 2 ^ k
double k = omega (arith, pow-suc 2 k)

-- a value below 2^k has no bit from k on
pub bit_of_lt : (k j x : ℕ) → x < 2 ^ k → k ≤ j → bit j x ≡ 0
unfolding bit
bit_of_lt zero j x h l = let none : x ≡ 0 = omega arith in rw none (bit-zero j)
bit_of_lt (suc k) zero x h l = absurd (omega arith)
bit_of_lt (suc k) (suc j) x h l = bit_of_lt k j (x / 2) (omega (arith, double k)) (omega arith)

-- `|` stays below a bound that is a power of two
pub bit_or-lt : (w x y : ℕ) → x < 2 ^ w → y < 2 ^ w → bit_or x y < 2 ^ w
bit_or-lt zero x y h k =
    let x_none : x ≡ 0 = omega arith in
    let y_none : y ≡ 0 = omega arith in rw (x_none, y_none) (omega arith)
bit_or-lt (suc w) x y h k = omega (
  arith,
  bit_or_digit x y,
  double w,
  bit_or-lt w (x / 2) (y / 2) (omega (arith, double w)) (omega (arith, double w)),
)

-- x << s
pub bit-shl_low : (s k x : ℕ) → k < s → bit k (x * 2 ^ s) ≡ 0
unfolding bit
bit-shl_low zero k x h = absurd (omega arith)
bit-shl_low (suc s) zero x h = omega (arith, double s, ap (λ (t : ℕ). x * t) (double s))
bit-shl_low (suc s) (suc k) x h =
    let half : x * 2 ^ suc s / 2 ≡ x * 2 ^ s = omega (arith, ap (λ (t : ℕ). x * t) (double s)) in
    rw half (bit-shl_low s k x (omega arith))

pub bit-shl : (s k x : ℕ) → bit (s + k) (x * 2 ^ s) ≡ bit k x
unfolding bit
bit-shl zero k x =
    let index : 0 + k ≡ k = omega arith in
    let value : x * 2 ^ 0 ≡ x = omega arith in rw (index, value) refl
bit-shl (suc s) k x =
    let half : x * 2 ^ suc s / 2 ≡ x * 2 ^ s = omega (arith, ap (λ (t : ℕ). x * t) (double s)) in
    let next : suc s + k ≡ suc (s + k) = omega arith in rw (next, bit) (rw half (bit-shl s k x))

-- x >> s
pub bit-shr : (s k x : ℕ) → bit k (x / 2 ^ s) ≡ bit (s + k) x
unfolding bit
bit-shr zero k x =
    let index : 0 + k ≡ k = omega arith in
    let value : x / 2 ^ 0 ≡ x = omega arith in rw (index, value) refl
bit-shr (suc s) k x =
    let half : x / 2 ^ suc s ≡ x / 2 / 2 ^ s = rw double (sym (div-div-eq-div-mul x 2 (2 ^ s))) in
    let next : suc s + k ≡ suc (s + k) = omega arith in rw (next, half, bit) (bit-shr s k (x / 2))

-- a remainder by an even number, digit by digit
mod_double : (x w : ℕ) → (x % 2 ^ suc w % 2 ≡ x % 2) × (x % 2 ^ suc w / 2 ≡ x / 2 % 2 ^ w)
mod_double x w = (omega (arith, split), upper)
  where
    q : ℕ
    q = x / 2 ^ suc w

    split : x ≡ 2 * (2 ^ w * q) + x % 2 ^ suc w
    split = omega (arith, div-add-mod x (2 ^ suc w), ap (λ (t : ℕ). t * q) (double w))

    upper : x % 2 ^ suc w / 2 ≡ x / 2 % 2 ^ w
    upper =
        let low : x % 2 ^ suc w / 2 < 2 ^ w =
          omega (arith, mod-lt x (one-le-pow (suc w) 2 (omega arith)), double w) in
        let half : x / 2 ≡ x % 2 ^ suc w / 2 + 2 ^ w * q = omega (arith, split) in
        rw half (sym (add-mul-mod_self_left (x % 2 ^ suc w / 2) (2 ^ w) q ∙ mod-eq_of_lt low))

-- the bits of a word survive a cut at its width
pub bit-mod : (w k x : ℕ) → k < w → bit k (x % 2 ^ w) ≡ bit k x
unfolding bit
bit-mod zero k x h = absurd (omega arith)
bit-mod (suc w) zero x h = (mod_double x w).0
bit-mod (suc w) (suc k) x h = rw ((mod_double x w).1) (bit-mod w k (x / 2) (omega arith))

bit_and-zero_fuel : (n x : ℕ) → x ≤ n → bit_and x 0 ≡ 0
bit_and-zero_fuel n zero h = refl
bit_and-zero_fuel zero (suc x) h = absurd (omega arith)
bit_and-zero_fuel (suc n) (suc x) h =
    omega (arith, bit_and_digit (suc x) 0, bit_and-zero_fuel n (suc x / 2) (omega arith))

bit_and-zero : (x : ℕ) → bit_and x 0 ≡ 0
bit_and-zero x = bit_and-zero_fuel x x (omega arith)

bit_and-le_fuel : (n x y : ℕ) → y ≤ n → bit_and x y ≤ y
bit_and-le_fuel n x zero h = omega (arith, bit_and-zero x)
bit_and-le_fuel zero x (suc y) h = absurd (omega arith)
bit_and-le_fuel (suc n) x (suc y) h =
    omega (arith, bit_and_digit x (suc y), bit_and-le_fuel n (x / 2) (suc y / 2) (omega arith))

pub bit_and-le : (x y : ℕ) → bit_and x y ≤ y
bit_and-le x y = bit_and-le_fuel y x y (omega arith)

half : (k : ℕ) → 2 ^ suc k / 2 ≡ 2 ^ k
half k = omega (arith, double k)

-- x & (1 << k)
pub bit_and-two_pow : (k x : ℕ) → bit_and x (2 ^ k) ≡ bit k x * 2 ^ k
unfolding bit
bit_and-two_pow zero x = omega (arith, bit_and_digit x 1, bit_and-zero (x / 2))
bit_and-two_pow (suc k) x = omega (
  arith,
  bit_and_digit x (2 ^ suc k),
  double k,
  ap (λ (t : ℕ). bit_and (x / 2) t) (half k),
  bit_and-two_pow k (x / 2),
  ap (λ (t : ℕ). bit k (x / 2) * t) (double k),
)

-- 1 << k
pub bit-mask_self : (k : ℕ) → bit k (2 ^ k) ≡ 1
unfolding bit
bit-mask_self zero = refl
bit-mask_self (suc k) = rw (half k) (bit-mask_self k)

pub bit-mask_ne : (k j : ℕ) → j ≢ k → bit j (2 ^ k) ≡ 0
unfolding bit
bit-mask_ne zero zero h = absurd (h refl)
bit-mask_ne zero (suc j) h = bit-zero j
bit-mask_ne (suc k) zero h = omega (arith, double k)
bit-mask_ne (suc k) (suc j) h = rw (half k) (bit-mask_ne k j (λ e. h (ap suc e)))
