-- ===== src/Helpers/ReplayWindow/Setup.antt =====
-- Subtraction in an unsigned type, and the invariant of a window.
use go_webtools.Base.{
  ℕ, ◌+◌, ◌-◌, ◌*◌, ◌/◌, ◌^◌, ◌≤◌, ◌<◌, ◌≡◌, ◌⊎◌, inl, inr, refl, false, length, arith,
}
use native.Mathlib.Nat.{mod-eq_of_lt, mod-eq-sub-mod, mod-lt, mul-pos}
use native.Mathlib.Decide.{dec_le}
use go_webtools.Helpers.Width.{
  Width, uint8, uint16, uint32, uint64, get_bit_size, get_bit_shift_size, modulus,
}
use go_webtools.Helpers.BitArray.Positions.{bit_at}
use go_webtools.Helpers.BitArray.Shift.{AllWords}
use go_webtools.Helpers.ReplayWindow.{ReplayWindow, sub, get_window_bit_size}

pub modulus-large : (c : Width) → 256 ≤ modulus c
modulus-large uint8 = omega arith
modulus-large uint16 = omega arith
modulus-large uint32 = omega arith
modulus-large uint64 = omega arith

pub get_bit_size-pos : (t : Width) → 0 < get_bit_size t
get_bit_size-pos uint8 = omega arith
get_bit_size-pos uint16 = omega arith
get_bit_size-pos uint32 = omega arith
get_bit_size-pos uint64 = omega arith

-- The difference of two numbers of the type, with or without a borrow.
pub sub_cases :
    (c : Width) (a b : ℕ)
    → a < modulus c
    → b < modulus c
    → ((b ≤ a) × (sub c a b ≡ a - b)) ⊎ ((a < b) × (sub c a b ≡ a + modulus c - b))
sub_cases c a b h k = elim (dec_le b a) [
  | yes p ↦ inl (
    p,
    omega (
      arith,
      mod-eq-sub-mod {n = a + modulus c - b} {m = modulus c} (omega arith),
      mod-eq_of_lt {n = a + modulus c - b - modulus c} {m = modulus c} (omega arith),
    ),
  )
  | no p ↦ inr (omega arith, mod-eq_of_lt {n = a + modulus c - b} {m = modulus c} (omega arith))
]

pub sub-lt : (c : Width) (a b : ℕ) → sub c a b < modulus c
sub-lt c a b = mod-lt (a + modulus c - b) (omega (arith, modulus-large c))

shift_size : (t : Width) (n : ℕ) → n * 2 ^ get_bit_shift_size t ≡ n * get_bit_size t
shift_size uint8 n = refl
shift_size uint16 n = refl
shift_size uint32 n = refl
shift_size uint64 n = refl

module _ (c t : Width) where
  -- the number of bits of a window
  abbrev pub size : ReplayWindow → ℕ
  size w = length w.window * get_bit_size t

  pub record IsValid (w : ReplayWindow) : Type 0 where
    pub words : AllWords t w.window
    pub some_words : 0 < length w.window
    -- the window spans at most half of the numbers
    pub fits : 2 * size w ≤ modulus c
    pub edge : w.right_edge < modulus c
    pub jump : w.max_forward_jump ≡ (modulus c - 1) / 2

  -- after the first number: the newest number is in the window
  pub record IsOpen (w : ReplayWindow) : Type 0 where
    pub valid : IsValid w
    pub started : w.is_first_value ≡ false
    pub newest : bit_at t w.window (size w - 1) ≡ 1

  pub window_size : (w : ReplayWindow) → IsValid w → get_window_bit_size c t w ≡ size w
  unfolding get_window_bit_size
  window_size w v =
      rw (shift_size t (length w.window)) (mod-eq_of_lt (omega (arith, v.fits, modulus-large c)))

  pub size-pos : (w : ReplayWindow) → IsValid w → 0 < size w
  size-pos w v = mul-pos v.some_words (get_bit_size-pos t)
