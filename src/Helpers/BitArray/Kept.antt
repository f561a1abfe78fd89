-- ===== src/Helpers/BitArray/Kept.antt =====
-- The words of an array after an operation, against the bounds of their type.
use Prim.Native.Nat.{bit_or}
use go_webtools.Base.{
  ℕ, zero, suc, ◌-◌, ◌*◌, ◌/◌, ◌%◌, ◌^◌, ◌<◌, List, [], ◌∷◌, Bool, true, false, if◌then◌else◌, leb,
  ltb, ◌==◌, inl, inr, Bool-cases, length, get_or, set, replicate, arith,
}
use native.Mathlib.Nat.{one-le-pow, pow-le-pow_right, pow-suc, mod-lt, div-le_self}
use go_webtools.Base.Bits.{bit_or-lt}
use go_webtools.Helpers.Width.{Width, get_bit_size, get_bit_shift_size, modulus}
use go_webtools.Helpers.BitArray.{
  byte_index, bit_index, shift_words, shift_bits, bit_shift_array_left, set_bit_array,
}
use go_webtools.Helpers.BitArray.Shift.{
  AllWords, AllWords-zeros, AllWords-shift_words, word-lt, bit_index-lt,
}

mask-lt : (k w : ℕ) → k < w → 2 ^ k < 2 ^ w
mask-lt k w h = omega (
  arith,
  pow-le-pow_right {n = 2} (omega arith) {i = suc k} {j = w} (omega arith),
  pow-suc 2 k,
  one-le-pow k 2 (omega arith),
)

module _ (t : Width) where
  if_words :
      (c : Bool) (x y : List ℕ) → AllWords t x → AllWords t y → AllWords t (if c then x else y)
  if_words true x y h k = h
  if_words false x y h k = k

  pub AllWords-set : (b : List ℕ) (i x : ℕ) → AllWords t b → x < modulus t → AllWords t (set b i x)
  AllWords-set [] i x h k = h
  AllWords-set (y ∷ b) zero x h k = (k, h.1)
  AllWords-set (y ∷ b) (suc i) x h k = (h.0, AllWords-set b i x h.1 k)

  quotient-lt : (x n : ℕ) → x < modulus t → x / 2 ^ n < modulus t
  quotient-lt x n h = omega (arith, div-le_self x (2 ^ n))

  remainder-lt : (x : ℕ) → x % modulus t < modulus t
  remainder-lt x = mod-lt x (one-le-pow (get_bit_size t) 2 (omega arith))

  AllWords-shift_bits : (n : ℕ) (b : List ℕ) → AllWords t b → AllWords t (shift_bits t n b)
  unfolding shift_bits
  AllWords-shift_bits n [] h = h
  AllWords-shift_bits n (x ∷ []) h = (remainder-lt (x * 2 ^ n), h.1)
  AllWords-shift_bits n (x ∷ y ∷ b) h = (
    bit_or-lt (get_bit_size t) ((x * 2 ^ n) % modulus t) (y / 2 ^ (get_bit_size t - n))
        (remainder-lt (x * 2 ^ n)) (quotient-lt y (get_bit_size t - n) h.1.0),
    AllWords-shift_bits n (y ∷ b) h.1,
  )

  pub AllWords-bit_shift_array_left :
      (b : List ℕ) (n : ℕ) → AllWords t b → AllWords t (bit_shift_array_left t b n)
  unfolding bit_shift_array_left
  AllWords-bit_shift_array_left b n h =
      let words = n / 2 ^ get_bit_shift_size t in
      let rest = n % get_bit_size t in
      let moved = (if ltb 0 words then shift_words words b else b) in
      let moved_words =
        if_words (ltb 0 words) (shift_words words b) b (AllWords-shift_words t words b h) h in
      if_words (n == 0) b _ h (
        if_words (leb (length b) words) (replicate (length b) 0) _ (AllWords-zeros t (length b)) (
          if_words (ltb 0 rest) (shift_bits t rest moved) moved
            (AllWords-shift_bits rest moved moved_words) moved_words))

  pub AllWords-set_bit_array :
      (b : List ℕ) (p : ℕ) → AllWords t b → AllWords t (set_bit_array t b p)
  unfolding set_bit_array
  AllWords-set_bit_array b p h = elim (Bool-cases (leb (length b) (byte_index t p))) [
    | inl outside ↦ rw outside h
    | inr inside ↦ rw inside (
        AllWords-set b (byte_index t p) (bit_or (get_or b (byte_index t p) 0) (2 ^ bit_index t p)) h
          (bit_or-lt (get_bit_size t) (get_or b (byte_index t p) 0) (2 ^ bit_index t p)
            (word-lt t b (byte_index t p) h)
            (mask-lt (bit_index t p) (get_bit_size t) (bit_index-lt t p))))
  ]
