-- ===== src/Helpers/BitArray/ShiftRight.antt =====
-- helpertools/BitOperations.go: BitShiftArrayRight, and both shifts by a number with a sign.
pub mod Loops
pub mod Whole
use go_webtools.Base.{
  ℕ, zero, suc, ◌+◌, ◌-◌, ◌*◌, ◌/◌, ◌%◌, ◌^◌, ◌<◌, ◌≤◌, ◌≡◌, ◌∙◌, refl, sym, ap, subst, List, [],
  ◌∷◌, ◌++◌, ltb, leb, ◌==◌, if◌then◌else◌, length, get_or, take, replicate, get_or-replicate, max,
  arith, Bool-cases, inl, inr, ltb-false, leb→le, leb-false, ==_iff, length-append, length-take,
  length-replicate,
}
use Prim.Native.Nat.{bit_or}
use native.Mathlib.Decide.{dec_lt}
use go_webtools.Base.Decimal.{ℤ, pos, negsuc}
use go_webtools.Base.Bits.{
  bit, bit-zero, bit-bit_or, bit-shl, bit-shl_low, bit-shr, bit-mod, bit_of_lt,
}
use go_webtools.Helpers.Width.{
  Width, uint8, uint16, uint32, uint64, get_bit_size, get_bit_shift_size, modulus,
}
use go_webtools.Helpers.BitArray.{byte_index, bit_index, bit_shift_array_left}
use go_webtools.Helpers.BitArray.Positions.{bit_at}
use go_webtools.Helpers.BitArray.Shift.{
  AllWords, stays, comes, bit_index-lt, word-lt, moved_word, parts, part-lt, past, AllWords-append,
  AllWords-zeros,
}

-- The two loops that move whole words: word `i` becomes word `i - n`, and zeros stand in front.
abbrev pub shift_words_right : ℕ → List ℕ → List ℕ
shift_words_right n b = replicate n 0 ++ take (length b - n) b

module _ (t : Width) where
  -- The loop `data[i] = data[i] >> n | data[i-1] << (bitCount - n)` from the last word down, so that
  -- `data[i-1]` is the old one: `x` is the word in front.
  unfoldable pub carry_right : ℕ → ℕ → List ℕ → List ℕ
  carry_right n x [] = []
  carry_right n x (y ∷ b) =
      bit_or (y / 2 ^ n) ((x * 2 ^ (get_bit_size t - n)) % modulus t) ∷ carry_right n y b

  -- with the first word
  unfoldable pub shift_bits_right : ℕ → List ℕ → List ℕ
  unfolding carry_right
  shift_bits_right n [] = []
  shift_bits_right n (x ∷ b) = x / 2 ^ n ∷ carry_right n x b

  -- BitShiftArrayRight for a shift that is not negative
  unfoldable pub bit_shift_array_right : List ℕ → ℕ → List ℕ
  unfolding shift_bits_right
  bit_shift_array_right b n =
      let words = n / 2 ^ get_bit_shift_size t in
      let rest = n % get_bit_size t in
      let moved = (if ltb 0 words then shift_words_right words b else b) in
      if n == 0
      then b
      else (if leb (length b) words
          then replicate (length b) 0
          else (if ltb 0 rest then shift_bits_right rest moved else moved))

  -- the two functions on an `int` above the least one, which has no negative
  unfoldable pub bit_shift_left_signed : List ℕ → ℤ → List ℕ
  unfolding bit_shift_array_left bit_shift_array_right
  bit_shift_left_signed b (pos n) = bit_shift_array_left t b n
  bit_shift_left_signed b (negsuc n) = bit_shift_array_right b (suc n)

  unfoldable pub bit_shift_right_signed : List ℕ → ℤ → List ℕ
  unfolding bit_shift_array_left bit_shift_array_right
  bit_shift_right_signed b (pos n) = bit_shift_array_right b n
  bit_shift_right_signed b (negsuc n) = bit_shift_array_left t b (suc n)
