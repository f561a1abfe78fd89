-- ===== src/Helpers/BitArray.antt =====
-- helpertools/BitOperations.go: arrays of words read as one row of bits, from the highest bit of
-- the first word on.
pub mod Positions
pub mod Shift
pub mod ShiftLeft
pub mod ShiftRight
pub mod Kept
use Prim.Native.Nat.{bit_and, bit_or, bit_xor}
use go_webtools.Base.{
  ℕ, zero, suc, ◌+◌, ◌-◌, ◌*◌, ◌/◌, ◌%◌, ◌^◌, ◌≡◌, Bool, true, false, not, List, [], ◌∷◌, ◌++◌, ltb,
  leb, ◌==◌, if◌then◌else◌, length, get_or, set, take, drop, replicate,
}
use go_webtools.Helpers.Width.{Width, get_bit_size, get_bit_shift_size, modulus}

-- `x &^ y`: the digits of `x & y` are digits of `x`, so they are taken out without a borrow
abbrev and_not : ℕ → ℕ → ℕ
and_not x y = x - bit_and x y

-- `1 << k` for `k` below the width of the type
abbrev bit_mask : ℕ → ℕ
bit_mask k = 2 ^ k

-- The two loops that move whole words: word `i` becomes word `i + n`, and zeros follow. Each
-- word is read before it is overwritten.
abbrev pub shift_words : ℕ → List ℕ → List ℕ
shift_words n b = drop n b ++ replicate n 0

module _ (t : Width) where
  unfoldable pub set_bit : ℕ → ℕ → ℕ
  set_bit b pos =
      if leb (get_bit_size t) pos then b else bit_or b (bit_mask (get_bit_size t - 1 - pos))

  unfoldable pub clear_bit : ℕ → ℕ → ℕ
  clear_bit b pos =
      if leb (get_bit_size t) pos then b else and_not b (bit_mask (get_bit_size t - 1 - pos))

  unfoldable pub check_bit : ℕ → ℕ → Bool
  check_bit b pos =
      if leb (get_bit_size t) pos
      then false
      else not (bit_and b (bit_mask (get_bit_size t - 1 - pos)) == 0)

  -- `pos >> GetBitShiftSize`
  abbrev pub byte_index : ℕ → ℕ
  byte_index pos = pos / 2 ^ get_bit_shift_size t

  -- `mask - (pos & mask)` for `mask := GetBitSize - 1`, which is a row of ones
  abbrev pub bit_index : ℕ → ℕ
  bit_index pos = get_bit_size t - 1 - pos % get_bit_size t

  unfoldable pub set_bit_array : List ℕ → ℕ → List ℕ
  set_bit_array b pos =
      if leb (length b) (byte_index pos)
      then b
      else set b (byte_index pos) (bit_or (get_or b (byte_index pos) 0) (bit_mask (bit_index pos)))

  unfoldable pub clear_bit_array : List ℕ → ℕ → List ℕ
  clear_bit_array b pos =
      if leb (length b) (byte_index pos)
      then b
      else set b (byte_index pos) (and_not (get_or b (byte_index pos) 0) (bit_mask (bit_index pos)))

  unfoldable pub check_bit_array : List ℕ → ℕ → Bool
  check_bit_array b pos =
      if leb (length b) (byte_index pos)
      then false
      else not (bit_and (get_or b (byte_index pos) 0) (bit_mask (bit_index pos)) == 0)

  -- The loop `data[i] = data[i] << n | data[i+1] >> (bitCount - n)`, and the last word after it.
  -- Word `i + 1` is still the old one when word `i` is written.
  unfoldable pub shift_bits : ℕ → List ℕ → List ℕ
  shift_bits n [] = []
  shift_bits n (x ∷ []) = (x * 2 ^ n) % modulus t ∷ []
  shift_bits n (x ∷ y ∷ b) =
      bit_or ((x * 2 ^ n) % modulus t) (y / 2 ^ (get_bit_size t - n)) ∷ shift_bits n (y ∷ b)

  -- BitShiftArrayLeft for a shift that is not negative
  unfoldable pub bit_shift_array_left : List ℕ → ℕ → List ℕ
  unfolding shift_bits
  bit_shift_array_left b n =
      let words = n / 2 ^ get_bit_shift_size t in
      let rest = n % get_bit_size t in
      let moved = (if ltb 0 words then shift_words words b else b) in
      if n == 0
      then b
      else (if leb (length b) words
          then replicate (length b) 0
          else (if ltb 0 rest then shift_bits rest moved else moved))

-- `target[i] ^= source[i]` and `target[i] |= source[i]` on the shorter length
unfoldable pub xor_arrays : List ℕ → List ℕ → List ℕ
xor_arrays [] s = []
xor_arrays (x ∷ r) [] = x ∷ r
xor_arrays (x ∷ r) (y ∷ s) = bit_xor x y ∷ xor_arrays r s

unfoldable pub or_arrays : List ℕ → List ℕ → List ℕ
or_arrays [] s = []
or_arrays (x ∷ r) [] = x ∷ r
or_arrays (x ∷ r) (y ∷ s) = bit_or x y ∷ or_arrays r s
