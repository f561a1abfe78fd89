-- ===== src/Helpers/BitArray/Shift.antt =====
-- The two loops of BitShiftArrayLeft: whole words, and bits within words.
use go_webtools.Base.{
  ℕ, zero, suc, ◌+◌, ◌-◌, ◌*◌, ◌/◌, ◌%◌, ◌^◌, ◌≤◌, ◌<◌, ◌≡◌, ◌∙◌, refl, ap, List, [], ◌∷◌, ◌++◌,
  length, get_or, drop, replicate, get_or-none, get_or-drop, get_or-padded, length-append,
  length-drop, length-replicate, arith, max,
}
use native.Mathlib.Decide.{dec_lt}
use native.Mathlib.Nat.{one-le-pow}
use go_webtools.Base.Bits.{
  bit, bit-zero, bit-bit_or, bit-shl, bit-shl_low, bit-shr, bit-mod, bit_of_lt,
}
use go_webtools.Helpers.Width.{
  Width, uint8, uint16, uint32, uint64, get_bit_size, get_bit_shift_size, modulus,
}
use go_webtools.Helpers.BitArray.{byte_index, bit_index, shift_words, shift_bits}
use go_webtools.Helpers.BitArray.Positions.{bit_at}

-- every word fits its type
abbrev pub AllWords : Width → List ℕ → Type 0
AllWords t [] = Unit {0}
AllWords t (x ∷ b) = (x < modulus t) × AllWords t b

module _ (t : Width) (n : ℕ) (part : n < get_bit_size t) where
  -- the high part of a shifted word
  high_bits :
      (k x : ℕ) → k < get_bit_size t → n ≤ k → bit k ((x * 2 ^ n) % modulus t) ≡ bit (k - n) x
  high_bits k x h l =
      let split : k ≡ n + (k - n) = omega arith in
      bit-mod (get_bit_size t) k (x * 2 ^ n) h
      ∙ ap (λ j. bit j (x * 2 ^ n)) split
      ∙ bit-shl n (k - n) x

  low_bits : (k x : ℕ) → k < get_bit_size t → k < n → bit k ((x * 2 ^ n) % modulus t) ≡ 0
  low_bits k x h l = bit-mod (get_bit_size t) k (x * 2 ^ n) h ∙ bit-shl_low n k x l

  -- what comes over from the next word
  carried : (k y : ℕ) → bit k (y / 2 ^ (get_bit_size t - n)) ≡ bit (get_bit_size t - n + k) y
  carried k y = bit-shr (get_bit_size t - n) k y

  -- one word of the result, from the two words that it is made of
  abbrev joined : ℕ → ℕ → ℕ → ℕ
  joined k x y = max (bit k ((x * 2 ^ n) % modulus t)) (bit k (y / 2 ^ (get_bit_size t - n)))

  joined_high :
      (k x y : ℕ) → k < get_bit_size t → n ≤ k → y < modulus t → joined k x y ≡ bit (k - n) x
  joined_high k x y h l w = omega (
    arith,
    high_bits k x h l,
    carried k y,
    bit_of_lt (get_bit_size t) (get_bit_size t - n + k) y w (omega arith),
  )

  joined_low :
      (k x y : ℕ) → k < get_bit_size t → k < n → joined k x y ≡ bit (get_bit_size t - n + k) y
  joined_low k x y h l = omega (arith, low_bits k x h l, carried k y)

  bit-shift_bits :
      (b : List ℕ) (i k : ℕ)
      → i < length b
      → bit k (get_or (shift_bits t n b) i 0) ≡ joined k (get_or b i 0) (get_or b (i + 1) 0)
  unfolding shift_bits
  bit-shift_bits [] i k h = absurd (omega arith)
  bit-shift_bits (x ∷ []) zero k h = omega (arith, carried k 0, bit-zero (get_bit_size t - n + k))
  bit-shift_bits (x ∷ []) (suc i) k h = absurd (omega arith)
  bit-shift_bits (x ∷ y ∷ b) zero k h =
      bit-bit_or k ((x * 2 ^ n) % modulus t) (y / 2 ^ (get_bit_size t - n))
  bit-shift_bits (x ∷ y ∷ b) (suc i) k h =
      let next : suc i + 1 ≡ suc (i + 1) = omega arith in
      rw next (bit-shift_bits (y ∷ b) i k (omega arith))

pub length-shift_bits : (t : Width) (n : ℕ) (b : List ℕ) → length (shift_bits t n b) ≡ length b
unfolding shift_bits
length-shift_bits t n [] = refl
length-shift_bits t n (x ∷ []) = refl
length-shift_bits t n (x ∷ y ∷ b) = ap suc (length-shift_bits t n (y ∷ b))

pub length-shift_words : (n : ℕ) (b : List ℕ) → n ≤ length b → length (shift_words n b) ≡ length b
length-shift_words n b h =
    let zeros : List ℕ = replicate n 0 in
    let replicated : length zeros ≡ n = length-replicate n 0 in
    omega (arith, length-append (drop n b) zeros, length-drop n b, replicated)

pub word-lt : (t : Width) (b : List ℕ) (i : ℕ) → AllWords t b → get_or b i 0 < modulus t
word-lt t [] i h = one-le-pow (get_bit_size t) 2 (omega arith)
word-lt t (x ∷ b) zero h = h.0
word-lt t (x ∷ b) (suc i) h = word-lt t b i h.1

-- where a position goes that stays in its word, and one that comes from the next
pub stays :
    (t : Width) (p n : ℕ)
    → n ≤ bit_index t p
    → (byte_index t (p + n) ≡ byte_index t p) × (bit_index t (p + n) ≡ bit_index t p - n)
stays uint8 p n h = omega arith
stays uint16 p n h = omega arith
stays uint32 p n h = omega arith
stays uint64 p n h = omega arith

pub comes :
    (t : Width) (p n : ℕ)
    → n < get_bit_size t
    → bit_index t p < n
    → (byte_index t (p + n) ≡ byte_index t p + 1)
      × (bit_index t (p + n) ≡ get_bit_size t - n + bit_index t p)
comes uint8 p n k h = omega arith
comes uint16 p n k h = omega arith
comes uint32 p n k h = omega arith
comes uint64 p n k h = omega arith

pub bit_index-lt : (t : Width) (p : ℕ) → bit_index t p < get_bit_size t
bit_index-lt uint8 p = omega arith
bit_index-lt uint16 p = omega arith
bit_index-lt uint32 p = omega arith
bit_index-lt uint64 p = omega arith

pub bit_at-shift_bits :
    (t : Width) (n : ℕ) (b : List ℕ) (p : ℕ)
    → n < get_bit_size t
    → AllWords t b
    → byte_index t p < length b
    → bit_at t (shift_bits t n b) p ≡ bit_at t b (p + n)
bit_at-shift_bits t n b p part words inside =
    let k = bit_index t p in
    let i = byte_index t p in
    bit-shift_bits t n part b i k inside ∙ elim (dec_lt k n) [
      | yes low ↦
          let (word, place) = comes t p n part low in
          rw (word, place)
            (joined_low t n part k (get_or b i 0) (get_or b (i + 1) 0) (bit_index-lt t p) low)
      | no high ↦
          let (word, place) = stays t p n (omega arith) in
          rw (word, place)
            (joined_high t n part k (get_or b i 0) (get_or b (i + 1) 0) (bit_index-lt t p)
              (omega arith) (word-lt t b (i + 1) words))
    ]

pub moved_word :
    (t : Width) (p m : ℕ)
    → (byte_index t (p + m * get_bit_size t) ≡ m + byte_index t p)
      × (bit_index t (p + m * get_bit_size t) ≡ bit_index t p)
moved_word uint8 p m = omega arith
moved_word uint16 p m = omega arith
moved_word uint32 p m = omega arith
moved_word uint64 p m = omega arith

pub bit_at-shift_words :
    (t : Width) (m : ℕ) (b : List ℕ) (p : ℕ)
    → bit_at t (shift_words m b) p ≡ bit_at t b (p + m * get_bit_size t)
bit_at-shift_words t m b p =
    rw
      (
        (moved_word t p m).0,
        (moved_word t p m).1,
        get_or-padded (drop m b) m (byte_index t p) 0,
        get_or-drop m b (byte_index t p) 0,
      )
      refl

pub AllWords-zeros : (t : Width) (n : ℕ) → AllWords t (replicate n 0)
AllWords-zeros t zero = tt
AllWords-zeros t (suc n) = (one-le-pow (get_bit_size t) 2 (omega arith), AllWords-zeros t n)

pub AllWords-append : (t : Width) (b c : List ℕ) → AllWords t b → AllWords t c → AllWords t (b ++ c)
AllWords-append t [] c h k = k
AllWords-append t (x ∷ b) c h k = (h.0, AllWords-append t b c h.1 k)

AllWords-drop : (t : Width) (n : ℕ) (b : List ℕ) → AllWords t b → AllWords t (drop n b)
AllWords-drop t zero b h = h
AllWords-drop t (suc n) [] h = h
AllWords-drop t (suc n) (x ∷ b) h = AllWords-drop t n b h.1

pub AllWords-shift_words :
    (t : Width) (m : ℕ) (b : List ℕ) → AllWords t b → AllWords t (shift_words m b)
AllWords-shift_words t m b h =
    AllWords-append t (drop m b) (replicate m 0) (AllWords-drop t m b h) (AllWords-zeros t m)

-- a position past the end reads 0
pub bit_at-outside : (t : Width) (b : List ℕ) (p : ℕ) → length b ≤ byte_index t p → bit_at t b p ≡ 0
bit_at-outside t b p h = rw (get_or-none b (byte_index t p) 0 h) (bit-zero (bit_index t p))

-- the parts of a shift
pub parts :
    (t : Width) (n : ℕ) → n / 2 ^ get_bit_shift_size t * get_bit_size t + n % get_bit_size t ≡ n
parts uint8 n = omega arith
parts uint16 n = omega arith
parts uint32 n = omega arith
parts uint64 n = omega arith

pub part-lt : (t : Width) (n : ℕ) → n % get_bit_size t < get_bit_size t
part-lt uint8 n = omega arith
part-lt uint16 n = omega arith
part-lt uint32 n = omega arith
part-lt uint64 n = omega arith

pub later : (t : Width) (p n : ℕ) → byte_index t p ≤ byte_index t (p + n)
later uint8 p n = omega arith
later uint16 p n = omega arith
later uint32 p n = omega arith
later uint64 p n = omega arith

pub past : (t : Width) (p n : ℕ) → n / 2 ^ get_bit_shift_size t ≤ byte_index t (p + n)
past uint8 p n = omega arith
past uint16 p n = omega arith
past uint32 p n = omega arith
past uint64 p n = omega arith
