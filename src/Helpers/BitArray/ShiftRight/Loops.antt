-- ===== src/Helpers/BitArray/ShiftRight/Loops.antt =====
-- The two loops of BitShiftArrayRight: whole words, and bits within words.
use go_webtools.Base.{
  ℕ, zero, suc, ◌+◌, ◌-◌, ◌*◌, ◌/◌, ◌%◌, ◌^◌, ◌<◌, ◌≤◌, ◌≡◌, ◌∙◌, refl, ap, List, [], ◌∷◌, ◌++◌,
  length, get_or, take, replicate, max, arith, length-append, length-take, length-replicate,
}
use native.Mathlib.Decide.{dec_lt}
use go_webtools.Base.Bits.{
  bit, bit-zero, bit-bit_or, bit-shl, bit-shl_low, bit-shr, bit-mod, bit_of_lt,
}
use go_webtools.Helpers.Width.{
  Width, uint8, uint16, uint32, uint64, get_bit_size, get_bit_shift_size, modulus,
}
use go_webtools.Helpers.BitArray.{byte_index, bit_index}
use go_webtools.Helpers.BitArray.Positions.{bit_at}
use go_webtools.Helpers.BitArray.Shift.{AllWords, stays, comes, bit_index-lt, word-lt, moved_word}
use go_webtools.Helpers.BitArray.ShiftRight.{shift_words_right, carry_right, shift_bits_right}

get_or-behind : (m : ℕ) (b : List ℕ) (i : ℕ) → get_or (replicate m 0 ++ b) (m + i) 0 ≡ get_or b i 0
get_or-behind zero b i = ap (λ k. get_or b k 0) (omega arith)
get_or-behind (suc m) b i =
    let next : suc m + i ≡ suc (m + i) = omega arith in rw next (get_or-behind m b i)

get_or-take : (n : ℕ) (b : List ℕ) (i : ℕ) → i < n → get_or (take n b) i 0 ≡ get_or b i 0
get_or-take zero b i h = absurd (omega arith)
get_or-take (suc n) [] i h = refl
get_or-take (suc n) (x ∷ b) zero h = refl
get_or-take (suc n) (x ∷ b) (suc i) h = get_or-take n b i (omega arith)

in_first :
    (t : Width) (q : ℕ)
    → q < get_bit_size t
    → (byte_index t q ≡ 0) × (bit_index t q ≡ get_bit_size t - 1 - q)
in_first uint8 q h = omega arith
in_first uint16 q h = omega arith
in_first uint32 q h = omega arith
in_first uint64 q h = omega arith

pub earlier : (t : Width) (q n : ℕ) → q < n → byte_index t q ≤ n / 2 ^ get_bit_shift_size t
earlier uint8 q n h = omega arith
earlier uint16 q n h = omega arith
earlier uint32 q n h = omega arith
earlier uint64 q n h = omega arith

pub AllWords-take : (t : Width) (n : ℕ) (b : List ℕ) → AllWords t b → AllWords t (take n b)
AllWords-take t zero b h = tt
AllWords-take t (suc n) [] h = tt
AllWords-take t (suc n) (x ∷ b) h = (h.0, AllWords-take t n b h.1)

pub length-shift_words_right :
    (m : ℕ) (b : List ℕ) → m ≤ length b → length (shift_words_right m b) ≡ length b
length-shift_words_right m b h =
    let zeros : List ℕ = replicate m 0 in
    let replicated : length zeros ≡ m = length-replicate m 0 in
    omega (
      arith,
      length-append zeros (take (length b - m) b),
      length-take (length b - m) b (omega arith),
      replicated,
    )

module _ (t : Width) where
  module _ (n : ℕ) (part : n < get_bit_size t) where
    abbrev mixed : ℕ → ℕ → ℕ → ℕ
    mixed k x y = max (bit (n + k) y) (bit k ((x * 2 ^ (get_bit_size t - n)) % modulus t))

    bit-carry_right :
        (x : ℕ) (b : List ℕ) (i k : ℕ)
        → i < length b
        → bit k (get_or (carry_right t n x b) i 0) ≡ mixed k (get_or (x ∷ b) i 0) (get_or b i 0)
    unfolding carry_right
    bit-carry_right x [] i k h = absurd (omega arith)
    bit-carry_right x (y ∷ b) zero k h =
        bit-bit_or k (y / 2 ^ n) ((x * 2 ^ (get_bit_size t - n)) % modulus t)
        ∙ ap (λ z. max z (bit k ((x * 2 ^ (get_bit_size t - n)) % modulus t))) (bit-shr n k y)
    bit-carry_right x (y ∷ b) (suc i) k h = bit-carry_right y b i k (omega arith)

    bit-shift_bits_right :
        (b : List ℕ) (i k : ℕ)
        → i < length b
        → bit k (get_or (shift_bits_right t n b) i 0) ≡ mixed k (get_or (0 ∷ b) i 0) (get_or b i 0)
    unfolding shift_bits_right
    bit-shift_bits_right [] i k h = absurd (omega arith)
    bit-shift_bits_right (x ∷ b) zero k h =
        let none : bit k ((0 * 2 ^ (get_bit_size t - n)) % modulus t) ≡ 0 =
          ap (bit k) (omega arith) ∙ bit-zero k in
        omega (arith, none, bit-shr n k x)
    bit-shift_bits_right (x ∷ b) (suc i) k h = bit-carry_right x b i k (omega arith)

    -- a bit that stays in its word, and one that goes to the next
    mixed_here : (k x y : ℕ) → n ≤ k → k < get_bit_size t → mixed (k - n) x y ≡ bit k y
    mixed_here k x y l h =
        let back : n + (k - n) ≡ k = omega arith in
        rw back (
          omega (
            arith,
            bit-mod (get_bit_size t) (k - n) (x * 2 ^ (get_bit_size t - n)) (omega arith),
            bit-shl_low (get_bit_size t - n) (k - n) x (omega arith),
          ))

    mixed_next : (k x y : ℕ) → k < n → y < modulus t → mixed (get_bit_size t - n + k) x y ≡ bit k x
    mixed_next k x y l w = omega (
      arith,
      bit-mod (get_bit_size t) (get_bit_size t - n + k) (x * 2 ^ (get_bit_size t - n))
          (omega arith),
      bit-shl (get_bit_size t - n) k x,
      bit_of_lt (get_bit_size t) (n + (get_bit_size t - n + k)) y w (omega arith),
    )

    pub bit_at-shift_bits_right :
        (b : List ℕ) (p : ℕ)
        → AllWords t b
        → byte_index t (p + n) < length b
        → bit_at t (shift_bits_right t n b) (p + n) ≡ bit_at t b p
    bit_at-shift_bits_right b p words inside =
        let k = bit_index t p in
        let i = byte_index t p in
        bit-shift_bits_right b (byte_index t (p + n)) (bit_index t (p + n)) inside
        ∙ elim (dec_lt k n) [
          | yes low ↦
              let (word, place) = comes t p n part low in
              let next : i + 1 ≡ suc i = omega arith in
              rw (word, place, next)
                (mixed_next k (get_or b i 0) (get_or b (suc i) 0) low (word-lt t b (suc i) words))
          | no high ↦
              let (word, place) = stays t p n (omega arith) in
              rw (word, place)
                (mixed_here k (get_or (0 ∷ b) i 0) (get_or b i 0) (omega arith) (bit_index-lt t p))
        ]

    mixed_none : (k y : ℕ) → get_bit_size t ≤ n + k → y < modulus t → mixed k 0 y ≡ 0
    mixed_none k y l w =
        let none : bit k ((0 * 2 ^ (get_bit_size t - n)) % modulus t) ≡ 0 =
          ap (bit k) (omega arith) ∙ bit-zero k in
        omega (arith, none, bit_of_lt (get_bit_size t) (n + k) y w l)

    pub bit_at-first :
        (b : List ℕ) (q : ℕ)
        → AllWords t b
        → 0 < length b
        → q < n
        → bit_at t (shift_bits_right t n b) q ≡ 0
    bit_at-first b q words some_words l =
        let (word, place) = in_first t q (omega arith) in
        rw (word, place)
          (bit-shift_bits_right b 0 (get_bit_size t - 1 - q) some_words
            ∙ mixed_none (get_bit_size t - 1 - q) (get_or b 0 0) (omega arith)
                (word-lt t b 0 words))

  pub bit_at-shift_words_right :
      (m : ℕ) (b : List ℕ) (p : ℕ)
      → m + byte_index t p < length b
      → bit_at t (shift_words_right m b) (p + m * get_bit_size t) ≡ bit_at t b p
  bit_at-shift_words_right m b p h =
      rw
        (
          (moved_word t p m).0,
          (moved_word t p m).1,
          get_or-behind m (take (length b - m) b) (byte_index t p),
          get_or-take (length b - m) b (byte_index t p) (omega arith),
        )
        refl
