-- ===== src/Helpers/BitArray/ShiftRight/Whole.antt =====
-- The whole of BitShiftArrayRight, for a shift that is not negative.
use go_webtools.Base.{
  ℕ, zero, suc, ◌+◌, ◌-◌, ◌*◌, ◌/◌, ◌%◌, ◌^◌, ◌<◌, ◌≤◌, ◌≡◌, ◌∙◌, refl, ap, subst, List, ◌++◌, ltb,
  leb, ◌==◌, if◌then◌else◌, length, get_or, take, replicate, get_or-replicate, arith, Bool-cases,
  inl, inr, ltb-false, leb→le, leb-false, ==_iff,
}
use native.Mathlib.Decide.{dec_lt}
use go_webtools.Base.Bits.{bit-zero}
use go_webtools.Helpers.Width.{
  Width, uint8, uint16, uint32, uint64, get_bit_size, get_bit_shift_size,
}
use go_webtools.Helpers.BitArray.{byte_index, bit_index}
use go_webtools.Helpers.BitArray.Positions.{bit_at}
use go_webtools.Helpers.BitArray.Shift.{
  AllWords, parts, part-lt, past, AllWords-append, AllWords-zeros,
}
use go_webtools.Helpers.BitArray.ShiftRight.{
  shift_words_right, shift_bits_right, bit_shift_array_right,
}
use go_webtools.Helpers.BitArray.ShiftRight.Loops.{
  bit_at-shift_words_right, length-shift_words_right, AllWords-take, bit_at-shift_bits_right,
  bit_at-first, earlier,
}

reaches :
    (t : Width) (p n : ℕ) → n / 2 ^ get_bit_shift_size t + byte_index t p ≤ byte_index t (p + n)
reaches uint8 p n = omega arith
reaches uint16 p n = omega arith
reaches uint32 p n = omega arith
reaches uint64 p n = omega arith

get_or-front : (m : ℕ) (b : List ℕ) (i : ℕ) → i < m → get_or (replicate m 0 ++ b) i 0 ≡ 0
get_or-front zero b i h = absurd (omega arith)
get_or-front (suc m) b zero h = refl
get_or-front (suc m) b (suc i) h = get_or-front m b i (omega arith)

in_words : (t : Width) (q m : ℕ) → q < m * get_bit_size t → byte_index t q < m
in_words uint8 q m h = omega arith
in_words uint16 q m h = omega arith
in_words uint32 q m h = omega arith
in_words uint64 q m h = omega arith

module _ (t : Width) (b : List ℕ) (n : ℕ) where
  abbrev words : ℕ
  words = n / 2 ^ get_bit_shift_size t

  abbrev rest : ℕ
  rest = n % get_bit_size t

  abbrev moved : List ℕ
  moved = if ltb 0 words then shift_words_right words b else b

  bit_at-moved :
      (p : ℕ)
      → words + byte_index t p < length b
      → bit_at t moved (p + words * get_bit_size t) ≡ bit_at t b p
  bit_at-moved p h = elim (Bool-cases (ltb 0 words)) [
    | inl some_words ↦ rw some_words (bit_at-shift_words_right t words b p h)
    | inr no_words ↦
        let none : words ≡ 0 = omega (arith, ltb-false 0 words no_words) in
        let same : p + words * get_bit_size t ≡ p = rw none (omega arith) in
        rw no_words (ap (bit_at t b) same)
  ]

  length-moved : words < length b → length moved ≡ length b
  length-moved h = elim (Bool-cases (ltb 0 words)) [
    | inl some_words ↦ rw some_words (length-shift_words_right words b (omega arith))
    | inr no_words ↦ rw no_words refl
  ]

  AllWords-moved : AllWords t b → AllWords t moved
  AllWords-moved h = elim (Bool-cases (ltb 0 words)) [
    | inl some_words ↦ rw some_words (
        AllWords-append t (replicate words 0) (take (length b - words) b) (AllWords-zeros t words)
          (AllWords-take t (length b - words) b h))
    | inr no_words ↦ rw no_words h
  ]

  moved_front : (q : ℕ) → words < length b → q < words * get_bit_size t → bit_at t moved q ≡ 0
  moved_front q h l = elim (Bool-cases (ltb 0 words)) [
    | inl some_words ↦
        rw
          (
            some_words,
            get_or-front words (take (length b - words) b) (byte_index t q) (in_words t q words l),
          )
          (bit-zero (bit_index t q))
    | inr no_words ↦
        let none : words ≡ 0 = omega (arith, ltb-false 0 words no_words) in
        absurd (omega (arith, none, subst (λ m. q < m * get_bit_size t) none l))
  ]

  shifted_front :
      (q : ℕ)
      → AllWords t b
      → words < length b
      → q < n
      → bit_at t (shift_bits_right t rest moved) q ≡ 0
  shifted_front q h enough l = elim (dec_lt q rest) [
    | yes low ↦
        bit_at-first t rest (part-lt t n) moved q (AllWords-moved h)
          (rw (length-moved enough) (omega arith)) low
    | no high ↦
        let place : q ≡ q - rest + rest = omega arith in
        let front : q - rest < words * get_bit_size t = omega (arith, parts t n) in
        rw place (
          bit_at-shift_bits_right t rest (part-lt t n) moved (q - rest) (AllWords-moved h)
            (rw (length-moved enough, ← place) (omega (arith, earlier t q n l)))
          ∙ moved_front (q - rest) enough front)
  ]

  moved_on :
      (p : ℕ)
      → AllWords t b
      → byte_index t (p + n) < length b
      → bit_at t (bit_shift_array_right t b n) (p + n) ≡ bit_at t b p
  unfolding bit_shift_array_right
  moved_on p h inside = elim (Bool-cases (n == 0)) [
    | inl still ↦
        let nothing : p + n ≡ p = omega (arith, (==_iff n 0).0 still) in
        rw still (ap (bit_at t b) nothing)
    | inr moves ↦ elim (Bool-cases (leb (length b) words)) [
      | inl all ↦ absurd (omega (arith, leb→le _ _ all, past t p n))
      | inr some ↦
          let enough : words < length b = leb-false (length b) words some in
          let here : words + byte_index t p < length b = omega (arith, reaches t p n, inside) in
          elim (Bool-cases (ltb 0 rest)) [
            | inl some_bits ↦
                let place : p + n ≡ p + words * get_bit_size t + rest = omega (arith, parts t n) in
                rw (moves, some, some_bits, place)
                  (bit_at-shift_bits_right t rest (part-lt t n) moved (p + words * get_bit_size t)
                      (AllWords-moved h) (rw (length-moved enough, ← place) inside)
                    ∙ bit_at-moved p here)
            | inr no_bits ↦
                let place : p + n ≡ p + words * get_bit_size t =
                  omega (arith, parts t n, ltb-false 0 rest no_bits) in
                rw (moves, some, no_bits, place) (bit_at-moved p here)
          ]
    ]
  ]

  front_cleared : (q : ℕ) → AllWords t b → q < n → bit_at t (bit_shift_array_right t b n) q ≡ 0
  unfolding bit_shift_array_right
  front_cleared q h l = elim (Bool-cases (n == 0)) [
    | inl still ↦ absurd (omega (arith, (==_iff n 0).0 still))
    | inr moves ↦ elim (Bool-cases (leb (length b) words)) [
      | inl all ↦
          rw (moves, all, get_or-replicate {A = ℕ} (length b) (byte_index t q) 0)
            (bit-zero (bit_index t q))
      | inr some ↦
          let enough : words < length b = leb-false (length b) words some in
          elim (Bool-cases (ltb 0 rest)) [
            | inl some_bits ↦ rw (moves, some, some_bits) (shifted_front q h enough l)
            | inr no_bits ↦
                rw (moves, some, no_bits)
                  (moved_front q enough (omega (arith, parts t n, ltb-false 0 rest no_bits)))
          ]
    ]
  ]

  -- For a shift `n` that is not negative, on an array whose words fit their type, BitShiftArrayRight
  -- moves the bit at every position `n` positions on, where that is inside the array, and puts 0 at
  -- the first `n` positions.
  pub bit_at-bit_shift_array_right :
      AllWords t b
      → ((p : ℕ)
          → byte_index t (p + n) < length b
          → bit_at t (bit_shift_array_right t b n) (p + n) ≡ bit_at t b p)
        × ((q : ℕ) → q < n → bit_at t (bit_shift_array_right t b n) q ≡ 0)
  bit_at-bit_shift_array_right h = (λ p inside. moved_on p h inside, λ q l. front_cleared q h l)
