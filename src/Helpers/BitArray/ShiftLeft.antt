-- ===== src/Helpers/BitArray/ShiftLeft.antt =====
-- The whole of BitShiftArrayLeft, for a shift that is not negative.
use go_webtools.Base.{
  ℕ, ◌+◌, ◌*◌, ◌/◌, ◌%◌, ◌^◌, ◌<◌, ◌≡◌, ◌∙◌, refl, sym, ap, List, ltb, leb, ◌==◌, if◌then◌else◌,
  length, get_or-replicate, length-replicate, arith, Bool-cases, inl, inr, ltb-false, leb→le,
  leb-false, ==_iff,
}
use native.Mathlib.Decide.{dec_lt}
use go_webtools.Base.Bits.{bit-zero}
use go_webtools.Helpers.Width.{Width, get_bit_size, get_bit_shift_size}
use go_webtools.Helpers.BitArray.{
  byte_index, bit_index, shift_words, shift_bits, bit_shift_array_left,
}
use go_webtools.Helpers.BitArray.Positions.{bit_at}
use go_webtools.Helpers.BitArray.Shift.{
  AllWords, length-shift_bits, length-shift_words, bit_at-shift_bits, bit_at-shift_words,
  AllWords-shift_words, bit_at-outside, parts, part-lt, later, past,
}

module _ (t : Width) (b : List ℕ) (n : ℕ) where
  abbrev words : ℕ
  words = n / 2 ^ get_bit_shift_size t

  abbrev rest : ℕ
  rest = n % get_bit_size t

  abbrev moved : List ℕ
  moved = if ltb 0 words then shift_words words b else b

  bit_at-moved : (p : ℕ) → bit_at t moved p ≡ bit_at t b (p + words * get_bit_size t)
  bit_at-moved p = elim (Bool-cases (ltb 0 words)) [
    | inl some_words ↦ rw some_words (bit_at-shift_words t words b p)
    | inr no_words ↦
        let none : words ≡ 0 = omega (arith, ltb-false 0 words no_words) in
        let same : p ≡ p + words * get_bit_size t = rw none (omega arith) in
        rw no_words (ap (bit_at t b) same)
  ]

  length-moved : words < length b → length moved ≡ length b
  length-moved h = elim (Bool-cases (ltb 0 words)) [
    | inl some_words ↦ rw some_words (length-shift_words words b (omega arith))
    | inr no_words ↦ rw no_words refl
  ]

  AllWords-moved : AllWords t b → AllWords t moved
  AllWords-moved h = elim (Bool-cases (ltb 0 words)) [
    | inl some_words ↦ rw some_words (AllWords-shift_words t words b h)
    | inr no_words ↦ rw no_words h
  ]

  -- the shift within the words, after the shift by words
  bit_at-shifted :
      (p : ℕ)
      → AllWords t b
      → words < length b
      → bit_at t (shift_bits t rest moved) p ≡ bit_at t b (p + n)
  bit_at-shifted p h inside = elim (dec_lt (byte_index t p) (length b)) [
    | yes here ↦
        let size = length-moved inside in
        let place : p + rest + words * get_bit_size t ≡ p + n = omega (arith, parts t n) in
        bit_at-shift_bits t rest moved p (part-lt t n) (AllWords-moved h) (rw size here)
        ∙ bit_at-moved (p + rest)
        ∙ ap (bit_at t b) place
    | no out ↦
        bit_at-outside t (shift_bits t rest moved) p
          (rw (length-shift_bits t rest moved, length-moved inside) (omega arith))
        ∙ sym (bit_at-outside t b (p + n) (omega (arith, later t p n)))
  ]

  -- For a shift `n` that is not negative, on an array whose words fit their type,
  -- BitShiftArrayLeft has at every position the bit that stood `n` positions further on, and 0
  -- where that is past the end.
  pub bit_at-bit_shift_array_left :
      (p : ℕ) → AllWords t b → bit_at t (bit_shift_array_left t b n) p ≡ bit_at t b (p + n)
  unfolding bit_shift_array_left
  bit_at-bit_shift_array_left p h = elim (Bool-cases (n == 0)) [
    | inl still ↦
        let nothing : p ≡ p + n = omega (arith, (==_iff n 0).0 still) in
        rw still (ap (bit_at t b) nothing)
    | inr moves ↦ elim (Bool-cases (leb (length b) words)) [
      | inl all ↦
          rw
            (
              moves,
              all,
              get_or-replicate {A = ℕ} (length b) (byte_index t p) 0,
              bit-zero (bit_index t p),
            )
            (sym (bit_at-outside t b (p + n) (omega (arith, leb→le _ _ all, past t p n))))
      | inr inside ↦
          let enough : words < length b = leb-false (length b) words inside in
          elim (Bool-cases (ltb 0 rest)) [
            | inl some_bits ↦ rw (moves, inside, some_bits) (bit_at-shifted p h enough)
            | inr no_bits ↦
                let place : p + words * get_bit_size t ≡ p + n =
                  omega (arith, parts t n, ltb-false 0 rest no_bits) in
                rw (moves, inside, no_bits) (bit_at-moved p ∙ ap (bit_at t b) place)
          ]
    ]
  ]

  pub length-bit_shift_array_left : length (bit_shift_array_left t b n) ≡ length b
  unfolding bit_shift_array_left
  length-bit_shift_array_left = elim (Bool-cases (n == 0)) [
    | inl still ↦ rw still refl
    | inr moves ↦ elim (Bool-cases (leb (length b) words)) [
      | inl all ↦ rw (moves, all) (length-replicate (length b) 0)
      | inr inside ↦
          let enough : words < length b = leb-false (length b) words inside in
          elim (Bool-cases (ltb 0 rest)) [
            | inl some_bits ↦
                rw (moves, inside, some_bits) (length-shift_bits t rest moved ∙ length-moved enough)
            | inr no_bits ↦ rw (moves, inside, no_bits) (length-moved enough)
          ]
    ]
  ]
