-- ===== src/Helpers/BitArray/Positions.antt =====
-- The row of bits that an array of words stands for, and what SetBitArray changes of it.
use Prim.Native.Nat.{bit_and, bit_or}
use go_webtools.Base.{
  ℕ, ◌^◌, ◌<◌, ◌≡◌, ◌≢◌, refl, sym, ap, false, not, ◌||◌, List, leb, ◌==◌, if◌then◌else◌, length,
  get_or, set, length-set, get_or-none, get_or-set, get_or-set_ne, arith, Bool-cases, inl, inr,
  leb→le, ==_iff, ne→==,
}
use native.Mathlib.Nat.{one-le-pow}
use native.Mathlib.Decide.{ℕ_discrete}
use go_webtools.Base.Bits.{
  bit, bit-le-one, bit-zero, bit-bit_or, bit-mask_self, bit-mask_ne, bit_and-two_pow,
}
use go_webtools.Helpers.Width.{Width, uint8, uint16, uint32, uint64}
use go_webtools.Helpers.BitArray.{byte_index, bit_index, set_bit_array, check_bit_array}

module _ (t : Width) where
  -- the bit at a position, from the highest bit of the first word on; 0 past the end
  abbrev pub bit_at : List ℕ → ℕ → ℕ
  bit_at b pos = bit (bit_index t pos) (get_or b (byte_index t pos) 0)

-- a position is its word and its place in the word
pub position_unique :
    (t : Width) (p q : ℕ) → byte_index t p ≡ byte_index t q → bit_index t p ≡ bit_index t q → p ≡ q
position_unique uint8 p q h k = omega arith
position_unique uint16 p q h k = omega arith
position_unique uint32 p q h k = omega arith
position_unique uint64 p q h k = omega arith

masked_test : (b k : ℕ) → not (bit_and b (2 ^ k) == 0) ≡ (bit k b == 1)
masked_test b k = ground (arith, bit_and-two_pow k b, bit-le-one k b, one-le-pow k 2)

-- CheckBitArray reads the bit at the position.
pub check_bit_array_lem :
    (t : Width) (b : List ℕ) (pos : ℕ) → check_bit_array t b pos ≡ (bit_at t b pos == 1)
unfolding check_bit_array
check_bit_array_lem t b pos = elim (Bool-cases (leb (length b) (byte_index t pos))) [
  | inl outside ↦
      rw (outside, get_or-none b (byte_index t pos) 0 (leb→le _ _ outside), bit-zero) refl
  | inr inside ↦ rw inside (masked_test (get_or b (byte_index t pos) 0) (bit_index t pos))
]

module _ (t : Width) (b : List ℕ) (p : ℕ) (inside : byte_index t p < length b) where
  abbrev pub word : ℕ
  word = get_or b (byte_index t p) 0

  pub set_inside : set_bit_array t b p ≡ set b (byte_index t p) (bit_or word (2 ^ bit_index t p))
  unfolding set_bit_array
  set_inside = ground arith

  same_place :
      (q : ℕ)
      → byte_index t p ≡ byte_index t q
      → bit_index t p ≡ bit_index t q
      → bit_at t (set_bit_array t b p) q ≡ (if p == q then 1 else bit_at t b q)
  same_place q e f =
      let same : p ≡ q = position_unique t p q e f in
      rw
        (
          set_inside,
          ← e,
          ← f,
          get_or-set b (byte_index t p) (bit_or word (2 ^ bit_index t p)) 0 inside,
          bit-bit_or (bit_index t p) word (2 ^ bit_index t p),
          bit-mask_self (bit_index t p),
          (==_iff p q).1 same,
        )
        (omega (arith, bit-le-one (bit_index t p) word))

  other_place :
      (q : ℕ)
      → byte_index t p ≡ byte_index t q
      → bit_index t p ≢ bit_index t q
      → bit_at t (set_bit_array t b p) q ≡ (if p == q then 1 else bit_at t b q)
  other_place q e f =
      let differ : (p == q) ≡ false = ne→== p q (λ k. f (ap (bit_index t) k)) in
      rw
        (
          set_inside,
          ← e,
          get_or-set b (byte_index t p) (bit_or word (2 ^ bit_index t p)) 0 inside,
          bit-bit_or (bit_index t q) word (2 ^ bit_index t p),
          bit-mask_ne (bit_index t p) (bit_index t q) (λ k. f (sym k)),
          differ,
        )
        (omega arith)

  other_word :
      (q : ℕ)
      → byte_index t p ≢ byte_index t q
      → bit_at t (set_bit_array t b p) q ≡ (if p == q then 1 else bit_at t b q)
  other_word q e =
      let differ : (p == q) ≡ false = ne→== p q (λ k. e (ap (byte_index t) k)) in
      rw
        (
          set_inside,
          get_or-set_ne b (byte_index t p) (byte_index t q) (bit_or word (2 ^ bit_index t p)) 0 e,
          differ,
        )
        refl

  -- Setting a bit inside the array sets it, and changes no other.
  pub bit_at-set_bit_array :
      (q : ℕ) → bit_at t (set_bit_array t b p) q ≡ (if p == q then 1 else bit_at t b q)
  bit_at-set_bit_array q = elim (ℕ_discrete (byte_index t p) (byte_index t q)) [
    | no e ↦ other_word q e
    | yes e ↦ elim (ℕ_discrete (bit_index t p) (bit_index t q)) [
      | yes f ↦ same_place q e f
      | no f ↦ other_place q e f
    ]
  ]

  pub length-set_bit_array : length (set_bit_array t b p) ≡ length b
  length-set_bit_array =
      rw set_inside (length-set b (byte_index t p) (bit_or word (2 ^ bit_index t p)))

-- What CheckBitArray says after SetBitArray inside the array: the set position holds, and every
-- other position says what it said before.
pub check-set_bit_array :
    (t : Width) (b : List ℕ) (p q : ℕ)
    → byte_index t p < length b
    → check_bit_array t (set_bit_array t b p) q ≡ (p == q || check_bit_array t b q)
check-set_bit_array t b p q inside =
    rw
      (
        check_bit_array_lem t (set_bit_array t b p) q,
        check_bit_array_lem t b q,
        bit_at-set_bit_array t b p inside q,
      )
      (ground arith)
