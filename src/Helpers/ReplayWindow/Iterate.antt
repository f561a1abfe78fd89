-- ===== src/Helpers/ReplayWindow/Iterate.antt =====
-- helpertools/ReplayWindow.go, IterateReplayWindowBits and GetReplayWindowBits: the numbers that a
-- window marks, or does not mark, from the oldest one on.
use go_webtools.Base.{
  ℕ, zero, suc, ◌+◌, ◌-◌, ◌*◌, ◌%◌, ◌<◌, ◌≤◌, ◌≡◌, inl, inr, refl, Bool, true, false, not, List, [],
  ◌∷◌, lt→leb, if◌then◌else◌, length, arith,
}
use native.Mathlib.Nat.{mod-eq_of_lt, mul_comm}
use go_webtools.Helpers.Width.{Width, get_bit_size, modulus}
use go_webtools.Helpers.BitArray.{check_bit_array}
use go_webtools.Helpers.ReplayWindow.{ReplayWindow, sub, check_value}
use go_webtools.Helpers.ReplayWindow.Setup.{
  modulus-large, sub_cases, size, size-pos, window_size, IsValid,
}

-- `==` on Booleans
abbrev pub same : Bool → Bool → Bool
same true b = b
same false b = not b

module _ (c t : Width) where
  -- The loop from bit `i` on for `n` bits; the callback appends the number to the result.
  unfoldable pub iterate_bits :
      (size : ℕ) (window : List ℕ) (right_edge : ℕ) (is_set : Bool) (i n : ℕ) → List ℕ
  unfolding check_bit_array
  iterate_bits size window edge is_set i zero = []
  iterate_bits size window edge is_set i (suc n) =
      let rest = iterate_bits size window edge is_set (suc i) n in
      if same (check_bit_array t window i) is_set
      then sub c edge (sub c (sub c (size % modulus c) 1) (i % modulus c)) ∷ rest
      else rest

  unfoldable pub get_replay_window_bits : List ℕ → ℕ → Bool → List ℕ
  unfolding iterate_bits
  get_replay_window_bits window edge is_set =
      let size = get_bit_size t * length window in iterate_bits size window edge is_set 0 size

  -- the numbers that the window spans, from the one of bit `i` on
  abbrev pub spanned_from : ReplayWindow → (i n : ℕ) → List ℕ
  spanned_from w i zero = []
  spanned_from w i (suc n) = sub c w.right_edge (size c t w - 1 - i) ∷ spanned_from w (suc i) n

  abbrev pub spanned : ReplayWindow → List ℕ
  spanned w = spanned_from w 0 (size c t w)

  -- those of the numbers of which the window says `is_set`
  abbrev pub that_are : ReplayWindow → Bool → List ℕ → List ℕ
  that_are w is_set [] = []
  that_are w is_set (v ∷ b) =
      let rest = that_are w is_set b in if same (check_value c t w v) is_set then v ∷ rest else rest

  sub-lt : (a b : ℕ) → a < modulus c → b < modulus c → sub c a b < modulus c
  sub-lt a b h k = elim (sub_cases c a b h k) [
    | inl e ↦ omega (arith, e.1)
    | inr e ↦ omega (arith, e.1)
  ]

  sub-le : (a b : ℕ) → b ≤ a → a < modulus c → sub c a b ≡ a - b
  sub-le a b l h = elim (sub_cases c a b h (omega arith)) [
    | inl e ↦ e.1
    | inr e ↦ omega (arith, e.0)
  ]

  sub-sub : (a b : ℕ) → a < modulus c → b < modulus c → sub c a (sub c a b) ≡ b
  sub-sub a b h k = elim (sub_cases c a b h k) [
    | inl e ↦ elim (sub_cases c a (sub c a b) h (sub-lt a b h k)) [
      | inl f ↦ omega (arith, e.0, e.1, f.0, f.1)
      | inr f ↦ omega (arith, e.0, e.1, f.0)
    ]
    | inr e ↦ elim (sub_cases c a (sub c a b) h (sub-lt a b h k)) [
      | inl f ↦ omega (arith, e.0, e.1, f.0)
      | inr f ↦ omega (arith, e.0, e.1, f.0, f.1)
    ]
  ]

  module _ (w : ReplayWindow) (v : IsValid c t w) where
    abbrev position : ℕ → ℕ
    position i = sub c w.right_edge (size c t w - 1 - i)

    wide : size c t w < modulus c
    wide = omega (arith, v.fits, modulus-large c, size-pos c t w v)

    last_place : sub c (size c t w) 1 ≡ size c t w - 1
    last_place = sub-le (size c t w) 1 (size-pos c t w v) wide

    number_at :
        (i : ℕ)
        → i < size c t w
        → sub c w.right_edge (sub c (sub c (size c t w % modulus c) 1) (i % modulus c)) ≡ position i
    number_at i h =
        rw
          (
            mod-eq_of_lt {n = size c t w} {m = modulus c} wide,
            mod-eq_of_lt {n = i} {m = modulus c} (omega (arith, wide)),
            last_place,
            sub-le (size c t w - 1) i (omega arith) (omega (arith, wide)),
          )
          refl

    back : (i : ℕ) → i < size c t w → size c t w - 1 - (size c t w - 1 - i) ≡ i
    back i h = omega arith

    check_value-position :
        (i : ℕ) → i < size c t w → check_value c t w (position i) ≡ check_bit_array t w.window i
    unfolding check_value
    check_value-position i h =
        rw
          (
            window_size c t w v,
            last_place,
            sub-sub w.right_edge (size c t w - 1 - i) v.edge (omega (arith, wide)),
            sub-le (size c t w - 1) (size c t w - 1 - i) (omega arith) (omega (arith, wide)),
            back i h,
            lt→leb (size c t w) i h,
          )
          refl

    iterate_bits_lem :
        (is_set : Bool) (i n : ℕ)
        → i + n ≡ size c t w
        → iterate_bits (size c t w) w.window w.right_edge is_set i n
          ≡ that_are w is_set (spanned_from w i n)
    unfolding iterate_bits
    iterate_bits_lem is_set i zero e = refl
    iterate_bits_lem is_set i (suc n) e =
        let h : i < size c t w = omega (arith, e) in
        rw
          (
            number_at i h,
            iterate_bits_lem is_set (suc i) n (omega (arith, e)),
            check_value-position i h,
          )
          refl

    -- Of a valid window GetReplayWindowBits returns, from the oldest number on, those of the numbers
    -- that the window spans for which CheckValue gives `is_set`.
    pub get_replay_window_bits_lem :
        (is_set : Bool)
        → get_replay_window_bits w.window w.right_edge is_set ≡ that_are w is_set (spanned w)
    unfolding get_replay_window_bits
    get_replay_window_bits_lem is_set =
        rw (mul_comm (get_bit_size t) (length w.window))
          (iterate_bits_lem is_set 0 (size c t w) (omega arith))
