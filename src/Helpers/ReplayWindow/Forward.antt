-- ===== src/Helpers/ReplayWindow/Forward.antt =====
-- A number to the right of the edge.
use go_webtools.Base.{
  ℕ, ◌+◌, ◌-◌, ◌*◌, ◌≤◌, ◌<◌, ◌≡◌, ◌∙◌, ◌⊎◌, inl, inr, refl, ap, ◌&&◌, ◌||◌, ltb, leb, ◌==◌,
  if◌then◌else◌, leb→le, length, replicate, get_or-replicate, length-replicate, arith, Bool-cases,
}
use go_webtools.Base.Bits.{bit-zero}
use go_webtools.Helpers.Width.{Width, modulus}
use go_webtools.Helpers.BitArray.{byte_index, bit_index, bit_shift_array_left}
use go_webtools.Helpers.BitArray.Positions.{bit_at}
use go_webtools.Helpers.BitArray.Shift.{AllWords, AllWords-zeros, bit_at-outside}
use go_webtools.Helpers.BitArray.ShiftLeft.{
  bit_at-bit_shift_array_left, length-bit_shift_array_left,
}
use go_webtools.Helpers.BitArray.Kept.{AllWords-bit_shift_array_left}
use go_webtools.Helpers.ReplayWindow.{
  ReplayWindow, sub, only_last, set_last, get_window_bit_size, jump_forward, check_value,
}
use go_webtools.Helpers.ReplayWindow.Setup.{
  modulus-large, sub_cases, size, IsValid, window_size, size-pos,
}
use go_webtools.Helpers.ReplayWindow.Seen.{age, check_value_lem}
use go_webtools.Helpers.ReplayWindow.Last.{
  beyond, bit_at-set_last, AllWords-set_last, length-set_last, only_last_is,
}
use go_webtools.Helpers.ReplayWindow.Moves.{seen_moved}

module _ (c t : Width) where
  -- distances from two edges
  pub distances :
      (edge n v : ℕ)
      → edge < modulus c
      → n < modulus c
      → v < modulus c
      → ((sub c n edge ≤ sub c n v) × (sub c edge v ≡ sub c n v - sub c n edge))
        ⊎ ((sub c n v < sub c n edge) × (sub c edge v ≡ sub c n v + modulus c - sub c n edge))
  distances edge n v h k l =
      omega (
        arith,
        modulus-large c,
        sub_cases c n edge k h,
        sub_cases c n v k l,
        sub_cases c edge v h l,
      )

  -- a number is at distance 0 from itself alone
  pub distance_zero : (n v : ℕ) → n < modulus c → v < modulus c → (sub c n v == 0) ≡ (n == v)
  distance_zero n v h k = ground (arith, sub_cases c n v h k, modulus-large c)

  module _ (w : ReplayWindow) (i : IsValid c t w) (n : ℕ) (number : n < modulus c) where
    -- the window after a step to the right
    abbrev moved : ℕ → ReplayWindow
    moved f = record w { right_edge = n; window = set_last (bit_shift_array_left t w.window f) }

    abbrev pub cleared : ReplayWindow
    cleared = record w { right_edge = n; window = only_last (length w.window) }

    -- the bit of a number that is not the new edge, by its distance from both edges
    bit_at-moved :
        (f p : ℕ)
        → bit_at t (moved f).window p
          ≡ (if size c t w - 1 == p then 1 else bit_at t w.window (p + f))
    bit_at-moved f p =
        let kept = length-bit_shift_array_left t w.window f in
        bit_at-set_last t (bit_shift_array_left t w.window f) (rw kept i.some_words) p
        ∙ rw (kept, bit_at-bit_shift_array_left t w.window f p i.words) refl

    pub bit_at-cleared :
        (p : ℕ) → bit_at t cleared.window p ≡ (if size c t w - 1 == p then 1 else 0)
    bit_at-cleared p =
        let kept = length-replicate {A = ℕ} (length w.window) 0 in
        ap (λ b. bit_at t b p) (only_last_is (length w.window))
        ∙ bit_at-set_last t (replicate (length w.window) 0) (rw kept i.some_words) p
        ∙ rw
            (
              kept,
              get_or-replicate {A = ℕ} (length w.window) (byte_index t p) 0,
              bit-zero (bit_index t p),
            )
            refl

    pub past_end : (p : ℕ) → size c t w ≤ p → bit_at t w.window p ≡ 0
    past_end p h = bit_at-outside t w.window p (beyond t (length w.window) p h)

    -- Both branches of a step to the right move the bits and set the last one.
    pub bit_at-jump_forward :
        (f p : ℕ)
        → bit_at t (jump_forward c t w n f).window p
          ≡ (if size c t w - 1 == p then 1 else bit_at t w.window (p + f))
    unfolding jump_forward
    bit_at-jump_forward f p = elim (Bool-cases (leb (get_window_bit_size c t w) f)) [
      | inl far ↦
          let enough : size c t w ≤ f = omega (arith, leb→le _ _ far, window_size c t w i) in
          rw far (bit_at-cleared p ∙ rw (past_end (p + f) (omega (arith, enough))) refl)
      | inr near ↦ rw near (bit_at-moved f p)
    ]

    jump_cases :
        (P : ReplayWindow → Type 0) (f : ℕ) → P cleared → P (moved f) → P (jump_forward c t w n f)
    unfolding jump_forward
    jump_cases P f h k = elim (Bool-cases (leb (get_window_bit_size c t w) f)) [
      | inl far ↦ rw far h
      | inr near ↦ rw near k
    ]

    pub length-cleared : length cleared.window ≡ length w.window
    length-cleared =
        rw (only_last_is (length w.window))
          (length-set_last (replicate (length w.window) 0) ∙ length-replicate (length w.window) 0)

    length-moved : (f : ℕ) → length (moved f).window ≡ length w.window
    length-moved f =
        length-set_last (bit_shift_array_left t w.window f)
        ∙ length-bit_shift_array_left t w.window f

    AllWords-cleared : AllWords t cleared.window
    AllWords-cleared = rw (only_last_is (length w.window)) (
        AllWords-set_last t (replicate (length w.window) 0)
          (rw (length-replicate {A = ℕ} (length w.window) 0) i.some_words)
          (AllWords-zeros t (length w.window)))

    AllWords-moved : (f : ℕ) → AllWords t (moved f).window
    AllWords-moved f =
        AllWords-set_last t (bit_shift_array_left t w.window f)
          (rw (length-bit_shift_array_left t w.window f) i.some_words)
          (AllWords-bit_shift_array_left t w.window f i.words)

    -- a window of the same length and jump, with words of the type
    pub same_shape :
        (x : ReplayWindow)
        → AllWords t x.window
        → length x.window ≡ length w.window
        → x.max_forward_jump ≡ w.max_forward_jump
        → x.right_edge < modulus c
        → IsValid c t x
    same_shape x h e j k = record {
      words = h;
      some_words = rw e i.some_words;
      fits = rw e i.fits;
      edge = k;
      jump = j ∙ i.jump;
    }

    pub cleared-IsValid : IsValid c t cleared
    cleared-IsValid = same_shape cleared AllWords-cleared length-cleared refl number

    pub jump_forward-IsValid : (f : ℕ) → IsValid c t (jump_forward c t w n f)
    jump_forward-IsValid f =
        jump_cases (IsValid c t) f cleared-IsValid
          (same_shape (moved f) (AllWords-moved f) (length-moved f) refl number)

    pub length-jump_forward : (f : ℕ) → length (jump_forward c t w n f).window ≡ length w.window
    length-jump_forward f =
        jump_cases (λ x. length x.window ≡ length w.window) f length-cleared (length-moved f)

    pub right_edge-jump_forward : (f : ℕ) → (jump_forward c t w n f).right_edge ≡ n
    right_edge-jump_forward f = jump_cases (λ x. x.right_edge ≡ n) f refl refl

    pub is_first-jump_forward : (f : ℕ) → (jump_forward c t w n f).is_first_value ≡ w.is_first_value
    is_first-jump_forward f = jump_cases (λ x. x.is_first_value ≡ w.is_first_value) f refl refl

    -- What the window says of each number after a step to the right.
    pub check_value-jump_forward :
        (v : ℕ)
        → v < modulus c
        → 2 * sub c n w.right_edge < modulus c
        → check_value c t (jump_forward c t w n (sub c n w.right_edge)) v
          ≡ (n == v || (check_value c t w v && ltb (sub c n v) (size c t w)))
    check_value-jump_forward v h short =
        let f = sub c n w.right_edge in
        rw
          (
            check_value_lem c t (jump_forward c t w n f) v (jump_forward-IsValid f),
            check_value_lem c t w v i,
            length-jump_forward f,
            right_edge-jump_forward f,
            bit_at-jump_forward f,
            ← distance_zero n v number h,
          )
          (seen_moved (bit_at t w.window) (modulus c) (size c t w) f (sub c n v) (age c t w v)
            (size-pos c t w i) i.fits short past_end (distances w.right_edge n v i.edge number h))
