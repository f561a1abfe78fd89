-- ===== src/Helpers/ReplayWindow/Apply.antt =====
-- ApplyWindowCheck as a whole: which numbers it accepts, and what the window says afterwards.
use go_webtools.Base.{
  ℕ, ◌-◌, ◌<◌, ◌≡◌, inl, inr, refl, Bool, true, false, not, ◌&&◌, ◌||◌, ltb, ◌==◌, if◌then◌else◌,
  lt→ltb, le→ltb, le→leb, lt→leb, length, arith, Bool-cases, ==_iff, ne→==,
}
use native.Mathlib.Decide.{dec_lt, ℕ_discrete}
use go_webtools.Helpers.Width.{Width, modulus}
use go_webtools.Helpers.BitArray.{byte_index, set_bit_array}
use go_webtools.Helpers.BitArray.Positions.{
  bit_at, check_bit_array_lem, bit_at-set_bit_array, length-set_bit_array,
}
use go_webtools.Helpers.BitArray.Kept.{AllWords-set_bit_array}
use go_webtools.Helpers.ReplayWindow.{ReplayWindow, sub, fill_gap, check_value}
use go_webtools.Helpers.ReplayWindow.Setup.{
  modulus-large, sub_cases, size, IsValid, window_size, size-pos,
}
use go_webtools.Helpers.ReplayWindow.Seen.{age, place, location_recent, check_value_lem, size-lt}
use go_webtools.Helpers.ReplayWindow.Last.{within}
use go_webtools.Helpers.ReplayWindow.Forward.{same_shape}

-- where a bit is set at the place of a number of distance `a`; `o` is that of another number
gap_filled :
    (bits : ℕ → ℕ) (s a o : ℕ)
    → a < s
    → (ltb o s && ((if s - 1 - a == s - 1 - o then 1 else bits (s - 1 - o)) == 1))
      ≡ (a == o || ((ltb o s && (bits (s - 1 - o) == 1)) && ltb o s))
gap_filled bits s a o h = elim (dec_lt o s) [
  | yes p ↦ elim (ℕ_discrete a o) [
    | yes e ↦
        rw (lt→ltb o s p, (==_iff a o).1 e, (==_iff (s - 1 - a) (s - 1 - o)).1 (omega arith)) refl
    | no e ↦
        rw (lt→ltb o s p, ne→== a o e, ne→== (s - 1 - a) (s - 1 - o) (λ f. e (omega arith)))
          (ground arith)
  ]
  | no p ↦ rw (le→ltb o s (omega arith), ne→== a o (λ e. omega arith)) refl
]

module _ (c t : Width) (w : ReplayWindow) (n : ℕ) where
  abbrev pub forward : ℕ
  forward = sub c n w.right_edge

  -- a step to the right that is short enough
  abbrev pub ahead : Bool
  ahead = ltb 0 forward && ltb forward w.max_forward_jump

  -- a number that the window still holds, and has not seen
  abbrev pub fresh : Bool
  fresh = ltb (age c t w n) (size c t w) && not (check_value c t w n)

  -- the numbers that an open window should accept
  abbrev pub accepts : Bool
  accepts = ahead || fresh

  -- what it should say of `v` afterwards, where it accepts and the edge is at `edge`
  abbrev pub says_after : ℕ → ℕ → Bool
  says_after edge v = n == v || (check_value c t w v && ltb (sub c edge v) (size c t w))

  module _ (i : IsValid c t w) (number : n < modulus c) where
    abbrev pub gap : ReplayWindow
    gap = record w { window = set_bit_array t w.window (place c t w n) }

    pub fill_gap_lem : fill_gap c t w n ≡ (if fresh then (gap, true) else (w, false))
    unfolding fill_gap
    fill_gap_lem =
        rw (window_size c t w i, check_value_lem c t w n i)
          (elim (dec_lt (age c t w n) (size c t w)) [
            | no old ↦
                rw
                  (
                    le→leb (size c t w) (age c t w n) (omega arith),
                    le→ltb (age c t w n) (size c t w) (omega arith),
                  )
                  refl
            | yes young ↦
                let here =
                  location_recent c t (size c t w) (age c t w n) (size-pos c t w i)
                    (size-lt c t w i) young in
                rw
                  (
                    lt→leb (size c t w) (age c t w n) young,
                    lt→ltb (age c t w n) (size c t w) young,
                    here,
                    check_bit_array_lem t w.window (place c t w n),
                  )
                  (elim (Bool-cases (bit_at t w.window (place c t w n) == 1)) [
                    | inl set ↦ rw set refl
                    | inr clear ↦ rw clear refl
                  ])
          ])

    same_age : (v : ℕ) → v < modulus c → (age c t w n == age c t w v) ≡ (n == v)
    same_age v h = ground (
      arith,
      sub_cases c w.right_edge n i.edge number,
      sub_cases c w.right_edge v i.edge h,
      modulus-large c,
    )

    pub inside : age c t w n < size c t w → byte_index t (place c t w n) < length w.window
    inside h = within t (length w.window) (place c t w n) (omega (arith, size-pos c t w i))

    module _ (young : age c t w n < size c t w) where
      pub kept : length (set_bit_array t w.window (place c t w n)) ≡ length w.window
      kept = length-set_bit_array t w.window (place c t w n) (inside young)

      pub gap-IsValid : IsValid c t gap
      gap-IsValid =
          same_shape c t w i n number gap
            (AllWords-set_bit_array t w.window (place c t w n) i.words) kept refl i.edge

      pub check_value-gap :
          (v : ℕ) → v < modulus c → check_value c t gap v ≡ says_after w.right_edge v
      check_value-gap v h =
          rw
            (
              check_value_lem c t gap v gap-IsValid,
              check_value_lem c t w v i,
              kept,
              bit_at-set_bit_array t w.window (place c t w n) (inside young),
              ← same_age v h,
            )
            (gap_filled (bit_at t w.window) (size c t w) (age c t w n) (age c t w v) young)
