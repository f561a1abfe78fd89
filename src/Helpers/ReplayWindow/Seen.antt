-- ===== src/Helpers/ReplayWindow/Seen.antt =====
-- What a window says of each number.
use go_webtools.Base.{
  ℕ, ◌-◌, ◌≤◌, ◌<◌, ◌≡◌, refl, ◌&&◌, ltb, ◌==◌, lt→ltb, le→ltb, le→leb, lt→leb, arith,
}
use native.Mathlib.Decide.{dec_lt}
use go_webtools.Helpers.Width.{Width, modulus}
use go_webtools.Helpers.BitArray.Positions.{bit_at, check_bit_array_lem}
use go_webtools.Helpers.ReplayWindow.{ReplayWindow, sub, check_value}
use go_webtools.Helpers.ReplayWindow.Setup.{
  modulus-large, sub_cases, sub-lt, size, IsValid, window_size, size-pos,
}

module _ (c t : Width) where
  -- how far a number lies behind the edge
  abbrev pub age : ReplayWindow → ℕ → ℕ
  age w v = sub c w.right_edge v

  -- the bit that stands for a number of that age
  abbrev pub place : ReplayWindow → ℕ → ℕ
  place w v = size c t w - 1 - age w v

  pub location_recent : (n d : ℕ) → 0 < n → n < modulus c → d < n → sub c (sub c n 1) d ≡ n - 1 - d
  location_recent n d p q h = omega (
    arith,
    modulus-large c,
    sub_cases c n 1 q (omega (arith, modulus-large c)),
    sub_cases c (sub c n 1) d (sub-lt c n 1) (omega arith),
  )

  location_old : (n d : ℕ) → 0 < n → n < modulus c → n ≤ d → d < modulus c → n ≤ sub c (sub c n 1) d
  location_old n d p q h k = omega (
    arith,
    modulus-large c,
    sub_cases c n 1 q (omega (arith, modulus-large c)),
    sub_cases c (sub c n 1) d (sub-lt c n 1) k,
  )

  pub size-lt : (w : ReplayWindow) → IsValid c t w → size c t w < modulus c
  size-lt w i = omega (arith, i.fits, modulus-large c)

  -- On a valid window, CheckValue says whether a number is younger than the window is long and
  -- its bit is set.
  pub check_value_lem :
      (w : ReplayWindow) (v : ℕ)
      → IsValid c t w
      → check_value c t w v ≡ (ltb (age w v) (size c t w) && (bit_at t w.window (place w v) == 1))
  unfolding check_value
  check_value_lem w v i =
      rw (window_size c t w i, check_bit_array_lem t w.window)
        (elim (dec_lt (age w v) (size c t w)) [
          | yes p ↦
              let here =
                location_recent (size c t w) (age w v) (size-pos c t w i) (size-lt w i) p in
              rw
                (
                  here,
                  lt→ltb _ _ p,
                  lt→leb (size c t w) (place w v) (omega (arith, size-pos c t w i)),
                )
                refl
          | no p ↦
              let far =
                location_old (size c t w) (age w v) (size-pos c t w i) (size-lt w i) (omega arith)
                  (sub-lt c w.right_edge v) in
              rw (le→leb _ _ far, le→ltb (age w v) (size c t w) (omega arith)) refl
        ])
