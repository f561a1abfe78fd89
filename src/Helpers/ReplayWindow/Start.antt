-- ===== src/Helpers/ReplayWindow/Start.antt =====
-- A window before its first number.
use go_webtools.Base.{
  ℕ, ◌-◌, ◌*◌, ◌/◌, ◌%◌, ◌^◌, ◌≤◌, ◌<◌, ◌≡◌, inl, inr, refl, sym, subst, Bool, true, false, ◌&&◌,
  some, ltb, leb, ◌==◌, if◌then◌else◌, lt→ltb, le→ltb, replicate, length-replicate, arith,
  Bool-cases, ==_iff, ne→==,
}
use native.Mathlib.Decide.{dec_lt, ℕ_discrete}
use go_webtools.Helpers.Width.{
  Width, uint8, uint16, uint32, uint64, get_byte_size, get_bit_size, modulus,
}
use go_webtools.Helpers.BitArray.Shift.{AllWords-zeros}
use go_webtools.Helpers.ReplayWindow.{
  ReplayWindow, sub, start_at, apply_window_check, check_value, make_replay_window,
}
use go_webtools.Helpers.ReplayWindow.Setup.{modulus-large, size, IsValid, IsOpen, size-pos}
use go_webtools.Helpers.ReplayWindow.Seen.{check_value_lem}
use go_webtools.Helpers.ReplayWindow.Forward.{
  cleared-IsValid, bit_at-cleared, length-cleared, same_shape, distance_zero,
}

-- only the last bit is set: the number at distance 0
only_newest :
    (s a : ℕ) → 0 < s → (ltb a s && ((if s - 1 == s - 1 - a then 1 else 0) == 1)) ≡ (a == 0)
only_newest s a h = elim (ℕ_discrete a 0) [
  | yes z ↦
      rw ((==_iff a 0).1 z, lt→ltb a s (omega arith), (==_iff (s - 1) (s - 1 - a)).1 (omega arith))
        refl
  | no z ↦ elim (dec_lt a s) [
    | yes young ↦
        rw (ne→== a 0 z, lt→ltb a s young, ne→== (s - 1) (s - 1 - a) (λ e. z (omega arith))) refl
    | no old ↦ rw (ne→== a 0 z, le→ltb a s (omega arith)) refl
  ]
]

begins :
    (c t : Width) (w : ReplayWindow) (n : ℕ)
    → w.is_first_value ≡ true
    → apply_window_check c t w n ≡ (start_at c t w n, true)
unfolding apply_window_check
begins c t w n f = rw f refl

module _ (c t : Width) (w : ReplayWindow) (n : ℕ) (i : IsValid c t w) (number : n < modulus c) where
  begun : IsValid c t (start_at c t w n)
  begun =
      same_shape c t w i n number (start_at c t w n) ((cleared-IsValid c t w i n number).words)
        (length-cleared c t w i n number) refl number

  begun-IsOpen : IsOpen c t (start_at c t w n)
  begun-IsOpen = record {
    valid = begun;
    started = refl;
    newest =
        rw
          (
            length-cleared c t w i n number,
            bit_at-cleared c t w i n number,
            (==_iff (size c t w - 1) (size c t w - 1)).1 refl,
          )
          refl;
  }

  begun_says : (v : ℕ) → v < modulus c → check_value c t (start_at c t w n) v ≡ (n == v)
  begun_says v h =
      rw
        (
          check_value_lem c t (start_at c t w n) v begun,
          length-cleared c t w i n number,
          bit_at-cleared c t w i n number,
          ← distance_zero c t n v number h,
        )
        (only_newest (size c t w) (sub c n v) (size-pos c t w i))

-- On a valid window before its first number, the first number is accepted; the window then says
-- yes to it alone, is started, and its newest number is marked.
pub first_number :
    (c t : Width) (w : ReplayWindow) (n : ℕ)
    → IsValid c t w
    → w.is_first_value ≡ true
    → n < modulus c
    → IsOpen c t (apply_window_check c t w n).0
      × ((apply_window_check c t w n).1 ≡ true)
      × ((v : ℕ) → v < modulus c → check_value c t (apply_window_check c t w n).0 v ≡ (n == v))
first_number c t w n i f h =
    subst
      (λ (r : ReplayWindow × Bool).
        IsOpen c t r.0
        × (r.1 ≡ true)
        × ((v : ℕ) → v < modulus c → check_value c t r.0 v ≡ (n == v)))
      (sym (begins c t w n f)) (begun-IsOpen c t w n i h, refl, begun_says c t w n i h)

-- the window that MakeReplayWindow returns
abbrev pub empty_window : Width → ℕ → ReplayWindow
empty_window c count = record {
  window = replicate count 0;
  max_forward_jump = (modulus c - 1) / 2;
  right_edge = 0;
  is_first_value = true;
}

-- the product of the size check is of uint8, and no type has fewer numbers
check_idle : (c : Width) (bits : ℕ) → ltb ((modulus c - 1) % 2 ^ 16) (bits % 256) ≡ false
check_idle uint8 bits = le→ltb 255 (bits % 256) (omega arith)
check_idle uint16 bits = le→ltb 65535 (bits % 256) (omega arith)
check_idle uint32 bits = le→ltb 65535 (bits % 256) (omega arith)
check_idle uint64 bits = le→ltb 65535 (bits % 256) (omega arith)

-- The size check of MakeReplayWindow never stops a caller: every word count above 0 gives an empty
-- window of that many words. Where its bits are at most half of the numbers the window is valid.
pub make_replay_window_lem :
    (c t : Width) (count : ℕ)
    → 0 < count
    → (make_replay_window c t count ≡ some (empty_window c count))
      × (2 * (count * get_bit_size t) ≤ modulus c → IsValid c t (empty_window c count))
unfolding make_replay_window
make_replay_window_lem c t count h = (
  rw (check_idle c (get_bit_size t * count), ne→== count 0 (λ e. omega arith))
      (elim (Bool-cases (leb (get_byte_size t) 2)) [ inl e ↦ rw e refl | inr e ↦ rw e refl ]),
  λ l. record {
    words = AllWords-zeros t count;
    some_words = rw (length-replicate {A = ℕ} count 0) h;
    fits = rw (length-replicate {A = ℕ} count 0) l;
    edge = omega (arith, modulus-large c);
    jump = refl;
  },
)
