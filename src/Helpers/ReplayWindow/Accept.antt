-- ===== src/Helpers/ReplayWindow/Accept.antt =====
-- ApplyWindowCheck on an open window, and on the first number of all.
use go_webtools.Base.{
  ℕ, ◌-◌, ◌*◌, ◌<◌, ◌≡◌, ◌∙◌, inl, inr, refl, sym, ap, subst, Bool, true, false, ◌==◌,
  if◌then◌else◌, lt→ltb, length, arith, Bool-cases, ==_iff, ne→==,
}
use native.Mathlib.Decide.{ℕ_discrete}
use go_webtools.Helpers.Width.{Width, modulus}
use go_webtools.Helpers.BitArray.Positions.{bit_at, bit_at-set_bit_array}
use go_webtools.Helpers.ReplayWindow.{
  ReplayWindow, sub, start_at, jump_forward, fill_gap, apply_window_check, check_value,
}
use go_webtools.Helpers.ReplayWindow.Setup.{modulus-large, sub_cases, size, IsOpen, size-pos}
use go_webtools.Helpers.ReplayWindow.Seen.{age, place, check_value_lem}
use go_webtools.Helpers.ReplayWindow.Forward.{
  jump_forward-IsValid, right_edge-jump_forward, is_first-jump_forward, check_value-jump_forward,
  bit_at-jump_forward, length-jump_forward,
}
use go_webtools.Helpers.ReplayWindow.Apply.{
  forward, ahead, fresh, accepts, says_after, gap, inside, fill_gap_lem, gap-IsValid,
  check_value-gap, kept,
}

if_one : (b : Bool) (x : ℕ) → x ≡ 1 → (if b then 1 else x) ≡ 1
if_one true x h = refl
if_one false x h = h

module _ (c t : Width) (w : ReplayWindow) (n : ℕ) (o : IsOpen c t w) (number : n < modulus c) where
  -- the number at the edge has been seen
  edge_seen : sub c n w.right_edge ≡ 0 → check_value c t w n ≡ true
  edge_seen h =
      let same : w.right_edge ≡ n =
        omega (arith, modulus-large c, sub_cases c n w.right_edge number o.valid.edge) in
      let near : age c t w n ≡ 0 =
        omega (arith, modulus-large c, sub_cases c w.right_edge n o.valid.edge number) in
      let last : place c t w n ≡ size c t w - 1 = omega (arith, near) in
      rw
        (
          check_value_lem c t w n o.valid,
          last,
          o.newest,
          lt→ltb (age c t w n) (size c t w) (omega (arith, near, size-pos c t w o.valid)),
        )
        refl

  stale : sub c n w.right_edge ≡ 0 → fresh c t w n ≡ false
  stale h = rw (edge_seen h) (ground arith)

  later_number : apply_window_check c t w n ≡ (
      if ahead c t w n
      then (jump_forward c t w n (forward c t w n), true)
      else (if forward c t w n == 0 then (w, false) else fill_gap c t w n))
  unfolding apply_window_check
  later_number =
      ap
        (λ first.
          if first
          then (start_at c t w n, true)
          else (if ahead c t w n
              then (jump_forward c t w n (forward c t w n), true)
              else (if forward c t w n == 0 then (w, false) else fill_gap c t w n)))
        o.started

  no_step :
      (if forward c t w n == 0 then (w, false) else fill_gap c t w n)
      ≡ (if fresh c t w n then (gap c t w n o.valid number, true) else (w, false))
  no_step = elim (ℕ_discrete (forward c t w n) 0) [
    | yes z ↦
        ap (λ b. if b then (w, false) else fill_gap c t w n) ((==_iff (forward c t w n) 0).1 z)
        ∙ ap (λ b. if b then (gap c t w n o.valid number, true) else (w, false)) (sym (stale z))
    | no z ↦
        ap (λ b. if b then (w, false) else fill_gap c t w n) (ne→== (forward c t w n) 0 z)
        ∙ fill_gap_lem c t w n o.valid number
  ]

  -- the three results of an open window
  pub apply_is : apply_window_check c t w n ≡ (
      if ahead c t w n
      then (jump_forward c t w n (forward c t w n), true)
      else (if fresh c t w n then (gap c t w n o.valid number, true) else (w, false)))
  apply_is =
      later_number
      ∙ ap (λ r. if ahead c t w n then (jump_forward c t w n (forward c t w n), true) else r)
          no_step

  short : ahead c t w n ≡ true → 2 * sub c n w.right_edge < modulus c
  short h =
      let below : sub c n w.right_edge < w.max_forward_jump = ground arith in
      omega (arith, below, o.valid.jump, modulus-large c)

  -- what holds of the window and the answer
  abbrev Holds : ReplayWindow × Bool → Type 0
  Holds r =
      IsOpen c t r.0
      × (length r.0.window ≡ length w.window)
      × (r.1 ≡ accepts c t w n)
      × (r.0.right_edge ≡ (if ahead c t w n then n else w.right_edge))
      × ((v : ℕ)
          → v < modulus c
          → check_value c t r.0 v ≡ (
              if accepts c t w n then says_after c t w n r.0.right_edge v else check_value c t w v))

  jump-Holds : ahead c t w n ≡ true → Holds (jump_forward c t w n (forward c t w n), true)
  unfolding jump_forward
  jump-Holds h = (
    record {
      valid = jump_forward-IsValid c t w o.valid n number (forward c t w n);
      started = is_first-jump_forward c t w o.valid n number (forward c t w n) ∙ o.started;
      newest =
          rw
            (
              length-jump_forward c t w o.valid n number (forward c t w n),
              bit_at-jump_forward c t w o.valid n number (forward c t w n),
              (==_iff (size c t w - 1) (size c t w - 1)).1 refl,
            )
            refl;
    },
    length-jump_forward c t w o.valid n number (forward c t w n),
    rw h refl,
    rw h (right_edge-jump_forward c t w o.valid n number (forward c t w n)),
    λ v k.
        rw (h, right_edge-jump_forward c t w o.valid n number (forward c t w n))
          (check_value-jump_forward c t w o.valid n number v k (short h)),
  )

  young : fresh c t w n ≡ true → age c t w n < size c t w
  young h = ground arith

  gap-Holds :
      ahead c t w n ≡ false → fresh c t w n ≡ true → Holds (gap c t w n o.valid number, true)
  gap-Holds h k = (
    record {
      valid = gap-IsValid c t w n o.valid number (young k);
      started = o.started;
      newest =
          rw
            (
              kept c t w n o.valid number (young k),
              bit_at-set_bit_array t w.window (place c t w n)
                  (inside c t w n o.valid number (young k)),
            )
            (if_one (place c t w n == size c t w - 1) (bit_at t w.window (size c t w - 1))
              o.newest);
    },
    kept c t w n o.valid number (young k),
    rw (h, k) refl,
    rw h refl,
    λ v l. rw (h, k) (check_value-gap c t w n o.valid number (young k) v l),
  )

  kept-Holds : ahead c t w n ≡ false → fresh c t w n ≡ false → Holds (w, false)
  kept-Holds h k = (o, refl, rw (h, k) refl, rw h refl, λ v l. rw (h, k) refl)

  -- On a started window, with the jump limit that MakeReplayWindow sets, that has a word, spans at most
  -- half of the numbers and marks its newest number, words and numbers fitting their types:
  -- ApplyWindowCheck answers yes exactly to a
  -- number that is at least 1 and less than (m - 1) / 2 ahead of the edge, m being how many numbers
  -- the type has, and to one that the window still spans and has not seen. The edge moves to a number
  -- ahead and stays otherwise. After a yes the window says yes to that number and to every number
  -- it said yes to before that it still spans, and to no other; after a no nothing has changed.
  -- Again the window is started, its newest number marked and its length the same.
  pub apply_window_check_lem :
      IsOpen c t (apply_window_check c t w n).0
      × (length (apply_window_check c t w n).0.window ≡ length w.window)
      × ((apply_window_check c t w n).1 ≡ accepts c t w n)
      × ((apply_window_check c t w n).0.right_edge ≡ (if ahead c t w n then n else w.right_edge))
      × ((v : ℕ)
          → v < modulus c
          → check_value c t (apply_window_check c t w n).0 v ≡ (
              if accepts c t w n
              then says_after c t w n (apply_window_check c t w n).0.right_edge v
              else check_value c t w v))
  apply_window_check_lem = subst Holds (sym apply_is) (elim (Bool-cases (ahead c t w n)) [
    | inl h ↦
        subst
          (λ b. Holds (
            if b
            then (jump_forward c t w n (forward c t w n), true)
            else (if fresh c t w n then (gap c t w n o.valid number, true) else (w, false))))
          (sym h) (jump-Holds h)
    | inr h ↦
        subst
          (λ b. Holds (
            if b
            then (jump_forward c t w n (forward c t w n), true)
            else (if fresh c t w n then (gap c t w n o.valid number, true) else (w, false))))
          (sym h)
          (elim (Bool-cases (fresh c t w n)) [
            | inl k ↦
                subst (λ b. Holds (if b then (gap c t w n o.valid number, true) else (w, false)))
                  (sym k) (gap-Holds h k)
            | inr k ↦
                subst (λ b. Holds (if b then (gap c t w n o.valid number, true) else (w, false)))
                  (sym k) (kept-Holds h k)
          ])
  ])
