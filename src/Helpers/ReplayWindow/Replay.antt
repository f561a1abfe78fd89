-- ===== src/Helpers/ReplayWindow/Replay.antt =====
-- A number that comes again, after others.
use go_webtools.Base.{
  ℕ, ◌+◌, ◌*◌, ◌≤◌, ◌<◌, ◌≡◌, ◌∙◌, ◌⊎◌, inl, inr, refl, sym, ap, subst, Bool, true, false, not,
  ◌&&◌, ◌||◌, List, [], ◌∷◌, ltb, if◌then◌else◌, lt→ltb, le→ltb, arith, Bool-cases, ==_iff,
}
use native.Mathlib.Decide.{dec_lt, ℕ_discrete}
use go_webtools.Helpers.Width.{Width, get_bit_size, modulus}
use go_webtools.Helpers.ReplayWindow.{ReplayWindow, sub, apply_window_check, check_value}
use go_webtools.Helpers.ReplayWindow.Setup.{modulus-large, sub_cases, size, IsValid, IsOpen}
use go_webtools.Helpers.ReplayWindow.Seen.{age}
use go_webtools.Helpers.ReplayWindow.Forward.{distances}
use go_webtools.Helpers.ReplayWindow.Apply.{forward, ahead, fresh, accepts}
use go_webtools.Helpers.ReplayWindow.Accept.{apply_window_check_lem}

young_known :
    (seen step : Bool) (a s : ℕ) → a < s → (step || (ltb a s && not seen)) ≡ false → seen ≡ true
young_known seen step a s h e = ground arith

module _ (c t : Width) where
  -- the window after a number
  abbrev pub after : ReplayWindow → ℕ → ReplayWindow
  after w n = (apply_window_check c t w n).0

  -- the window after some numbers
  abbrev pub run : ReplayWindow → List ℕ → ReplayWindow
  run w [] = w
  run w (n ∷ ns) = run (after w n) ns

  -- how far the edge moves on the way
  abbrev pub advance : ReplayWindow → List ℕ → ℕ
  advance w [] = 0
  advance w (n ∷ ns) = (if ahead c t w n then forward c t w n else 0) + advance (after w n) ns

  abbrev pub AllNumbers : List ℕ → Type 0
  AllNumbers [] = Unit {0}
  AllNumbers (n ∷ ns) = (n < modulus c) × AllNumbers ns

  -- seen, or older than the window spans
  abbrev Past : ReplayWindow → ℕ → Type 0
  Past w n = (check_value c t w n ≡ true) ⊎ (size c t w ≤ age c t w n)

  -- a number behind the edge by at most half of the numbers is not ahead
  behind :
      (w : ReplayWindow) (n : ℕ)
      → IsValid c t w
      → n < modulus c
      → 2 * age c t w n ≤ modulus c
      → ahead c t w n ≡ false
  behind w n i h k =
      let unlike : ltb (forward c t w n) w.max_forward_jump ≡ false
          ⊎ ltb 0 (forward c t w n) ≡ false =
        elim (ℕ_discrete (age c t w n) 0) [
          | yes z ↦ inr (
              le→ltb 0 (forward c t w n) (
                omega (
                  arith,
                  modulus-large c,
                  sub_cases c w.right_edge n i.edge h,
                  sub_cases c n w.right_edge h i.edge,
                )))
          | no z ↦ inl (
              le→ltb (forward c t w n) w.max_forward_jump (
                omega (
                  arith,
                  z,
                  i.jump,
                  modulus-large c,
                  sub_cases c w.right_edge n i.edge h,
                  sub_cases c n w.right_edge h i.edge,
                )))
        ] in
      ground (arith, unlike)

  Past-refused :
      (w : ReplayWindow) (n : ℕ)
      → IsOpen c t w
      → n < modulus c
      → 2 * age c t w n ≤ modulus c
      → Past w n
      → (apply_window_check c t w n).1 ≡ false
  Past-refused w n o h k p =
      let old : fresh c t w n ≡ false = elim p [
        | inl seen ↦ rw seen (ground arith)
        | inr gone ↦ rw (le→ltb (age c t w n) (size c t w) gone) refl
      ] in
      (apply_window_check_lem c t w n o h).2 ∙ rw (behind w n o.valid h k, old) refl

  age-after :
      (w : ReplayWindow) (m n : ℕ)
      → IsOpen c t w
      → m < modulus c
      → n < modulus c
      → 2 * (age c t w n + (if ahead c t w m then forward c t w m else 0)) ≤ modulus c
      → age c t (after w m) n ≡ age c t w n + (if ahead c t w m then forward c t w m else 0)
  age-after w m n o h k b = elim (Bool-cases (ahead c t w m)) [
    | inl moves ↦
        let edge : (after w m).right_edge ≡ m =
          (apply_window_check_lem c t w m o h).3 ∙ rw moves refl in
        let far : 2 * (age c t w n + forward c t w m) ≤ modulus c =
          subst (λ a. 2 * (age c t w n + (if a then forward c t w m else 0)) ≤ modulus c) moves b in
        ap (λ x. sub c x n) edge
        ∙ omega (arith, far, modulus-large c, distances c t w.right_edge m n o.valid.edge h k)
        ∙ ap (λ a. age c t w n + (if a then forward c t w m else 0)) (sym moves)
    | inr stays ↦
        let edge : (after w m).right_edge ≡ w.right_edge =
          (apply_window_check_lem c t w m o h).3 ∙ rw stays refl in
        ap (λ x. sub c x n) edge
        ∙ omega arith
        ∙ ap (λ a. age c t w n + (if a then forward c t w m else 0)) (sym stays)
  ]

  size-after :
      (w : ReplayWindow) (m : ℕ) → IsOpen c t w → m < modulus c → size c t (after w m) ≡ size c t w
  size-after w m o h = ap (λ l. l * get_bit_size t) ((apply_window_check_lem c t w m o h).1)

  -- what was seen is seen still, while the window spans it
  seen_after :
      (w : ReplayWindow) (m n : ℕ)
      → IsOpen c t w
      → m < modulus c
      → n < modulus c
      → check_value c t w n ≡ true
      → age c t (after w m) n < size c t w
      → check_value c t (after w m) n ≡ true
  seen_after w m n o h k seen young =
      (apply_window_check_lem c t w m o h).4 n k
      ∙ rw (seen, lt→ltb (age c t (after w m) n) (size c t w) young)
          (elim (Bool-cases (accepts c t w m)) [
            | inl yes_accepts ↦ rw yes_accepts (ground arith)
            | inr no_accepts ↦ rw no_accepts refl
          ])

  Past-after :
      (w : ReplayWindow) (m n : ℕ)
      → IsOpen c t w
      → m < modulus c
      → n < modulus c
      → 2 * (age c t w n + (if ahead c t w m then forward c t w m else 0)) ≤ modulus c
      → Past w n
      → Past (after w m) n
  Past-after w m n o h k b p = elim p [
    | inl seen ↦ elim (dec_lt (age c t (after w m) n) (size c t w)) [
      | yes p ↦ inl (seen_after w m n o h k seen p)
      | no p ↦ inr (rw (size-after w m o h) (omega arith))
    ]
    | inr gone ↦ inr (rw (size-after w m o h, age-after w m n o h k b) (omega arith))
  ]

  run_refused :
      (w : ReplayWindow) (n : ℕ) (ns : List ℕ)
      → IsOpen c t w
      → n < modulus c
      → AllNumbers ns
      → 2 * (age c t w n + advance w ns) ≤ modulus c
      → Past w n
      → (apply_window_check c t (run w ns) n).1 ≡ false
  run_refused w n [] o h a b p = Past-refused w n o h (omega arith) p
  run_refused w n (m ∷ ns) o h a b p =
      let step = (if ahead c t w m then forward c t w m else 0) in
      let near : 2 * (age c t w n + step) ≤ modulus c = omega arith in
      run_refused (after w m) n ns ((apply_window_check_lem c t w m o a.0).0) h a.1
        (omega (arith, age-after w m n o a.0 h near)) (Past-after w m n o a.0 h near p)

  -- a number that was just looked at is seen, or older than the window spans
  Past-self : (w : ReplayWindow) (n : ℕ) → IsOpen c t w → n < modulus c → Past (after w n) n
  Past-self w n o h = elim (Bool-cases (accepts c t w n)) [
    | inl yes_accepts ↦
        inl
          ((apply_window_check_lem c t w n o h).4 n h ∙ rw (yes_accepts, (==_iff n n).1 refl) refl)
    | inr no_accepts ↦
        let says : check_value c t (after w n) n ≡ check_value c t w n =
          (apply_window_check_lem c t w n o h).4 n h ∙ rw no_accepts refl in
        let no_ahead : ahead c t w n ≡ false = ground arith in
        let edge : (after w n).right_edge ≡ w.right_edge =
          (apply_window_check_lem c t w n o h).3 ∙ rw no_ahead refl in
        elim (dec_lt (age c t w n) (size c t w)) [
          | yes young ↦
              let known : check_value c t w n ≡ true =
                young_known (check_value c t w n) (ahead c t w n) (age c t w n) (size c t w) young
                  no_accepts in
              inl (says ∙ known)
          | no old ↦ inr (rw (size-after w n o h, edge) (omega arith))
        ]
  ]

-- No number is accepted twice by a started window, with the jump limit that MakeReplayWindow sets,
-- that has a word, spans at most half of the numbers and marks its newest number; words and numbers
-- fit their types. It looks at the number n, and then at any sequence of numbers. While n is behind
-- the edge by at most half of the numbers, which the distance after n and the steps of the edge on
-- the way bound, n is refused when it comes again.
pub never_twice :
    (c t : Width) (w : ReplayWindow) (n : ℕ) (ns : List ℕ)
    → IsOpen c t w
    → n < modulus c
    → AllNumbers c t ns
    → 2 * (age c t (after c t w n) n + advance c t (after c t w n) ns) ≤ modulus c
    → (apply_window_check c t (run c t (after c t w n) ns) n).1 ≡ false
never_twice c t w n ns o h a b =
    run_refused c t (after c t w n) n ns ((apply_window_check_lem c t w n o h).0) h a b
      (Past-self c t w n o h)
