-- ===== src/Helpers/ReplayWindow/Moves.antt =====
-- What a row of bits says of a distance after it has moved.
use go_webtools.Base.{
  ℕ, ◌+◌, ◌-◌, ◌*◌, ◌≤◌, ◌<◌, ◌≡◌, ◌⊎◌, inl, inr, refl, Bool, ◌&&◌, ◌||◌, ltb, ◌==◌, if◌then◌else◌,
  lt→ltb, le→ltb, arith, ==_iff, ne→==,
}
use native.Mathlib.Decide.{dec_lt, ℕ_discrete}

-- Where the bits move by `f`: `a` is the distance from the new edge, `o` that from the old one.
module _ (bits : ℕ → ℕ) (m s f a o : ℕ) (some_bits : 0 < s) (fits : 2 * s ≤ m) (short : 2 * f < m)
    (outside : (p : ℕ) → s ≤ p → bits p ≡ 0) where
  abbrev shifted : ℕ → Bool
  shifted p = (if s - 1 == p then 1 else bits (p + f)) == 1

  seen_near :
      f ≤ a
      → o ≡ a - f
      → 0 < a
      → (ltb a s && shifted (s - 1 - a)) ≡ ((ltb o s && (bits (s - 1 - o) == 1)) && ltb a s)
  seen_near h e l = elim (dec_lt a s) [
    | yes p ↦
        let here : s - 1 - a + f ≡ s - 1 - o = omega arith in
        rw
          (
            here,
            lt→ltb a s p,
            lt→ltb o s (omega arith),
            ne→== (s - 1) (s - 1 - a) (λ e. omega arith),
          )
          (ground arith)
    | no p ↦ rw (le→ltb a s (omega arith)) (ground arith)
  ]

  seen_between :
      a < f
      → o ≡ a + m - f
      → 0 < a
      → (ltb a s && shifted (s - 1 - a)) ≡ ((ltb o s && (bits (s - 1 - o) == 1)) && ltb a s)
  seen_between h e l = elim (dec_lt a s) [
    | yes p ↦
        let none = outside (s - 1 - a + f) (omega arith) in
        rw
          (
            none,
            lt→ltb a s p,
            le→ltb o s (omega arith),
            ne→== (s - 1) (s - 1 - a) (λ e. omega arith),
          )
          refl
    | no p ↦ rw (le→ltb a s (omega arith)) (ground arith)
  ]

  pub seen_moved :
      ((f ≤ a) × (o ≡ a - f)) ⊎ ((a < f) × (o ≡ a + m - f))
      → (ltb a s && shifted (s - 1 - a))
        ≡ (a == 0 || ((ltb o s && (bits (s - 1 - o) == 1)) && ltb a s))
  seen_moved d = elim (ℕ_discrete a 0) [
    | yes z ↦
        rw
          ((==_iff a 0).1 z, lt→ltb a s (omega arith), (==_iff (s - 1) (s - 1 - a)).1 (omega arith))
          refl
    | no z ↦ rw (ne→== a 0 z) (elim d [
      | inl near ↦ seen_near near.0 near.1 (omega (arith, z))
      | inr between ↦ seen_between between.0 between.1 (omega (arith, z))
    ])
  ]
