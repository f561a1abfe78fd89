-- ===== src/Helpers/PacketHeap/Fuel.antt =====
-- The rounds of the loops of container/heap.
use go_webtools.Base.{
  ℕ, zero, suc, ◌+◌, ◌-◌, ◌*◌, ◌/◌, ◌<◌, ◌≡◌, refl, Bool, List, arith, le→leb, ==_iff,
}
use native.Mathlib.Decide.{ℕ_discrete}
use go_webtools.Helpers.PacketHeap.{swap, up, child, down}

module _ {ℓ} {A : Type ℓ} (less : A → A → Bool) where
  -- `up` needs one round more than its index.
  pub up_fuel-same : (f g j : ℕ) (h : List A) → j < f → j < g → up less f j h ≡ up less g j h
  unfolding up
  up_fuel-same zero g j h p q = absurd (omega arith)
  up_fuel-same (suc f) zero j h p q = absurd (omega arith)
  up_fuel-same (suc f) (suc g) j h p q = elim (ℕ_discrete ((j - 1) / 2) j) [
    | yes root ↦ rw ((==_iff ((j - 1) / 2) j).1 root) refl
    | no below ↦
        rw
          (up_fuel-same f g ((j - 1) / 2) (swap ((j - 1) / 2) j h) (omega (arith, below))
            (omega (arith, below)))
          refl
  ]

  child-gt : (i n : ℕ) (h : List A) → i < child less i n h
  child-gt i n h = ground arith

  -- `down` needs a round for each index from its own to the bound.
  pub down_fuel-same :
      (f g i n : ℕ) (h : List A) → n < i + f → n < i + g → down less f i n h ≡ down less g i n h
  unfolding down
  down_fuel-same zero zero i n h p q = refl
  down_fuel-same zero (suc g) i n h p q = rw (le→leb n (2 * i + 1) (omega arith)) refl
  down_fuel-same (suc f) zero i n h p q = rw (le→leb n (2 * i + 1) (omega arith)) refl
  down_fuel-same (suc f) (suc g) i n h p q =
      rw
        (down_fuel-same f g (child less i n h) n (swap i (child less i n h) h)
          (omega (arith, child-gt i n h)) (omega (arith, child-gt i n h)))
        refl
