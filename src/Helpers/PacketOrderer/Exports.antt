-- ===== src/Helpers/PacketOrderer/Exports.antt =====
-- The loops of exports of PacketOrdererHeap.go.
use go_webtools.Base.{
  ℕ, zero, suc, ◌+◌, ◌<◌, ◌≡◌, refl, sym, ap, Bool, subst, true, false, not, ◌||◌, List, [], ◌∷◌,
  ◌++◌, Option, none, some, ◌==◌, length, get_elem?, arith, Bool-cases, inl, inr, ==_iff,
}
use go_webtools.Helpers.Width.{Width}
use go_webtools.Helpers.PacketHeap.Weights.{total}
use go_webtools.Helpers.PacketHeap.Conserve.{Popped, pop_lem}
use go_webtools.Helpers.PacketOrderer.{
  Packet, Exported, head_is, before, led, export_loop, dump_loop, ends_at, next_number,
}

module _ {ℓ} {V : Type ℓ} (c : Width) where
  -- The packets have the numbers from `n` on, and `m` is the number behind them.
  abbrev pub Follows : ℕ → List (Packet V) → ℕ → Type 0
  Follows n [] m = m ≡ n
  Follows n ((k, v) ∷ out) m = (k ≡ n) × Follows (next_number c n) out m

  pub Follows-append :
      (n m k : ℕ) (a b : List (Packet V)) → Follows n a m → Follows m b k → Follows n (a ++ b) k
  Follows-append n m k [] b h g = rw (sym h) g
  Follows-append n m k ((i, v) ∷ a) b h g = (h.0, Follows-append (next_number c n) m k a b h.1 g)

  head_number :
      (n k : ℕ) (v : V) (h : List (Packet V))
      → get_elem? h 0 ≡ some (k, v)
      → head_is n h ≡ true
      → k ≡ n
  head_number n k v [] e q = cc
  head_number n k v ((j, w) ∷ h) e q =
      let same : j ≡ k = ap (λ (o : Option (Packet V)). elim o [ none ↦ 0 | some p ↦ p.0 ]) e in
      omega (arith, same, (==_iff j n).0 q)

  head_some : (n : ℕ) (h : List (Packet V)) → head_is n h ≡ true → 0 < length h
  head_some n [] q = cc
  head_some n (p ∷ h) q = omega arith

  -- what holds of a loop of exports without a pending packet
  pub record Sound (h : List (Packet V)) (n : ℕ) (e : Exported V) : Type ℓ where
    pub follows : Follows n e.0 e.2
    pub kept : (f : Packet V → ℕ) → total f e.0 + total f e.1 ≡ total f h

  -- a packet in front of sound exports
  led-Sound :
      (h : List (Packet V)) (n : ℕ) (p : Popped (before c) h) (e : Exported V)
      → p.item.0 ≡ n
      → Sound p.rest (next_number c p.item.0) e
      → Sound h n (led c p.item e)
  unfolding total
  led-Sound h n p e same s = record {
    follows = (same, subst (λ k. Follows (next_number c k) e.0 e.2) same s.follows);
    kept = λ f. omega (arith, s.kept f, p.kept f);
  }

  nothing-Sound : (h : List (Packet V)) (n : ℕ) → Sound h n ([], h, n)
  unfolding total
  nothing-Sound h n = record { follows = refl; kept = λ f. omega arith }

  -- The loop exports a run of numbers from the next one on, loses nothing, and with enough rounds
  -- ends where the first packet of the heap is not the next one.
  pub drain-Sound :
      (fuel n : ℕ) (h : List (Packet V))
      → Sound h n (export_loop c fuel none h n)
        × (length h < fuel
            → head_is (export_loop c fuel none h n).2 (export_loop c fuel none h n).1 ≡ false)
  unfolding export_loop
  drain-Sound zero n h = (nothing-Sound h n, λ l. absurd (omega arith))
  drain-Sound (suc fuel) n h = elim (Bool-cases (head_is n h)) [
    | inr waits ↦ rw waits (nothing-Sound h n, λ l. waits)
    | inl ready ↦
        let p = pop_lem (before c) h (head_some n h ready) in
        let same = head_number n p.item.0 p.item.1 h p.first ready in
        let rest = drain-Sound fuel (next_number c p.item.0) p.rest in
        rw (ready, p.popped)
          (
            led-Sound h n p (export_loop c fuel none p.rest (next_number c p.item.0)) same rest.0,
            λ l. rest.1 (omega (arith, p.fewer)),
          )
  ]

  led-Follows :
      (n : ℕ) (p : Packet V) (e : Exported V)
      → p.0 ≡ n
      → Follows (next_number c p.0) e.0 e.2
      → Follows n (led c p e).0 (led c p e).2
  led-Follows n p e same f = (same, subst (λ k. Follows (next_number c k) e.0 e.2) same f)

  -- With a pending packet too, the exports follow one another.
  pub export-Follows :
      (fuel n : ℕ) (pending : Option (Packet V)) (h : List (Packet V))
      → Follows n (export_loop c fuel pending h n).0 (export_loop c fuel pending h n).2
  unfolding export_loop
  export-Follows fuel n none h = (drain-Sound fuel n h).0.follows
  export-Follows zero n (some (k, v)) h = refl
  export-Follows (suc fuel) n (some (k, v)) h = elim (Bool-cases (head_is n h)) [
    | inl ready ↦
        let p = pop_lem (before c) h (head_some n h ready) in
        let same = head_number n p.item.0 p.item.1 h p.first ready in
        let rest = export_loop c fuel (some (k, v)) p.rest (next_number c p.item.0) in
        rw (ready, p.popped)
          (led-Follows n p.item rest same
            (export-Follows fuel (next_number c p.item.0) (some (k, v)) p.rest))
    | inr waits ↦ rw waits (elim (Bool-cases (n == k)) [
      | inl this ↦
          let same : k ≡ n = sym ((==_iff n k).0 this) in
          let rest = export_loop c fuel none h (next_number c k) in
          rw this (led-Follows n (k, v) rest same (export-Follows fuel (next_number c k) none h))
      | inr gap ↦ rw gap refl
    ])
  ]

  -- The same for a Dump that may not skip.
  pub dump-Sound :
      (fuel n : ℕ) (limit : Option ℕ) (h : List (Packet V))
      → Sound h n (dump_loop c fuel false limit h n)
  unfolding dump_loop
  dump-Sound zero n limit h = nothing-Sound h n
  dump-Sound (suc fuel) n limit [] = nothing-Sound [] n
  dump-Sound (suc fuel) n limit ((k, v) ∷ t) =
      elim (Bool-cases (not (k == n) || ends_at c limit k)) [
        | inl stops ↦ rw stops (nothing-Sound ((k, v) ∷ t) n)
        | inr goes ↦
            let p = pop_lem (before c) ((k, v) ∷ t) (omega arith) in
            let ready : head_is n ((k, v) ∷ t) ≡ true = ground arith in
            let same = head_number n p.item.0 p.item.1 ((k, v) ∷ t) p.first ready in
            rw (goes, p.popped)
              (led-Sound ((k, v) ∷ t) n p
                (dump_loop c fuel false limit p.rest (next_number c p.item.0)) same
                (dump-Sound fuel (next_number c p.item.0) limit p.rest))
      ]

module _ {ℓ} {V : Type ℓ} (c : Width) where
  -- A dump needs one round more than the heap has packets.
  pub dump_fuel-same :
      (f g n : ℕ) (skip : Bool) (limit : Option ℕ) (h : List (Packet V))
      → length h < f
      → length h < g
      → dump_loop c f skip limit h n ≡ dump_loop c g skip limit h n
  unfolding dump_loop
  dump_fuel-same zero g n skip limit h p q = absurd (omega arith)
  dump_fuel-same (suc f) zero n skip limit h p q = absurd (omega arith)
  dump_fuel-same (suc f) (suc g) n skip limit [] p q = refl
  dump_fuel-same (suc f) (suc g) n skip limit ((k, v) ∷ t) p q =
      let r = pop_lem (before c) ((k, v) ∷ t) (omega arith) in
      rw
        (
          r.popped,
          dump_fuel-same f g (next_number c r.item.0) skip limit r.rest (omega (arith, r.fewer))
              (omega (arith, r.fewer)),
        )
        refl
