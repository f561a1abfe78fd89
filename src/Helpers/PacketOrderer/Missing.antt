-- ===== src/Helpers/PacketOrderer/Missing.antt =====
-- Which numbers GetMissingOrderNumbers reports.
use go_webtools.Base.{
  ℕ, zero, suc, ◌+◌, ◌-◌, ◌%◌, ◌/◌, ◌≤◌, ◌<◌, ◌≡◌, ◌≢◌, ◌∙◌, ◌⊎◌, refl, sym, ap, Bool, true, false,
  not, ◌&&◌, ◌||◌, List, [], ◌∷◌, ltb, leb, ◌==◌, arith, Bool-cases, inl, inr, ==_iff, ne→==,
  lt→ltb, le→ltb, ap₂, length, if◌then◌else◌, if_holds, nat_eq,
}
use native.Mathlib.Nat.{mod-eq_of_lt, mod_self, mod-add-mod}
use go_webtools.Helpers.SafeMap.{has, lookup}
use go_webtools.Helpers.SafeMap.Laws.{has-set}
use native.Mathlib.Decide.{dec_lt, ℕ_discrete}
use go_webtools.Helpers.Width.{Width, modulus}
use go_webtools.Helpers.ReplayWindow.{sub}
use go_webtools.Helpers.ReplayWindow.Setup.{modulus-large, sub_cases, sub-lt}
use go_webtools.Helpers.PacketOrderer.{
  Packet, PacketOrderer, next_number, is_in_future, has_number, missing_from,
  get_missing_order_numbers, present, is_stored, missing_behind,
}

abbrev pub is_listed : ℕ → List ℕ → Bool
is_listed v [] = false
is_listed v (x ∷ xs) = x == v || is_listed v xs

module _ (c : Width) where
  next_cases :
      (n : ℕ)
      → n < modulus c
      → ((n + 1 < modulus c) × (next_number c n ≡ n + 1))
        ⊎ ((n + 1 ≡ modulus c) × (next_number c n ≡ 0))
  next_cases n h = elim (dec_lt (n + 1) (modulus c)) [
    | yes p ↦ inl (p, mod-eq_of_lt p)
    | no p ↦
        let last : n + 1 ≡ modulus c = omega arith in inr (last, rw last (mod_self (modulus c)))
  ]

  next-lt : (n : ℕ) → n < modulus c → next_number c n < modulus c
  next-lt n h = omega (arith, next_cases n h, modulus-large c)

  -- the distance from the next number
  next_distance :
      (n v : ℕ)
      → n < modulus c
      → v < modulus c
      → ((v ≡ n) × (sub c v n ≡ 0) × (sub c v (next_number c n) ≡ modulus c - 1))
        ⊎ ((v ≢ n) × (sub c v n ≡ suc (sub c v (next_number c n))))
  next_distance n v h k = elim (ℕ_discrete v n) [
    | yes same ↦ inl (
      same,
      omega (arith, modulus-large c, sub_cases c v n k h, same),
      omega (
        arith,
        modulus-large c,
        next_cases n h,
        same,
        sub_cases c v (next_number c n) k (next-lt n h),
      ),
    )
    | no differ ↦ inr (
      differ,
      omega (
        arith,
        modulus-large c,
        differ,
        next_cases n h,
        sub_cases c v n k h,
        sub_cases c v (next_number c n) k (next-lt n h),
      ),
    )
  ]

  missing_from_lem :
      (stored : ℕ → Bool) (rounds order v : ℕ)
      → rounds ≤ modulus c
      → order < modulus c
      → v < modulus c
      → is_listed v (missing_from c stored rounds order)
        ≡ (ltb (sub c v order) rounds && not (stored v))
  unfolding missing_from
  missing_from_lem stored zero order v r o k = rw (le→ltb (sub c v order) 0 (omega arith)) refl
  missing_from_lem stored (suc rounds) order v r o k =
      let rest =
        missing_from_lem stored rounds (next_number c order) v (omega arith) (next-lt order o) k in
      elim (next_distance order v o k) [
        | inl (same, d, e) ↦
            let held : stored v ≡ stored order = ap stored same in
            let listed : (order == v) ≡ true = (==_iff order v).1 (sym same) in
            let first : ltb (sub c v order) (suc rounds) ≡ true =
              lt→ltb (sub c v order) (suc rounds) (omega (arith, d)) in
            let beyond : ltb (sub c v (next_number c order)) rounds ≡ false =
              le→ltb (sub c v (next_number c order)) rounds (omega (arith, e, r)) in
            rw (held, first)
              (elim (Bool-cases (stored order)) [
                | inl known ↦ rw known (rest ∙ rw beyond refl)
                | inr absent ↦ rw (absent, listed) refl
              ])
        | inr (differ, d) ↦
            let unlisted : (order == v) ≡ false = ne→== order v (λ e. differ (sym e)) in
            let closer : ltb (sub c v order) (suc rounds)
                ≡ ltb (sub c v (next_number c order)) rounds =
              rw d (ground arith) in
            rw closer (elim (Bool-cases (stored order)) [
              | inl known ↦ rw known rest
              | inr absent ↦ rw (absent, unlisted) rest
            ])
      ]

  missing_behind_lem :
      (rounds i n order : ℕ)
      → order ≡ (n + i) % modulus c
      → missing_behind c rounds i n ≡ missing_from c (λ _. false) rounds order
  unfolding missing_behind missing_from
  missing_behind_lem zero i n order e = refl
  missing_behind_lem (suc rounds) i n order e =
      ap₂ (λ x xs. x ∷ xs) (sym e)
        (missing_behind_lem rounds (i + 1) n (next_number c order) (
          ap (λ k. (k + 1) % modulus c) e
          ∙ mod-add-mod (n + i) (modulus c) 1
          ∙ ap (λ k. k % modulus c) (omega arith)))

module _ {ℓ} {V : Type ℓ} (c : Width) where
  -- the three ways to look for the stored numbers find the same
  has-present : (v : ℕ) (h : List (Packet V)) → has v (present c h) ≡ has_number c v h
  unfolding present has_number
  has-present v [] = unfold has lookup in refl
  has-present v ((k, x) ∷ h) = has-set k v 0 (present c h) ∙ ap (λ b. k == v || b) (has-present v h)

  is_stored_lem : (h : List (Packet V)) (v : ℕ) → is_stored c h v ≡ has_number c v h
  unfolding is_stored
  is_stored_lem h v =
      if_holds (λ b. b ≡ has_number c v h) (ltb 32 (length h)) _ _ (λ _. has-present v h)
        (λ _. refl)

  reported :
      (number v : ℕ) (o : PacketOrderer V)
      → sub c number o.next_order ≤ modulus c
      → o.next_order < modulus c
      → v < modulus c
      → is_listed v (
          if length o.packets_heap == 0
          then missing_behind c (sub c number o.next_order) 1 o.next_order
          else missing_from c
              (is_stored c o.packets_heap)
              (sub c number o.next_order)
              (next_number c o.next_order))
        ≡ (ltb (sub c v (next_number c o.next_order)) (sub c number o.next_order)
            && not (has_number c v o.packets_heap))
  reported number v o r l k = either o.packets_heap
    where
      either :
          (h : List (Packet V))
          → is_listed v (
              if length h == 0
              then missing_behind c (sub c number o.next_order) 1 o.next_order
              else missing_from c
                  (is_stored c h)
                  (sub c number o.next_order)
                  (next_number c o.next_order))
            ≡ (ltb (sub c v (next_number c o.next_order)) (sub c number o.next_order)
                && not (has_number c v h))
      either [] =
          ap (is_listed v) (missing_behind_lem c (sub c number o.next_order) 1 o.next_order _ refl)
          ∙ missing_from_lem c (λ _. false) (sub c number o.next_order) (next_number c o.next_order)
              v r (next-lt c o.next_order l) k
          ∙ unfold has_number in refl
      either (x ∷ h) =
          ap
            (λ b. is_listed v (
              if b
              then missing_behind c (sub c number o.next_order) 1 o.next_order
              else missing_from c (is_stored c (x ∷ h)) (sub c number o.next_order)
                  (next_number c o.next_order)))
            (ne→== (suc (length h)) 0 (λ e. omega arith))
          ∙ missing_from_lem c (is_stored c (x ∷ h)) (sub c number o.next_order)
              (next_number c o.next_order) v r (next-lt c o.next_order l) k
          ∙ ap
              (λ b. ltb (sub c v (next_number c o.next_order)) (sub c number o.next_order) && not b)
              (is_stored_lem (x ∷ h) v)

  -- For numbers of the type: GetMissingOrderNumbers reports a number exactly when the given number is
  -- in the future of the next one to be exported, the reported one lies behind the next one and not
  -- behind the given one, and no stored packet has it. The next number itself is never reported.
  pub get_missing_order_numbers_lem :
      (number v : ℕ) (o : PacketOrderer V)
      → number < modulus c
      → v < modulus c
      → o.next_order < modulus c
      → is_listed v (get_missing_order_numbers c number o) ≡ (
          is_in_future c o.next_order number
          && (ltb 0 (sub c v o.next_order)
              && leb (sub c v o.next_order) (sub c number o.next_order))
          && not (has_number c v o.packets_heap))
  unfolding get_missing_order_numbers is_in_future
  get_missing_order_numbers_lem number v o h k l =
      elim (Bool-cases (is_in_future c o.next_order number)) [
        | inr past ↦ rw past refl
        | inl future ↦
            let short : sub c number o.next_order ≤ (modulus c - 1) / 2 = ground (arith, future) in
            let between : ltb (sub c v (next_number c o.next_order)) (sub c number o.next_order) ≡ (
                ltb 0 (sub c v o.next_order)
                && leb (sub c v o.next_order) (sub c number o.next_order)) =
              ground (arith, short, modulus-large c, next_distance c o.next_order v l k) in
            rw future (
              reported number v o (omega (arith, sub-lt c number o.next_order)) l k
              ∙ ap (λ b. b && not (has_number c v o.packets_heap)) between)
      ]
