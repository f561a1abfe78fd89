-- ===== src/Helpers/SafeSlice/Edits.antt =====
-- What insertions and removals do to a slice.
use go_webtools.Base.{
  ℕ, zero, suc, ◌+◌, ◌-◌, ◌≤◌, ◌<◌, ◌≡◌, ◌∙◌, refl, sym, ap, not, ◌&&◌, List, [], ◌∷◌, ◌++◌, Eq,
  ltb, leb, ◌==◌, length, set, take, drop, arith, append-nil, ==_iff, ne→==, le→ltb, leb→le,
  if_holds, take-append_length,
}
use native.Mathlib.Decide.{dec_lt}
use go_webtools.Base.Decimal.{pos, negsuc}
use go_webtools.Helpers.SafeSlice.{
  insert_element_at_index, remove_element_at_index, contains, remove_element,
}

module _ {ℓ} {V : Type ℓ} where
  -- the elements behind an index, moved one place to the right and overwritten
  moved :
      (z v : V) (s : List V) (i : ℕ)
      → i < length s
      → set (take (i + 1) (s ++ (z ∷ [])) ++ take (length s - i) (drop i (s ++ (z ∷ [])))) i v
        ≡ take i s ++ (v ∷ drop i s)
  moved z v [] i h = absurd (omega arith)
  moved z v (x ∷ s) zero h =
      let all : suc (length s) - 0 ≡ suc (length s) = omega arith in
      rw all (ap (λ t. v ∷ x ∷ t) (take-append_length s (z ∷ [])))
  moved z v (x ∷ s) (suc i) h =
      let one_more : suc i + 1 ≡ suc (i + 1) = omega arith in
      let behind : suc (length s) - suc i ≡ length s - i = omega arith in
      rw (one_more, behind) (ap (λ t. x ∷ t) (moved z v s i (omega arith)))

  take-all : (s : List V) (i : ℕ) → length s ≤ i → take i s ≡ s
  take-all [] zero h = refl
  take-all [] (suc i) h = refl
  take-all (x ∷ s) zero h = absurd (omega arith)
  take-all (x ∷ s) (suc i) h = ap (λ t. x ∷ t) (take-all s i (omega arith))

  drop-all : (s : List V) (i : ℕ) → length s ≤ i → drop i s ≡ []
  drop-all [] zero h = refl
  drop-all [] (suc i) h = refl
  drop-all (x ∷ s) zero h = absurd (omega arith)
  drop-all (x ∷ s) (suc i) h = drop-all s i (omega arith)

  at_end : (v : V) (s : List V) (i : ℕ) → length s ≤ i → s ++ (v ∷ []) ≡ take i s ++ (v ∷ drop i s)
  at_end v s i h = rw (take-all s i h, drop-all s i h) refl

  insert_inside :
      (z v : V) (s : List V) (i : ℕ)
      → i < length s
      → insert_element_at_index z s (pos i) v ≡ take i s ++ (v ∷ drop i s)
  unfolding insert_element_at_index
  insert_inside z v s zero h =
      rw (le→ltb (length s) 0 (omega arith), ne→== (length s) 0 (λ e. omega arith)) refl
  insert_inside z v s (suc i) h =
      rw
        (
          le→ltb (length s) (suc i) (omega arith),
          ne→== (length s) (suc i) (λ e. omega arith),
          ne→== (suc i) 0 (λ e. omega arith),
        )
        (moved z v s (suc i) h)

  -- An insertion at an index inside the slice or at its end puts the element there, in front of
  -- those from the index on; behind the end it appends; a negative index changes nothing.
  pub insert_element_lem :
      (z v : V) (s : List V)
      → ((i : ℕ) → insert_element_at_index z s (pos i) v ≡ take i s ++ (v ∷ drop i s))
        × ((n : ℕ) → insert_element_at_index z s (negsuc n) v ≡ s)
  unfolding insert_element_at_index
  insert_element_lem z v s = (
    λ i. elim (dec_lt i (length s)) [
      | yes inside ↦ insert_inside z v s i inside
      | no outside ↦
          if_holds (λ t. t ≡ take i s ++ (v ∷ drop i s)) (ltb (length s) i) _ _
            (λ far. at_end v s i (omega arith))
            (λ near.
              if_holds (λ t. t ≡ take i s ++ (v ∷ drop i s)) (length s == i) _ _
                (λ end. at_end v s i (omega arith))
                (λ e. absurd (ground (arith, outside, near, e))))
    ],
    λ n. refl,
  )

  -- A removal at an index inside the slice takes that element out; elsewhere it changes nothing.
  pub remove_element_lem :
      (s : List V) (i : ℕ) → remove_element_at_index s (pos i) ≡ take i s ++ drop (i + 1) s
  unfolding remove_element_at_index
  remove_element_lem s i =
      if_holds (λ t. t ≡ take i s ++ drop (i + 1) s) (leb (length s) i) _ _
        (λ outside.
          let far = leb→le (length s) i outside in
          rw (take-all s i far, drop-all s (i + 1) (omega (arith, far))) (sym (append-nil s)))
        (λ inside.
          if_holds (λ t. t ≡ take i s ++ drop (i + 1) s) (length s - 1 == i) _ _
            (λ last.
              rw (drop-all s (i + 1) (omega (arith, (==_iff (length s - 1) i).0 last)))
                (sym (append-nil (take i s))))
            (λ e.
              if_holds (λ t. t ≡ take i s ++ drop (i + 1) s) (i == 0) _ _
                (λ zeroth. rw ((==_iff i 0).0 zeroth) refl) (λ g. refl)))

  -- A removal takes out what an insertion has put in, at every index up to the end of the slice.
  pub remove-insert_element :
      (z v : V) (s : List V) (i : ℕ)
      → i ≤ length s
      → remove_element_at_index (insert_element_at_index z s (pos i) v) (pos i) ≡ s
  remove-insert_element z v s i h =
      remove_element_lem (insert_element_at_index z s (pos i) v) i
      ∙ rw ((insert_element_lem z v s).0 i) (cut_out s i h)
    where
      cut_out :
          (r : List V) (k : ℕ)
          → k ≤ length r
          → take k (take k r ++ (v ∷ drop k r)) ++ drop (k + 1) (take k r ++ (v ∷ drop k r)) ≡ r
      cut_out r zero l = refl
      cut_out [] (suc k) l = absurd (omega arith)
      cut_out (x ∷ r) (suc k) l =
          let next : suc k + 1 ≡ suc (k + 1) = omega arith in
          rw next (ap (λ t. x ∷ t) (cut_out r k (omega arith)))

  -- RemoveElement leaves no element equal to the removed one, and every other one that was there.
  pub contains-remove_element :
      ⦃e : Eq V⦄ (item v : V) (s : List V)
      → contains v (remove_element item s) ≡ (not (e.beq item v) && contains v s)
  unfolding contains remove_element
  contains-remove_element ⦃e⦄ item v [] = ground arith
  contains-remove_element ⦃e⦄ item v (x ∷ s) =
      ground
        (arith, e.beq_iff x item, e.beq_iff item v, e.beq_iff x v, contains-remove_element item v s)
