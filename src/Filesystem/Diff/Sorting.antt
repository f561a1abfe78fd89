-- ===== src/Filesystem/Diff/Sorting.antt =====
-- How PatchUsingChanges sorts the changes of a run of elements: deletions with the biggest position
-- first, insertions with the smallest first.
use go_webtools.Base.{
  ℕ, zero, suc, ◌+◌, ◌≤◌, ◌<◌, ◌≡◌, refl, sym, ap, ap₂, subst, ◌∙◌, Bool, true, false, List, [],
  ◌∷◌, ◌++◌, reverse, none, some, length, get_elem?, arith, lt→ltb, le→ltb, append_assoc,
  append-nil, reverse_cons, take-append_length, drop-append_length, take_length, drop-length,
}
use go_webtools.Helpers.SafeSlice.{insert_element_at_index}
use go_webtools.Helpers.SafeSlice.Edits.{insert_element_lem}
use go_webtools.Filesystem.Diff.{
  DifferenceEntry, smaller_from_top, append_at_top, behind_smaller, append_at_bottom, sort_changes,
  entries,
}
use go_webtools.Filesystem.Diff.Script.{deletion, insertion}
use go_webtools.Base.Decimal.{pos}

module _ {ℓ} {T : Type ℓ} where
  abbrev pub HeadBelow : ℕ → List (DifferenceEntry T) → Type 0
  HeadBelow p [] = Unit
  HeadBelow p (e ∷ s) = e.position < p

  abbrev pub AllBelow : ℕ → List (DifferenceEntry T) → Type 0
  AllBelow p [] = Unit
  AllBelow p (e ∷ s) = (e.position < p) × AllBelow p s

  abbrev AllFrom : ℕ → List (DifferenceEntry T) → Type 0
  AllFrom p [] = Unit
  AllFrom p (e ∷ s) = (p ≤ e.position) × AllFrom p s

  pub HeadBelow-mono :
      (p q : ℕ) (s : List (DifferenceEntry T)) → p ≤ q → HeadBelow p s → HeadBelow q s
  HeadBelow-mono p q [] h b = tt
  HeadBelow-mono p q (e ∷ s) h b = omega arith

  pub AllBelow-mono : (p q : ℕ) (s : List (DifferenceEntry T)) → p ≤ q → AllBelow p s → AllBelow q s
  AllBelow-mono p q [] h b = tt
  AllBelow-mono p q (e ∷ s) h b = (omega (arith, b.0), AllBelow-mono p q s h b.1)

  pub AllBelow-append :
      (p : ℕ) (s t : List (DifferenceEntry T)) → AllBelow p s → AllBelow p t → AllBelow p (s ++ t)
  AllBelow-append p [] t a b = b
  AllBelow-append p (e ∷ s) t a b = (a.0, AllBelow-append p s t a.1 b)

  pub AllBelow-entries :
      (kind : Bool) (p : ℕ) (s : List T) → AllBelow (p + length s) (entries kind p s)
  unfolding entries
  AllBelow-entries kind p [] = tt
  AllBelow-entries kind p (c ∷ s) =
      let next : p + 1 + length s ≡ p + suc (length s) = omega arith in
      (
        omega arith,
        subst (λ q. AllBelow q (entries kind (p + 1) s)) next (AllBelow-entries kind (p + 1) s),
      )

  AllFrom-mono : (p q : ℕ) (s : List (DifferenceEntry T)) → q ≤ p → AllFrom p s → AllFrom q s
  AllFrom-mono p q [] h b = tt
  AllFrom-mono p q (e ∷ s) h b = (omega (arith, b.0), AllFrom-mono p q s h b.1)

  AllFrom-append :
      (p : ℕ) (s t : List (DifferenceEntry T)) → AllFrom p s → AllFrom p t → AllFrom p (s ++ t)
  AllFrom-append p [] t a b = b
  AllFrom-append p (e ∷ s) t a b = (a.0, AllFrom-append p s t a.1 b)

  AllFrom-reverse-entries :
      (kind : Bool) (p : ℕ) (s : List T) → AllFrom p (reverse (entries kind p s))
  unfolding entries
  AllFrom-reverse-entries kind p [] = tt
  AllFrom-reverse-entries kind p (c ∷ s) =
      let e : DifferenceEntry T = record { position = p; character = c; is_insertion = kind } in
      subst (AllFrom p) (sym (reverse_cons e (entries kind (p + 1) s))) (
        AllFrom-append p (reverse (entries kind (p + 1) s)) (e ∷ [])
          (AllFrom-mono (p + 1) p _ (omega arith) (AllFrom-reverse-entries kind (p + 1) s))
          (omega arith, tt))

  pub sort_changes-append :
      (z : DifferenceEntry T) (a b : List (DifferenceEntry T))
      (s : List (DifferenceEntry T) × List (DifferenceEntry T))
      → sort_changes z s (a ++ b) ≡ sort_changes z (sort_changes z s a) b
  unfolding sort_changes
  sort_changes-append z [] b s = refl
  sort_changes-append z (v ∷ a) b s = sort_changes-append z a b _

  -- a position below all those of a list
  smaller_from_top-none :
      (p : ℕ) (a : List (DifferenceEntry T)) (i : ℕ) → AllFrom p a → smaller_from_top p a i ≡ none
  unfolding smaller_from_top
  smaller_from_top-none p [] i f = refl
  smaller_from_top-none p (e ∷ a) i f =
      rw (le→ltb e.position p f.0) (smaller_from_top-none p a (i + 1) f.1)

  -- a position between those of a first part and those of a second one
  smaller_from_top-between :
      (p : ℕ) (a : List (DifferenceEntry T)) (g : DifferenceEntry T) (b : List (DifferenceEntry T))
      (i : ℕ)
      → AllFrom p a
      → g.position < p
      → smaller_from_top p (a ++ (g ∷ b)) i ≡ some (i + length a)
  unfolding smaller_from_top
  smaller_from_top-between p [] g b i f h = rw (lt→ltb g.position p h) (ap some (omega arith))
  smaller_from_top-between p (e ∷ a) g b i f h =
      rw (le→ltb e.position p f.0)
        (smaller_from_top-between p a g b (i + 1) f.1 h ∙ ap some (omega arith))

  append_at_top-between :
      (z e : DifferenceEntry T) (a b : List (DifferenceEntry T))
      → AllFrom e.position a
      → HeadBelow e.position b
      → append_at_top z (a ++ b) e ≡ a ++ (e ∷ b)
  unfolding append_at_top
  append_at_top-between z e a [] f h =
      rw (append-nil a) (rw (append_at_top, smaller_from_top-none e.position a 0 f) refl)
  append_at_top-between z e a (g ∷ b) f h =
      let at_end : smaller_from_top e.position (a ++ (g ∷ b)) 0 ≡ some (length a) =
        smaller_from_top-between e.position a g b 0 f h ∙ ap some (omega arith) in
      rw (append_at_top, at_end)
        ((insert_element_lem z e (a ++ (g ∷ b))).0 (length a)
          ∙ ap₂ (λ t u. t ++ (e ∷ u)) (take-append_length a (g ∷ b)) (drop-append_length a (g ∷ b)))

  get_elem?-AllBelow :
      (p : ℕ) (s : List (DifferenceEntry T)) (n : ℕ)
      → AllBelow p s
      → n < length s
      → (e : DifferenceEntry T) × (get_elem? s n ≡ some e) × (e.position < p)
  get_elem?-AllBelow p [] n h l = absurd (omega arith)
  get_elem?-AllBelow p (e ∷ s) zero h l = (e, refl, h.0)
  get_elem?-AllBelow p (e ∷ s) (suc n) h l = get_elem?-AllBelow p s n h.1 (omega arith)

  behind_smaller-all :
      (p : ℕ) (s : List (DifferenceEntry T)) (n : ℕ)
      → AllBelow p s
      → n ≤ length s
      → behind_smaller p s n ≡ n
  unfolding behind_smaller
  behind_smaller-all p s zero h l = refl
  behind_smaller-all p s (suc n) h l =
      let (e, found, below) = get_elem?-AllBelow p s n h (omega arith) in
      rw (behind_smaller, found, lt→ltb e.position p below) refl

  append_at_bottom-all :
      (z e : DifferenceEntry T) (s : List (DifferenceEntry T))
      → AllBelow e.position s
      → append_at_bottom z s e ≡ s ++ (e ∷ [])
  unfolding append_at_bottom
  append_at_bottom-all z e s h =
      ap (λ i. insert_element_at_index z s (pos i) e)
        (behind_smaller-all e.position s (length s) h (omega arith))
      ∙ (insert_element_lem z e s).0 (length s)
      ∙ ap₂ (λ t u. t ++ (e ∷ u)) (take_length s) (drop-length s)

  -- a run of deletions in increasing order
  pub sort_deletions :
      (z : DifferenceEntry T) (p : ℕ) (s : List T) (ds is : List (DifferenceEntry T))
      → HeadBelow p ds
      → sort_changes z (ds, is) (entries false p s) ≡ (reverse (entries false p s) ++ ds, is)
  unfolding entries sort_changes
  sort_deletions z p [] ds is h = refl
  sort_deletions z p (c ∷ s) ds is h =
      let d = deletion p c in
      ap (λ t. sort_changes z (t, is) (entries false (p + 1) s))
        (append_at_top-between z d [] ds tt h)
      ∙ sort_deletions z (p + 1) s (d ∷ ds) is (omega arith)
      ∙ ap (λ t. (t, is))
          (sym (append_assoc (reverse (entries false (p + 1) s)) (d ∷ []) ds)
            ∙ ap (λ t. t ++ ds) (sym (reverse_cons d (entries false (p + 1) s))))

  -- the last run of deletions comes in decreasing order
  pub sort_deletions_down :
      (z : DifferenceEntry T) (p : ℕ) (s : List T) (ds is : List (DifferenceEntry T))
      → HeadBelow p ds
      → sort_changes z (ds, is) (reverse (entries false p s))
        ≡ (reverse (entries false p s) ++ ds, is)
  unfolding entries sort_changes
  sort_deletions_down z p [] ds is h = refl
  sort_deletions_down z p (c ∷ s) ds is h =
      let d = deletion p c in
      let r = reverse (entries false (p + 1) s) in
      rw (reverse_cons d (entries false (p + 1) s)) (
        sort_changes-append z r (d ∷ []) (ds, is)
        ∙ ap (λ t. sort_changes z t (d ∷ []))
            (sort_deletions_down z (p + 1) s ds is (HeadBelow-mono p (p + 1) ds (omega arith) h))
        ∙ ap (λ t. (t, is))
            (append_at_top-between z d r ds
                (AllFrom-mono (p + 1) p r (omega arith) (AllFrom-reverse-entries false (p + 1) s)) h
              ∙ sym (append_assoc r (d ∷ []) ds)))

  pub sort_insertions :
      (z : DifferenceEntry T) (p : ℕ) (s : List T) (ds is : List (DifferenceEntry T))
      → AllBelow p is
      → sort_changes z (ds, is) (entries true p s) ≡ (ds, is ++ entries true p s)
  unfolding entries sort_changes
  sort_insertions z p [] ds is h = ap (λ t. (ds, t)) (sym (append-nil is))
  sort_insertions z p (c ∷ s) ds is h =
      let i = insertion p c in
      ap (λ t. sort_changes z (ds, t) (entries true (p + 1) s)) (append_at_bottom-all z i is h)
      ∙ sort_insertions z (p + 1) s ds (is ++ (i ∷ [])) (
          AllBelow-append (p + 1) is (i ∷ []) (AllBelow-mono p (p + 1) is (omega arith) h)
            (omega arith, tt))
      ∙ ap (λ t. (ds, t)) (append_assoc is (i ∷ []) (entries true (p + 1) s))

  -- the deletions of a run have no position at its end or behind it
  pub HeadBelow-reverse-entries :
      (p : ℕ) (s : List T) (ds : List (DifferenceEntry T))
      → HeadBelow p ds
      → HeadBelow (p + length s) (reverse (entries false p s) ++ ds)
  unfolding entries
  HeadBelow-reverse-entries p [] ds h = HeadBelow-mono p (p + 0) ds (omega arith) h
  HeadBelow-reverse-entries p (c ∷ s) ds h =
      let d = deletion p c in
      let e = entries false (p + 1) s in
      let next : p + 1 + length s ≡ p + suc (length s) = omega arith in
      let grouped : reverse e ++ (d ∷ ds) ≡ reverse (d ∷ e) ++ ds =
        sym (append_assoc (reverse e) (d ∷ []) ds) ∙ ap (λ t. t ++ ds) (sym (reverse_cons d e)) in
      subst (λ t. HeadBelow (p + suc (length s)) t) grouped
        (subst (λ n. HeadBelow n (reverse e ++ (d ∷ ds))) next
          (HeadBelow-reverse-entries (p + 1) s (d ∷ ds) (omega arith)))
