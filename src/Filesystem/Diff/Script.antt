-- ===== src/Filesystem/Diff/Script.antt =====
-- The deletions and insertions that lead from one sequence to another, and what the patch does with
-- them.
use go_webtools.Base.{
  ℕ, suc, ◌+◌, ◌≡◌, refl, sym, ap, ap₂, subst, ◌∙◌, true, false, List, [], ◌∷◌, ◌++◌, reverse,
  length, drop, arith, append_assoc, reverse_cons, length-append, take-append_length,
  drop-append_length,
}
use go_webtools.Base.Decimal.{pos}
use go_webtools.Helpers.SafeSlice.{insert_element_at_index, remove_element_at_index}
use go_webtools.Helpers.SafeSlice.Edits.{insert_element_lem, remove_element_lem}
use go_webtools.Filesystem.Diff.{DifferenceEntry, delete_all, insert_all}

module _ {ℓ} {T : Type ℓ} where
  abbrev pub deletion : ℕ → T → DifferenceEntry T
  deletion p c = record { position = p; character = c; is_insertion = false }

  abbrev pub insertion : ℕ → T → DifferenceEntry T
  insertion p c = record { position = p; character = c; is_insertion = true }

  -- `Cut i o ds k`: without the elements that `ds` names, `o`, which starts at `i`, is `k`
  pub data Cut : ℕ → List T → List (DifferenceEntry T) → List T → Type ℓ where
    cut_end : {i : ℕ} {s : List T} → Cut i s [] s
    cut_keep :
        {i : ℕ} (c : T) {o k : List T} {ds : List (DifferenceEntry T)}
        → Cut (suc i) o ds k
        → Cut i (c ∷ o) ds (c ∷ k)
    cut_drop :
        {i : ℕ} (c : T) {o k : List T} {ds : List (DifferenceEntry T)}
        → Cut (suc i) o ds k
        → Cut i (c ∷ o) (deletion i c ∷ ds) k

  -- `Fill j k n is`: with the elements that `is` names, `k` is `n`, which starts at `j`
  pub data Fill : ℕ → List T → List T → List (DifferenceEntry T) → Type ℓ where
    fill_end : {j : ℕ} {s : List T} → Fill j s s []
    fill_keep :
        {j : ℕ} (c : T) {k n : List T} {is : List (DifferenceEntry T)}
        → Fill (suc j) k n is
        → Fill j (c ∷ k) (c ∷ n) is
    fill_new :
        {j : ℕ} (c : T) {k n : List T} {is : List (DifferenceEntry T)}
        → Fill (suc j) k n is
        → Fill j k (c ∷ n) (insertion j c ∷ is)

  pub record Script (i j : ℕ) (o n : List T) (ds is : List (DifferenceEntry T)) : Type ℓ where
    pub kept : List T
    pub cut : Cut i o ds kept
    pub fill : Fill j kept n is

  pub Cut_length :
      {i : ℕ} {o k : List T} {ds : List (DifferenceEntry T)}
      → Cut i o ds k
      → length o ≡ length ds + length k
  Cut_length cut_end = omega arith
  Cut_length (cut_keep c h) = omega (arith, Cut_length h)
  Cut_length (cut_drop c h) = omega (arith, Cut_length h)

  pub Fill-length :
      {j : ℕ} {k n : List T} {is : List (DifferenceEntry T)}
      → Fill j k n is
      → length n ≡ length is + length k
  Fill-length fill_end = omega arith
  Fill-length (fill_keep c h) = omega (arith, Fill-length h)
  Fill-length (fill_new c h) = omega (arith, Fill-length h)

  pub Cut-append :
      {i : ℕ} {o k : List T} {ds : List (DifferenceEntry T)} (s : List T)
      → Cut i o ds k
      → Cut i (o ++ s) ds (k ++ s)
  Cut-append s cut_end = cut_end
  Cut-append s (cut_keep c h) = cut_keep c (Cut-append s h)
  Cut-append s (cut_drop c h) = cut_drop c (Cut-append s h)

  pub Fill-append :
      {j : ℕ} {k n : List T} {is : List (DifferenceEntry T)} (s : List T)
      → Fill j k n is
      → Fill j (k ++ s) (n ++ s) is
  Fill-append s fill_end = fill_end
  Fill-append s (fill_keep c h) = fill_keep c (Fill-append s h)
  Fill-append s (fill_new c h) = fill_new c (Fill-append s h)

  pub delete_all-append :
      (s : List T) (ds es : List (DifferenceEntry T))
      → delete_all s (ds ++ es) ≡ delete_all (delete_all s ds) es
  unfolding delete_all
  delete_all-append s [] es = refl
  delete_all-append s (d ∷ ds) es =
      delete_all-append (remove_element_at_index s (pos d.position)) ds es

  snoc : (p : List T) (c : T) (s : List T) → (p ++ (c ∷ [])) ++ s ≡ p ++ (c ∷ s)
  snoc p c s = append_assoc p (c ∷ []) s

  length-snoc : (p : List T) (c : T) → length (p ++ (c ∷ [])) ≡ suc (length p)
  length-snoc p c = omega (arith, length-append p (c ∷ []))

  remove_behind :
      (p : List T) (c : T) (s : List T)
      → remove_element_at_index (p ++ (c ∷ s)) (pos (length p)) ≡ p ++ s
  remove_behind p c s =
      remove_element_lem (p ++ (c ∷ s)) (length p)
      ∙ ap₂ (λ a b. a ++ b) (take-append_length p (c ∷ s)) behind
    where
      behind : drop (length p + 1) (p ++ (c ∷ s)) ≡ s
      behind =
          let next : length p + 1 ≡ length (p ++ (c ∷ [])) = omega (arith, length-snoc p c) in
          rw (next, ← snoc p c s) (drop-append_length (p ++ (c ∷ [])) s)

  insert_behind :
      (z : T) (p : List T) (c : T) (s : List T)
      → insert_element_at_index z (p ++ s) (pos (length p)) c ≡ p ++ (c ∷ s)
  insert_behind z p c s =
      (insert_element_lem z c (p ++ s)).0 (length p)
      ∙ rw (take-append_length p s, drop-append_length p s) refl

  -- from the last position down, every deletion finds its element in its place
  pub delete_all-Cut :
      {i : ℕ} {o k : List T} {ds : List (DifferenceEntry T)} (p : List T)
      → length p ≡ i
      → Cut i o ds k
      → delete_all (p ++ o) (reverse ds) ≡ p ++ k
  unfolding delete_all
  delete_all-Cut p e cut_end = refl
  delete_all-Cut p e (cut_keep {i} c {o} {k} {ds} h) =
      ap (λ t. delete_all t (reverse ds)) (sym (snoc p c o))
      ∙ delete_all-Cut (p ++ (c ∷ [])) (length-snoc p c ∙ ap suc e) h
      ∙ snoc p c k
  delete_all-Cut p e (cut_drop {i} c {o} {k} {ds} h) =
      ap (delete_all (p ++ (c ∷ o))) (reverse_cons (deletion i c) ds)
      ∙ delete_all-append (p ++ (c ∷ o)) (reverse ds) (deletion i c ∷ [])
      ∙ ap (λ t. remove_element_at_index t (pos i))
          (ap (λ t. delete_all t (reverse ds)) (sym (snoc p c o))
            ∙ delete_all-Cut (p ++ (c ∷ [])) (length-snoc p c ∙ ap suc e) h
            ∙ snoc p c k)
      ∙ subst (λ n. remove_element_at_index (p ++ (c ∷ k)) (pos n) ≡ p ++ k) e (remove_behind p c k)

  -- from the first position up, every insertion finds its place
  pub insert_all-Fill :
      {j : ℕ} {k n : List T} {is : List (DifferenceEntry T)} (z : T) (p : List T)
      → length p ≡ j
      → Fill j k n is
      → insert_all z (p ++ k) is ≡ p ++ n
  unfolding insert_all
  insert_all-Fill z p e fill_end = refl
  insert_all-Fill z p e (fill_keep {j} c {k} {n} {is} h) =
      ap (λ t. insert_all z t is) (sym (snoc p c k))
      ∙ insert_all-Fill z (p ++ (c ∷ [])) (length-snoc p c ∙ ap suc e) h
      ∙ snoc p c n
  insert_all-Fill z p e (fill_new {j} c {k} {n} {is} h) =
      ap (λ t. insert_all z t is)
        (subst (λ m. insert_element_at_index z (p ++ k) (pos m) c ≡ p ++ (c ∷ k)) e
            (insert_behind z p c k)
          ∙ sym (snoc p c k))
      ∙ insert_all-Fill z (p ++ (c ∷ [])) (length-snoc p c ∙ ap suc e) h
      ∙ snoc p c n
