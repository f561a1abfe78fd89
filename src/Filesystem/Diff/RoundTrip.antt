-- ===== src/Filesystem/Diff/RoundTrip.antt =====
-- The patch applied to what DiffInStringLCS finds.
use go_webtools.Base.{
  ℕ, ◌+◌, ◌<◌, ◌≡◌, ◌⊎◌, inl, inr, refl, sym, ap, ◌∙◌, true, false, ◌&&◌, List, [], ◌∷◌, ◌++◌,
  reverse, Option, none, some, Eq, length, arith, ◌==◌, if_holds, ==_iff, length-append, append-nil,
  get_or, ◌-◌,
}
use go_webtools.Filesystem.Diff.{
  DifferenceEntry, Linked, sort_changes, delete_all, insert_all, patch_using_changes,
  changes_of_linked, diff_trim, fill_row, fill_rows, backtrack, Matrix, diff_in_string_lcs,
}
use go_webtools.Filesystem.Diff.Trim.{diff_trim-Trimmed}
use go_webtools.Filesystem.Diff.Script.{Cut-append, Fill-append, delete_all-Cut, insert_all-Fill}
use go_webtools.Filesystem.Diff.Walk.{Chain, backtrack-Chain}
use go_webtools.Filesystem.Diff.Detect.{scan_all-Found}

and_cases :
    (a b : ℕ)
    → ((a == 0 && b == 0) ≡ true → (a ≡ 0) × (b ≡ 0)) × ((a == 0 && b == 0) ≡ false → b ≡ 0 → 0 < a)
and_cases a b = (λ h. ground (arith, h), λ h e. ground (arith, h, e))

module _ {ℓ} {T : Type ℓ} where
  -- the changes of the links of a chain, wherever they are found in a longer sequence
  pub patch-changes_of_linked :
      (z : T) (offset : ℕ) (o n before behind : List T) (ms : List (Linked T))
      → length before ≡ offset
      → Chain 0 0 o n ms
      → patch_using_changes z (before ++ (o ++ behind)) (changes_of_linked offset o n ms)
        ≡ before ++ (n ++ behind)
  unfolding patch_using_changes changes_of_linked sort_changes
  patch-changes_of_linked z offset o n before behind ms e chain =
      let no_entry : DifferenceEntry T = record {
        position = 0;
        character = z;
        is_insertion = false;
      } in
      let found =
        scan_all-Found no_entry offset chain [] []
          (record { result = []; ok_old = 0; ok_new = 0; checked_last = false }) [] [] refl refl
          (record {
            at_old = refl;
            at_new = refl;
            at_last = λ h. cc;
            sorted = refl;
            low_old = tt;
            low_new = tt;
          }) in
      let at : length before ≡ 0 + offset = omega (arith, e) in
      ap (λ s. insert_all z (delete_all (before ++ (o ++ behind)) s.0) s.1) found.found
      ∙ ap (λ s. insert_all z (delete_all (before ++ (o ++ behind)) s) found.inserted)
          (append-nil (reverse found.deleted))
      ∙ ap (λ s. insert_all z s found.inserted)
          (delete_all-Cut before at (Cut-append behind found.script.cut))
      ∙ insert_all-Fill z before at (Fill-append behind found.script.fill)

  module _ ⦃e : Eq T⦄ where
    pub length-fill_rows :
        (old : List T) (y : ℕ) (new : List T) (m : Matrix)
        → length (fill_rows old y new m) ≡ length m + length new
    unfolding fill_rows
    length-fill_rows old y [] m = omega arith
    length-fill_rows old y (c ∷ new) m =
        let row = fill_row y c (get_or m (y - 1) []) 0 old [] in
        omega
          (arith, length-fill_rows old (y + 1) new (m ++ (row ∷ [])), length-append m (row ∷ []))

    no_elements : (a : List T) → length a ≡ 0 → a ≡ []
    no_elements [] e = refl
    no_elements (c ∷ a) e = absurd (omega arith)

    -- Of two sequences, DiffTrim either leaves nothing of the new one and something of the old one:
    -- then DiffInStringLCS panics. Or it returns changes, and PatchUsingChanges makes the new
    -- sequence of the old one with them.
    pub patch-diff_in_string_lcs :
        (z : T) (old new : List T)
        → let t = diff_trim old new in
          ((0 < length t.0) × (length t.1 ≡ 0) × (diff_in_string_lcs old new ≡ none))
          ⊎ ((d : List (DifferenceEntry T)) × (diff_in_string_lcs old new ≡ some d)
              × (patch_using_changes z old d ≡ new))
    unfolding diff_in_string_lcs patch_using_changes sort_changes delete_all insert_all
    patch-diff_in_string_lcs z old new =
        let (o, n, offset) = diff_trim old new in
        let t = diff_trim-Trimmed old new in
        let rows = length-fill_rows o 0 n [] in
        let P : Option (List (DifferenceEntry T)) → Type ℓ = λ r.
          ((0 < length o) × (length n ≡ 0) × (r ≡ none))
          ⊎ ((d : List (DifferenceEntry T)) × (r ≡ some d) × (patch_using_changes z old d ≡ new)) in
        if_holds P (length o == 0 && length n == 0) _ _
          (λ h.
            let (no_old, no_new) = (and_cases (length o) (length n)).0 h in
            inr (
              [],
              refl,
              t.of_old
                  ∙ ap (λ x. t.before ++ (x ++ t.behind))
                      (no_elements o no_old ∙ sym (no_elements n no_new))
                  ∙ sym t.of_new,
            ))
          (λ h.
            if_holds P (length (fill_rows o 0 n []) == 0) _ _
              (λ k.
                let no_new : length n ≡ 0 =
                  omega (arith, rows, (==_iff (length (fill_rows o 0 n [])) 0).0 k) in
                inl ((and_cases (length o) (length n)).1 h no_new, no_new, refl))
              (λ k.
                let ms = reverse (backtrack (fill_rows o 0 n []) (reverse o) (reverse n)) in
                let d = changes_of_linked offset o n ms in
                inr (
                  d,
                  refl,
                  ap (λ s. patch_using_changes z s d) t.of_old
                      ∙ patch-changes_of_linked z offset o n t.before t.behind ms t.offset
                          (backtrack-Chain (fill_rows o 0 n []) o n)
                      ∙ sym t.of_new,
                )))
