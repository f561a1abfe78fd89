-- ===== src/Filesystem/Diff/Shortest.antt =====
-- How many changes DiffInStringLCS finds.
use go_webtools.Base.{
  ℕ, suc, ◌+◌, ◌*◌, ◌≤◌, ◌≡◌, refl, ap, subst, ◌∙◌, true, false, ◌&&◌, List, [], ◌∷◌, ◌++◌, reverse,
  reverse-reverse, Option, none, some, Eq, length, take, drop, arith, if_holds, ◌==◌, length-append,
  length-reverse, take-append-drop,
}
use go_webtools.Base.Decimal.{pos}
use go_webtools.Helpers.SafeSlice.{insert_element_at_index}
use go_webtools.Helpers.SafeSlice.Edits.{insert_element_lem}
use go_webtools.Filesystem.Diff.{
  DifferenceEntry, Linked, smaller_from_top, behind_smaller, append_at_top, append_at_bottom,
  sort_changes, changes_of_linked, diff_trim, fill_rows, backtrack, diff_in_string_lcs,
}
use go_webtools.Filesystem.Diff.Trim.{Trimmed, diff_trim-Trimmed}
use go_webtools.Filesystem.Diff.Script.{Cut_length, Fill-length}
use go_webtools.Filesystem.Diff.Walk.{Chain, backtrack-Chain}
use go_webtools.Filesystem.Diff.Detect.{scan_all-Found}
use go_webtools.Filesystem.Diff.Common.{
  Subsequence, Bound, Bound-around, Bound-reverse, lcs, lcs-Bound,
}
use go_webtools.Filesystem.Diff.Longest.{lcs-empty, length-linked}

length-insert {ℓ} :
    {V : Type ℓ} (z v : V) (s : List V) (i : ℕ)
    → length (insert_element_at_index z s (pos i) v) ≡ suc (length s)
length-insert z v s i = omega (
  arith,
  ap length ((insert_element_lem z v s).0 i),
  length-append (take i s) (v ∷ drop i s),
  length-append (take i s) (drop i s),
  ap length (take-append-drop i s),
)

none_left : (a b : ℕ) → (a == 0 && b == 0) ≡ true → a ≡ 0
none_left a b h = ground (arith, h)

length_of {ℓ} : {V : Type ℓ} {a b : List V} → some a ≡ some b → length a ≡ length b
length_of {V} {a} h = ap (λ r. elim r [ none ↦ length a | some x ↦ length x ]) h

module _ {ℓ} {T : Type ℓ} where
  length-append_at_top :
      (z e : DifferenceEntry T) (s : List (DifferenceEntry T))
      → length (append_at_top z s e) ≡ suc (length s)
  unfolding append_at_top
  length-append_at_top z e s =
      elim (smaller_from_top e.position s 0)
        as (λ r.
          length (elim r [ some i ↦ insert_element_at_index z s (pos i) e | none ↦ s ++ (e ∷ []) ])
          ≡ suc (length s)) [
            | none ↦ omega (arith, length-append s (e ∷ []))
            | some i ↦ length-insert z e s i
          ]

  length-append_at_bottom :
      (z e : DifferenceEntry T) (s : List (DifferenceEntry T))
      → length (append_at_bottom z s e) ≡ suc (length s)
  unfolding append_at_bottom
  length-append_at_bottom z e s = length-insert z e s (behind_smaller e.position s (length s))

  -- sorting keeps every change
  length-sort_changes :
      (z : DifferenceEntry T) (changes : List (DifferenceEntry T))
      (s : List (DifferenceEntry T) × List (DifferenceEntry T))
      → length (sort_changes z s changes).0 + length (sort_changes z s changes).1
        ≡ length s.0 + length s.1 + length changes
  unfolding sort_changes
  length-sort_changes z [] s = omega arith
  length-sort_changes z (v ∷ changes) s =
      if_holds
        (λ t.
          length (sort_changes z t changes).0 + length (sort_changes z t changes).1
          ≡ length s.0 + length s.1 + suc (length changes))
        v.is_insertion _ _
        (λ _.
          length-sort_changes z changes (s.0, append_at_bottom z s.1 v)
          ∙ omega (arith, length-append_at_bottom z v s.1))
        (λ _.
          length-sort_changes z changes (append_at_top z s.0 v, s.1)
          ∙ omega (arith, length-append_at_top z v s.0))

  length-changes_of_linked :
      (z : T) (offset : ℕ) (o n : List T) (ms : List (Linked T))
      → Chain 0 0 o n ms
      → length (changes_of_linked offset o n ms) + 2 * length ms ≡ length o + length n
  unfolding changes_of_linked sort_changes
  length-changes_of_linked z offset o n ms chain =
      let no_entry : DifferenceEntry T = record {
        position = 0;
        character = z;
        is_insertion = false;
      } in
      let found =
        scan_all-Found no_entry offset chain [] []
          (record { result = []; ok_old = 0; ok_new = 0; checked_last = false }) [] [] refl refl
          (record {
            at_old = refl;
            at_new = refl;
            at_last = λ h. cc;
            sorted = refl;
            low_old = tt;
            low_new = tt;
          }) in
      let changes = changes_of_linked offset o n ms in
      let kept_all : length (sort_changes no_entry ([], []) changes).0
            + length (sort_changes no_entry ([], []) changes).1
          ≡ 0 + 0 + length changes =
        length-sort_changes no_entry changes ([], []) in
      let down : length (sort_changes no_entry ([], []) changes).0 ≡ length found.deleted =
        ap (λ r. length r.0) found.found
        ∙ omega (arith, length-append (reverse found.deleted) [], length-reverse found.deleted) in
      let up : length (sort_changes no_entry ([], []) changes).1 ≡ length found.inserted =
        ap (λ r. length r.1) found.found in
      omega (
        arith,
        found.linked,
        Cut_length found.script.cut,
        Fill-length found.script.fill,
        kept_all,
        down,
        up,
      )

  sizes : (w p a s : List T) → w ≡ p ++ (a ++ s) → length w ≡ length p + (length a + length s)
  sizes w p a s h = omega (arith, ap length h, length-append p (a ++ s), length-append a s)

  module _ ⦃e : Eq T⦄ where
    kept_bound :
        (o n : List T) (offset : ℕ) (old new : List T)
        → (around : Trimmed old new (o, n, offset)) → (k : List T) → Subsequence k old
        → Subsequence k new
        → length k ≤ length around.before + (length around.behind + lcs (reverse o) (reverse n))
    kept_bound o n offset old new around k s t =
        let middle : Bound o n (lcs (reverse o) (reverse n)) =
          subst (λ r. Bound r n (lcs (reverse o) (reverse n))) (reverse-reverse o)
            (subst (λ r. Bound (reverse (reverse o)) r (lcs (reverse o) (reverse n)))
              (reverse-reverse n)
              (Bound-reverse (reverse o) (reverse n) (lcs-Bound (reverse o) (reverse n)))) in
        Bound-around around.before o n around.behind middle k
          (subst (Subsequence k) around.of_old s) (subst (Subsequence k) around.of_new t)

    -- DiffInStringLCS returns no more changes than are needed to keep a common subsequence of the two
    -- sequences, whichever is chosen: a longer one would need fewer changes.
    pub length-diff_in_string_lcs :
        (z : T) (old new : List T) (d : List (DifferenceEntry T))
        → diff_in_string_lcs old new ≡ some d
        → (k : List T) → Subsequence k old
        → Subsequence k new
        → length d + 2 * length k ≤ length old + length new
    unfolding diff_in_string_lcs
    length-diff_in_string_lcs z old new d h k s t =
        let (o, n, offset) = diff_trim old new in
        let around = diff_trim-Trimmed old new in
        let m = fill_rows o 0 n [] in
        let ms = reverse (backtrack m (reverse o) (reverse n)) in
        let bound = kept_bound o n (diff_trim old new).2 old new around k s t in
        let old_size = sizes old around.before o around.behind around.of_old in
        let new_size = sizes new around.before n around.behind around.of_new in
        let P : Option (List (DifferenceEntry T)) → Type ℓ =
          λ r. r ≡ some d → length d + 2 * length k ≤ length old + length new in
        if_holds P (length o == 0 && length n == 0) _ _
          (λ q f.
            let no_old : length o ≡ 0 = none_left (length o) (length n) q in
            omega (
              arith,
              bound,
              old_size,
              new_size,
              length_of f,
              lcs-empty (reverse o) (reverse n) (length-reverse o ∙ no_old),
            ))
          (λ q.
            if_holds P (length m == 0) _ _ (λ _ f. cc)
              (λ _ f. omega (
                arith,
                bound,
                old_size,
                new_size,
                length_of f,
                length-linked o n,
                length-changes_of_linked z offset o n ms (backtrack-Chain m o n),
              )))
          h
