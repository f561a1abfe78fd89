-- ===== src/Filesystem/Diff/Detect.antt =====
-- The changes that the loop over the linked letters finds, as PatchUsingChanges sorts them.
use go_webtools.Base.{
  ℕ, suc, ◌+◌, ◌-◌, ◌≡◌, ◌≢◌, ◌⊎◌, inl, inr, refl, sym, ap, ap₂, subst, ◌∙◌, Bool, true, false,
  ◌||◌, List, [], ◌∷◌, ◌++◌, reverse, length, arith, if◌then◌else◌, ==_iff, if_holds, append_assoc,
  append-nil, reverse-append, length-append,
}
use go_webtools.Filesystem.Diff.{
  DifferenceEntry, Linked, Scan, sort_changes, entries, run, scan_linked, scan_all, last_changes,
}
use go_webtools.Filesystem.Diff.Script.{Cut, cut_end, cut_keep, Fill, fill_end, fill_keep, Script}
use go_webtools.Filesystem.Diff.Sorting.{
  HeadBelow, AllBelow, HeadBelow-mono, AllBelow-mono, AllBelow-append, AllBelow-entries,
  sort_changes-append, sort_deletions, sort_deletions_down, sort_insertions,
  HeadBelow-reverse-entries,
}
use go_webtools.Filesystem.Diff.Walk.{Chain, chain_end, chain_link}
use go_webtools.Filesystem.Diff.Runs.{Cut-run, Fill-run, run-behind, no_elements, run_if-between}

or_true : (x y : Bool) → (x || y ≡ true) → (x ≡ true) ⊎ (y ≡ true)
or_true true y h = inl refl
or_true false y h = inr h

module _ {ℓ} {T : Type ℓ} where
  -- the changes so far, sorted, when the loop has come to the ends of `p` and `q`
  pub record Sorted (z : DifferenceEntry T) (offset : ℕ) (p q n : List T) (s : Scan T)
      (ds is : List (DifferenceEntry T)) : Type ℓ where
    pub at_old : s.ok_old ≡ length p
    pub at_new : s.ok_new ≡ length q
    pub at_last : s.checked_last ≡ true → n ≡ []
    pub sorted : sort_changes z ([], []) s.result ≡ (ds, is)
    pub low_old : HeadBelow (length p + offset) ds
    pub low_new : AllBelow (length q + offset) is

  pub record Found (l : ℕ) (z : DifferenceEntry T) (i j : ℕ) (o n : List T)
      (ds is changes : List (DifferenceEntry T)) : Type ℓ where
    pub deleted : List (DifferenceEntry T)
    pub inserted : List (DifferenceEntry T)
    pub script : Script i j o n deleted inserted
    pub linked : length script.kept ≡ l
    pub found : sort_changes z ([], []) changes ≡ (reverse deleted ++ ds, is ++ inserted)

  subst2 :
      {B : Type ℓ} (P : List T → B → Type ℓ) {a b : List T} {c d : B}
      → a ≡ b
      → c ≡ d
      → P a c
      → P b d
  subst2 P {a} {b} {c} {d} e f h = subst (P b) f (subst (λ t. P t c) e h)

  -- behind the last element, which is linked, the last insertions start one place further
  last_run :
      (offset : ℕ) (q n : List T) (s : Scan T)
      → s.ok_new ≡ length q
      → (s.checked_last ≡ true → n ≡ [])
      → run true offset (q ++ n) (s.ok_new + (if s.checked_last then 1 else 0)) (length (q ++ n))
        ≡ entries true (length q + offset) n
  unfolding run
  last_run offset q n s e last =
      if_holds
        (λ k.
          run true offset (q ++ n) (s.ok_new + k) (length (q ++ n))
          ≡ entries true (length q + offset) n)
        s.checked_last 1 0
        (λ h.
          let none_left : n ≡ [] = last h in
          let nothing : length (q ++ n) - (s.ok_new + 1) ≡ 0 =
            omega (arith, e, length-append q n, ap length none_left) in
          rw (nothing, none_left) refl)
        (λ h. run-behind true offset q n (s.ok_new + 0) (length (q ++ n)) (omega (arith, e)) refl)

  last_changes-Found :
      (z : DifferenceEntry T) (offset : ℕ) (p q o n : List T) (s : Scan T)
      (ds is : List (DifferenceEntry T))
      → Sorted z offset p q n s ds is
      → Found 0 z
          (length p + offset)
          (length q + offset)
          o
          n
          ds
          is
          (last_changes offset (p ++ o) (q ++ n) s)
  unfolding last_changes
  last_changes-Found z offset p q o n s ds is h =
      let d = entries false (length p + offset) o in
      let i = entries true (length q + offset) n in
      record {
        deleted = d;
        inserted = i;
        script = record {
          kept = [];
          cut =
              subst2 (λ t u. Cut (length p + offset) t u []) (append-nil o) (append-nil d)
                (Cut-run (length p + offset) o cut_end);
          fill =
              subst2 (λ t u. Fill (length q + offset) [] t u) (append-nil n) (append-nil i)
                (Fill-run (length q + offset) n fill_end);
        };
        linked = refl;
        found =
            ap (sort_changes z ([], [])) (
              ap₂ (λ t u. s.result ++ reverse t ++ u)
                (run-behind false offset p o s.ok_old (length (p ++ o)) h.at_old refl)
                (last_run offset q n s h.at_new h.at_last))
            ∙ sort_changes-append z (s.result ++ reverse d) i ([], [])
            ∙ ap (λ t. sort_changes z t i)
                (sort_changes-append z s.result (reverse d) ([], [])
                  ∙ ap (λ t. sort_changes z t (reverse d)) h.sorted
                  ∙ sort_deletions_down z (length p + offset) o ds is h.low_old)
            ∙ sort_insertions z (length q + offset) n (reverse d ++ ds) is h.low_new;
      }

  never_empty : (b : List T) (c : T) (n : List T) → b ++ (c ∷ n) ≢ []
  never_empty b c n h = let size = length-append b (c ∷ n) in omega (arith, size, ap length h)

  last_linked :
      (q b n : List T) (c : T) (k : ℕ)
      → k ≡ length q + length b
      → k + 1 ≡ length (q ++ (b ++ (c ∷ n)))
      → length n ≡ 0
  last_linked q b n c k e h =
      omega (arith, e, h, length-append q (b ++ (c ∷ n)), length-append b (c ∷ n))

  scan_linked-Sorted :
      (z : DifferenceEntry T) (offset : ℕ) (p q a b : List T) (c : T) (o n : List T) (s : Scan T)
      (m : Linked T) (ds is : List (DifferenceEntry T))
      → m.in_old ≡ length p + length a
      → m.in_new ≡ length q + length b
      → Sorted z offset p q (b ++ (c ∷ n)) s ds is
      → Sorted z offset
          (p ++ (a ++ (c ∷ [])))
          (q ++ (b ++ (c ∷ [])))
          n
          (scan_linked offset (p ++ (a ++ (c ∷ o))) (q ++ (b ++ (c ∷ n))) s m)
          (reverse (entries false (length p + offset) a) ++ ds)
          (is ++ entries true (length q + offset) b)
  unfolding scan_linked
  scan_linked-Sorted z offset p q a b c o n s m ds is e f h =
      let d = entries false (length p + offset) a in
      let i = entries true (length q + offset) b in
      let behind_old = length-append p (a ++ (c ∷ [])) in
      let behind_new = length-append q (b ++ (c ∷ [])) in
      record {
        at_old = omega (arith, e, behind_old, length-append a (c ∷ []));
        at_new = omega (arith, f, behind_new, length-append b (c ∷ []));
        at_last = λ t. elim (or_true _ s.checked_last t) [
          | inl now ↦ no_elements n (last_linked q b n c m.in_new f ((==_iff _ _).0 now))
          | inr before ↦ absurd (never_empty b c n (h.at_last before))
        ];
        sorted =
            ap (sort_changes z ([], [])) (
              ap₂ (λ t u. s.result ++ t ++ u)
                (run_if-between false offset p a (c ∷ o) s.ok_old m.in_old h.at_old e)
                (run_if-between true offset q b (c ∷ n) s.ok_new m.in_new h.at_new f))
            ∙ sort_changes-append z (s.result ++ d) i ([], [])
            ∙ ap (λ t. sort_changes z t i)
                (sort_changes-append z s.result d ([], [])
                  ∙ ap (λ t. sort_changes z t d) h.sorted
                  ∙ sort_deletions z (length p + offset) a ds is h.low_old)
            ∙ sort_insertions z (length q + offset) b (reverse d ++ ds) is h.low_new;
        low_old =
            HeadBelow-mono (length p + offset + length a) _ _
              (omega (arith, behind_old, length-append a (c ∷ [])))
              (HeadBelow-reverse-entries (length p + offset) a ds h.low_old);
        low_new =
            AllBelow-append _ is i
              (AllBelow-mono (length q + offset) _ is (omega (arith, behind_new)) h.low_new)
              (AllBelow-mono (length q + offset + length b) _ i
                (omega (arith, behind_new, length-append b (c ∷ [])))
                (AllBelow-entries true (length q + offset) b));
      }

  -- a linked letter in front of the changes behind it
  Found-linked :
      (l : ℕ) (z : DifferenceEntry T) (i j : ℕ) (a b : List T) (c : T) (o n : List T)
      (ds is changes : List (DifferenceEntry T))
      → Found l z
          (suc (i + length a))
          (suc (j + length b))
          o
          n
          (reverse (entries false i a) ++ ds)
          (is ++ entries true j b)
          changes
      → Found (suc l) z i j (a ++ (c ∷ o)) (b ++ (c ∷ n)) ds is changes
  Found-linked l z i j a b c o n ds is changes h =
      let d = entries false i a in
      let e = entries true j b in
      record {
        deleted = d ++ h.deleted;
        inserted = e ++ h.inserted;
        script = record {
          kept = c ∷ h.script.kept;
          cut = Cut-run i a (cut_keep c h.script.cut);
          fill = Fill-run j b (fill_keep c h.script.fill);
        };
        linked = ap suc h.linked;
        found =
            h.found
            ∙ ap₂ (λ t u. (t, u))
                (sym (append_assoc (reverse h.deleted) (reverse d) ds)
                  ∙ ap (λ t. t ++ ds) (sym (reverse-append d h.deleted)))
                (append_assoc is e h.inserted);
      }

  -- Sorted, the changes of a chain of links are the deletions and the insertions of a script.
  pub scan_all-Found :
      (z : DifferenceEntry T) (offset : ℕ) {i j : ℕ} {o n : List T} {ms : List (Linked T)}
      → Chain i j o n ms
      → (p q : List T) (s : Scan T) (ds is : List (DifferenceEntry T)) → i ≡ length p
      → j ≡ length q
      → Sorted z offset p q n s ds is
      → Found
          (length ms)
          z
          (length p + offset)
          (length q + offset)
          o
          n
          ds
          is
          (last_changes offset (p ++ o) (q ++ n) (scan_all offset (p ++ o) (q ++ n) s ms))
  unfolding scan_all
  scan_all-Found z offset chain_end p q s ds is e f h =
      last_changes-Found z offset p q _ _ s ds is h
  scan_all-Found z offset (chain_link {i} {j} {m} {ms} {o} {n} a b c g k chain) p q s ds is e f h =
      let p' = p ++ (a ++ (c ∷ [])) in
      let q' = q ++ (b ++ (c ∷ [])) in
      let l_old = length-append p (a ++ (c ∷ [])) in
      let l_new = length-append q (b ++ (c ∷ [])) in
      let here_old : length p' + offset ≡ suc (length p + offset + length a) =
        omega (arith, l_old, length-append a (c ∷ [])) in
      let here_new : length q' + offset ≡ suc (length q + offset + length b) =
        omega (arith, l_new, length-append b (c ∷ [])) in
      let old : p' ++ o ≡ p ++ (a ++ (c ∷ o)) =
        append_assoc p (a ++ (c ∷ [])) o ∙ ap (λ t. p ++ t) (append_assoc a (c ∷ []) o) in
      let new : q' ++ n ≡ q ++ (b ++ (c ∷ n)) =
        append_assoc q (b ++ (c ∷ [])) n ∙ ap (λ t. q ++ t) (append_assoc b (c ∷ []) n) in
      let at_old : m.in_old ≡ length p + length a = omega (arith, g, e) in
      let at_new : m.in_new ≡ length q + length b = omega (arith, k, f) in
      let ds' = reverse (entries false (length p + offset) a) ++ ds in
      let is' = is ++ entries true (length q + offset) b in
      let s' = scan_linked offset (p ++ (a ++ (c ∷ o))) (q ++ (b ++ (c ∷ n))) s m in
      let rest =
        scan_all-Found z offset chain p' q' s' ds' is'
          (omega (arith, at_old, l_old, length-append a (c ∷ [])))
          (omega (arith, at_new, l_new, length-append b (c ∷ [])))
          (scan_linked-Sorted z offset p q a b c o n s m ds is at_old at_new h) in
      Found-linked (length ms) z (length p + offset) (length q + offset) a b c o n ds is _ (
        subst2
          (λ x y.
            Found (length ms) z (suc (length p + offset + length a))
              (suc (length q + offset + length b)) o n ds' is'
              (last_changes offset x y (scan_all offset x y s' ms)))
          old new
          (subst
            (λ x.
              Found (length ms) z x (suc (length q + offset + length b)) o n ds' is' (
                last_changes offset (p' ++ o) (q' ++ n)
                  (scan_all offset (p' ++ o) (q' ++ n) s' ms)))
            here_old
            (subst
              (λ y. Found (length ms) z (length p' + offset) y o n ds' is' (
                last_changes offset (p' ++ o) (q' ++ n)
                  (scan_all offset (p' ++ o) (q' ++ n) s' ms)))
              here_new rest)))
