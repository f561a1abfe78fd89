-- ===== src/Filesystem/Diff/Longest.antt =====
-- The matrix holds the length of a longest common subsequence of any two prefixes, and the walk
-- back through it links as many letters.
use go_webtools.Base.{
  ℕ, ◌+◌, ◌-◌, max, ◌<◌, ◌≡◌, ◌≢◌, refl, sym, ap, ap₂, ◌∙◌, false, List, [], ◌∷◌, ◌++◌, reverse, Eq,
  length, get_or, arith, if_holds, leb, ◌==◌, length-reverse, reverse-reverse, reverse_cons,
  append-nil, append_assoc, elim_holds, leb→le, leb-false, ==_iff,
}
use go_webtools.Filesystem.Diff.{Linked, Matrix, cell, fill_row, fill_rows, backtrack}
use go_webtools.Filesystem.Diff.Common.{lcs}
use go_webtools.Filesystem.Diff.Filled.{
  prefixes, entry-prefixes, previous-prefixes, prefixes_snoc, cell_lem,
}

not_zero : {k : ℕ} → (k == 0) ≡ false → 0 < k
not_zero {k} h = ground (arith, h)

module _ {ℓ} {T : Type ℓ} ⦃e : Eq T⦄ where
  -- a row of the matrix, and the matrix
  abbrev lengths : (cs old : List T) → List ℕ
  lengths cs old = prefixes (λ os. lcs os cs) [] old

  abbrev table : (old new : List T) → Matrix
  table old new = prefixes (λ cs. lengths cs old) [] new

  lcs-nil : (a : List T) → lcs a [] ≡ 0
  unfolding lcs
  lcs-nil [] = refl
  lcs-nil (x ∷ a) = refl

  pub lcs-empty : (a b : List T) → length a ≡ 0 → lcs a b ≡ 0
  unfolding lcs
  lcs-empty [] b h = refl
  lcs-empty (x ∷ a) b h = absurd (omega arith)

  lcs-empty_right : (a b : List T) → length b ≡ 0 → lcs a b ≡ 0
  lcs-empty_right a [] h = lcs-nil a
  lcs-empty_right a (x ∷ b) h = absurd (omega arith)

  turn : (o : T) (os rest : List T) → reverse (o ∷ os) ++ rest ≡ reverse os ++ (o ∷ rest)
  turn o os rest = ap (λ t. t ++ rest) (reverse_cons o os) ∙ append_assoc (reverse os) (o ∷ []) rest

  fill_row-lengths :
      (c : T) (cs os rest : List T) (y x : ℕ) (above row : List ℕ)
      → y ≡ length cs
      → x ≡ length os
      → (0 < length cs → above ≡ lengths cs (reverse os ++ rest))
      → row ≡ lengths (c ∷ cs) (reverse os)
      → fill_row y c above x rest row ≡ lengths (c ∷ cs) (reverse os ++ rest)
  unfolding fill_row lcs
  fill_row-lengths c cs os [] y x above row g h up e' =
      e' ∙ ap (lengths (c ∷ cs)) (sym (append-nil (reverse os)))
  fill_row-lengths c cs os (o ∷ rest) y x above row g h up e' =
      let turned = turn o os rest in
      let here : cell (e.beq o c) y x above row ≡ lcs (o ∷ os) (c ∷ cs) =
        ap₂ (λ v w. cell (e.beq o c) v w above row) g h
        ∙ cell_lem (e.beq o c) (length cs) (length os) above row (lcs os cs) (lcs os (c ∷ cs))
            (lcs (o ∷ os) cs)
            (λ p q.
              ap (λ t. get_or t (length os - 1) 0) (up q)
              ∙ previous-prefixes (λ ps. lcs ps cs) os (o ∷ rest) 0 p)
            (lcs-empty os cs) (lcs-empty_right os cs)
            (λ p.
              ap (λ t. get_or t (length os - 1) 0)
                (e' ∙ ap (lengths (c ∷ cs)) (sym (append-nil (reverse os))))
              ∙ previous-prefixes (λ ps. lcs ps (c ∷ cs)) os [] 0 p)
            (lcs-empty os (c ∷ cs))
            (λ q.
              ap (λ t. get_or t (length os) 0) (up q)
              ∙ entry-prefixes (λ ps. lcs ps cs) o os rest 0)
            (lcs-empty_right (o ∷ os) cs) in
      fill_row-lengths c cs (o ∷ os) rest y (x + 1) above
        (row ++ (cell (e.beq o c) y x above row ∷ [])) g (omega (arith, h))
        (λ q. up q ∙ ap (lengths cs) (sym turned))
        (ap₂ (λ t v. t ++ (v ∷ [])) e' here ∙ sym (prefixes_snoc (λ ps. lcs ps (c ∷ cs)) o os))
      ∙ ap (lengths (c ∷ cs)) turned

  fill_rows-table :
      (old cs rest : List T) (y : ℕ) (m : Matrix)
      → y ≡ length cs
      → m ≡ table old (reverse cs)
      → fill_rows old y rest m ≡ table old (reverse cs ++ rest)
  unfolding fill_rows prefixes
  fill_rows-table old cs [] y m g h = h ∙ ap (table old) (sym (append-nil (reverse cs)))
  fill_rows-table old cs (c ∷ rest) y m g h =
      let above : 0 < length cs → get_or m (y - 1) [] ≡ lengths cs old = λ q.
        ap₂ (λ t v. get_or t (v - 1) []) (h ∙ ap (table old) (sym (append-nil (reverse cs)))) g
        ∙ previous-prefixes (λ bs. lengths bs old) cs [] [] q in
      let row : fill_row y c (get_or m (y - 1) []) 0 old [] ≡ lengths (c ∷ cs) old =
        fill_row-lengths c cs [] old y 0 (get_or m (y - 1) []) [] g refl above refl in
      fill_rows-table old (c ∷ cs) rest (y + 1)
        (m ++ (fill_row y c (get_or m (y - 1) []) 0 old [] ∷ [])) (omega (arith, g))
        (ap₂ (λ t v. t ++ (v ∷ [])) h row ∙ sym (prefixes_snoc (λ bs. lengths bs old) c cs))
      ∙ ap (table old) (turn c cs rest)

  lcs-same :
      (x : T) (os : List T) (c : T) (cs : List T) → x ≡ c → lcs (x ∷ os) (c ∷ cs) ≡ lcs os cs + 1
  unfolding lcs
  lcs-same x os c cs h = rw ((e.beq_iff x c).1 h) refl

  lcs-other :
      (x : T) (os : List T) (c : T) (cs : List T)
      → x ≢ c
      → lcs (x ∷ os) (c ∷ cs) ≡ max (lcs os (c ∷ cs)) (lcs (x ∷ os) cs)
  unfolding lcs
  lcs-other x os c cs h =
      if_holds (λ v. v ≡ max (lcs os (c ∷ cs)) (lcs (x ∷ os) cs)) (e.beq x c) _ _
        (λ k. absurd (h ((e.beq_iff x c).0 k))) (λ k. refl)

  -- the walk from any cell of the matrix
  length-backtrack :
      (os cs o n : List T) (m : Matrix)
      → m ≡ table (reverse os ++ o) (reverse cs ++ n)
      → length (backtrack m os cs) ≡ lcs os cs
  unfolding backtrack lcs
  length-backtrack [] cs o n m h = refl
  length-backtrack (x ∷ os) [] o n m h = refl
  length-backtrack (x ∷ os) (c ∷ cs) o n m h =
      let P : List (Linked T) → Type 0 = λ ms. length ms ≡ lcs (x ∷ os) (c ∷ cs) in
      let to_left : length (backtrack m os (c ∷ cs)) ≡ lcs os (c ∷ cs) =
        length-backtrack os (c ∷ cs) (x ∷ o) n m
          (h ∙ ap (λ t. table t (reverse (c ∷ cs) ++ n)) (turn x os o)) in
      let to_top : length (backtrack m (x ∷ os) cs) ≡ lcs (x ∷ os) cs =
        length-backtrack (x ∷ os) cs o (c ∷ n) m
          (h ∙ ap (table (reverse (x ∷ os) ++ o)) (turn c cs n)) in
      elim_holds P (e.beq c x) _ _
        (λ k. omega (
          arith,
          length-backtrack os cs (x ∷ o) (c ∷ n) m (h ∙ ap₂ table (turn x os o) (turn c cs n)),
          lcs-same x os c cs (sym ((e.beq_iff c x).0 k)),
        ))
        (λ k.
          let other = lcs-other x os c cs (λ q. cc (k, (e.beq_iff c x).1 (sym q))) in
          elim_holds P (length os == 0) _ _
            (λ z. omega (arith, to_top, other, lcs-empty os (c ∷ cs) ((==_iff (length os) 0).0 z)))
            (λ z.
              elim_holds P (length cs == 0) _ _
                (λ w.
                  omega (
                    arith,
                    to_left,
                    other,
                    lcs-empty_right (x ∷ os) cs ((==_iff (length cs) 0).0 w),
                  ))
                (λ w.
                  let left : get_or (get_or m (length cs) []) (length os - 1) 0 ≡ lcs os (c ∷ cs) =
                    ap (λ t. get_or t (length os - 1) 0)
                      (ap (λ t. get_or t (length cs) [])
                          (h
                            ∙ ap (table (reverse (x ∷ os) ++ o)) (turn c cs n)
                            ∙ ap (λ t. table t (reverse cs ++ (c ∷ n))) (turn x os o))
                        ∙ entry-prefixes (λ bs. lengths bs (reverse os ++ (x ∷ o))) c cs n [])
                    ∙ previous-prefixes (λ ps. lcs ps (c ∷ cs)) os (x ∷ o) 0 (not_zero z) in
                  let top : get_or (get_or m (length cs - 1) []) (length os) 0 ≡ lcs (x ∷ os) cs =
                    ap (λ t. get_or t (length os) 0)
                      (ap (λ t. get_or t (length cs - 1) [])
                          (h
                            ∙ ap (table (reverse (x ∷ os) ++ o)) (turn c cs n)
                            ∙ ap (λ t. table t (reverse cs ++ (c ∷ n))) (turn x os o))
                        ∙ previous-prefixes (λ bs. lengths bs (reverse os ++ (x ∷ o))) cs (c ∷ n) []
                            (not_zero w))
                    ∙ entry-prefixes (λ ps. lcs ps cs) x os o 0 in
                  elim_holds P
                    (leb (get_or (get_or m (length cs) []) (length os - 1) 0)
                      (get_or (get_or m (length cs - 1) []) (length os) 0))
                    _ _ (λ v. omega (arith, to_top, other, left, top, leb→le _ _ v))
                    (λ v. omega (arith, to_left, other, left, top, leb-false _ _ v)))))

  -- The walk back through the matrix links as many letters as the recursion on the last elements of
  -- two sequences counts for a longest common subsequence.
  pub length-linked :
      (old new : List T)
      → length (reverse (backtrack (fill_rows old 0 new []) (reverse old) (reverse new)))
        ≡ lcs (reverse old) (reverse new)
  unfolding prefixes
  length-linked old new =
      let back : (s : List T) → s ≡ reverse (reverse s) ++ [] =
        λ s. sym (append-nil (reverse (reverse s)) ∙ reverse-reverse s) in
      length-reverse (backtrack (fill_rows old 0 new []) (reverse old) (reverse new))
      ∙ length-backtrack (reverse old) (reverse new) [] [] (fill_rows old 0 new [])
          (fill_rows-table old [] new 0 [] refl refl ∙ ap₂ table (back old) (back new))
