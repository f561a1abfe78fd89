-- ===== src/Filesystem/Diff/Walk.antt =====
-- The letters that the walk back through the matrix links.
use go_webtools.Base.{
  ℕ, suc, ◌+◌, ◌-◌, ◌≡◌, sym, ap, subst, ◌∙◌, elim_holds, List, [], ◌∷◌, ◌++◌, reverse, Eq, leb,
  ◌==◌, length, get_or, arith, append_assoc, append-nil, reverse_cons, reverse-reverse,
}
use go_webtools.Filesystem.Diff.{Linked, Matrix, backtrack}

module _ {ℓ} {T : Type ℓ} where
  -- `Chain i j o n ms`: the links lead from left to right through `o`, which starts at `i`, and
  -- `n`, which starts at `j`, and each links two equal letters
  pub data Chain : ℕ → ℕ → List T → List T → List (Linked T) → Type ℓ where
    chain_end : {i j : ℕ} {o n : List T} → Chain i j o n []
    chain_link :
        {i j : ℕ} {m : Linked T} {ms : List (Linked T)} {o n : List T} (a b : List T) (c : T)
        → m.in_old ≡ i + length a
        → m.in_new ≡ j + length b
        → Chain (suc m.in_old) (suc m.in_new) o n ms
        → Chain i j (a ++ (c ∷ o)) (b ++ (c ∷ n)) (m ∷ ms)

  Chain-skip_old :
      {i j : ℕ} {o n : List T} {ms : List (Linked T)} (c : T)
      → Chain (suc i) j o n ms
      → Chain i j (c ∷ o) n ms
  Chain-skip_old c chain_end = chain_end
  Chain-skip_old c (chain_link a b d p q h) = chain_link (c ∷ a) b d (omega (arith, p)) q h

  Chain-skip_new :
      {i j : ℕ} {o n : List T} {ms : List (Linked T)} (c : T)
      → Chain i (suc j) o n ms
      → Chain i j o (c ∷ n) ms
  Chain-skip_new c chain_end = chain_end
  Chain-skip_new c (chain_link a b d p q h) = chain_link a (c ∷ b) d p (omega (arith, q)) h

  Chain-start_old :
      (r o : List T) {j : ℕ} {n : List T} {ms : List (Linked T)}
      → Chain (length r) j o n ms
      → Chain 0 j (reverse r ++ o) n ms
  Chain-start_old [] o h = h
  Chain-start_old (c ∷ r) o {j} {n} {ms} h =
      subst (λ t. Chain 0 j t n ms)
        (sym (ap (λ t. t ++ o) (reverse_cons c r) ∙ append_assoc (reverse r) (c ∷ []) o))
        (Chain-start_old r (c ∷ o) (Chain-skip_old c h))

  Chain-start_new :
      (r n : List T) {i : ℕ} {o : List T} {ms : List (Linked T)}
      → Chain i (length r) o n ms
      → Chain i 0 o (reverse r ++ n) ms
  Chain-start_new [] n h = h
  Chain-start_new (c ∷ r) n {i} {o} {ms} h =
      subst (λ t. Chain i 0 o t ms)
        (sym (ap (λ t. t ++ n) (reverse_cons c r) ∙ append_assoc (reverse r) (c ∷ []) n))
        (Chain-start_new r (c ∷ n) (Chain-skip_new c h))

  -- the links of a walk, in front of those behind the elements `os` and `cs`
  abbrev Links : List T → List T → List (Linked T) → Type ℓ
  Links os cs ms =
      (o n : List T) (rest : List (Linked T))
      → Chain (length os) (length cs) o n rest
      → Chain 0 0 (reverse os ++ o) (reverse cs ++ n) (reverse ms ++ rest)

  subst2 : (P : List T → List T → Type ℓ) {a b c d : List T} → a ≡ b → c ≡ d → P a c → P b d
  subst2 P {a} {b} {c} {d} e f h = subst (P b) f (subst (λ t. P t c) e h)

  unwind : (c : T) (r o : List T) → reverse (c ∷ r) ++ o ≡ reverse r ++ (c ∷ o)
  unwind c r o = ap (λ t. t ++ o) (reverse_cons c r) ∙ append_assoc (reverse r) (c ∷ []) o

  Links-up :
      (os : List T) (c : T) (cs : List T) (ms : List (Linked T))
      → Links os cs ms
      → Links os (c ∷ cs) ms
  Links-up os c cs ms h o n rest k =
      subst (λ t. Chain 0 0 (reverse os ++ o) t (reverse ms ++ rest)) (sym (unwind c cs n))
        (h o (c ∷ n) rest (Chain-skip_new c k))

  Links-left :
      (o : T) (os cs : List T) (ms : List (Linked T)) → Links os cs ms → Links (o ∷ os) cs ms
  Links-left x os cs ms h o n rest k =
      subst (λ t. Chain 0 0 t (reverse cs ++ n) (reverse ms ++ rest)) (sym (unwind x os o))
        (h (x ∷ o) n rest (Chain-skip_old x k))

  Links-match :
      (c : T) (os cs : List T) (ms : List (Linked T))
      → Links os cs ms
      → Links (c ∷ os) (c ∷ cs) (record { letter = c; in_old = length os; in_new = length cs } ∷ ms)
  Links-match c os cs ms h o n rest k =
      subst (Chain 0 0 (reverse (c ∷ os) ++ o) (reverse (c ∷ cs) ++ n))
        (sym (ap (λ t. t ++ rest) (reverse_cons m ms) ∙ append_assoc (reverse ms) (m ∷ []) rest))
        (subst2 (λ t u. Chain 0 0 t u (reverse ms ++ (m ∷ rest))) (sym (unwind c os o))
          (sym (unwind c cs n))
          (h (c ∷ o) (c ∷ n) (m ∷ rest) (chain_link [] [] c (omega arith) (omega arith) k)))
    where
      m : Linked T
      m = record { letter = c; in_old = length os; in_new = length cs }

  module _ ⦃e : Eq T⦄ where
    backtrack-Links : (m : Matrix) (os cs : List T) → Links os cs (backtrack m os cs)
    unfolding backtrack
    backtrack-Links m [] cs = λ o n rest k. Chain-start_new cs n k
    backtrack-Links m (x ∷ os) [] = λ o n rest k. Chain-start_old (x ∷ os) o k
    backtrack-Links m (x ∷ os) (c ∷ cs) =
        elim_holds (Links (x ∷ os) (c ∷ cs)) (e.beq c x) _ _
          (λ h.
            subst
              (λ d.
                Links (x ∷ os) (d ∷ cs) (
                  record { letter = x; in_old = length os; in_new = length cs }
                  ∷ backtrack m os cs))
              (sym ((e.beq_iff c x).0 h))
              (Links-match x os cs (backtrack m os cs) (backtrack-Links m os cs)))
          (λ h.
            elim_holds (Links (x ∷ os) (c ∷ cs)) (length os == 0) _ _
              (λ _.
                Links-up (x ∷ os) c cs (backtrack m (x ∷ os) cs) (backtrack-Links m (x ∷ os) cs))
              (λ _.
                elim_holds (Links (x ∷ os) (c ∷ cs)) (length cs == 0) _ _
                  (λ _.
                    Links-left x os (c ∷ cs) (backtrack m os (c ∷ cs))
                      (backtrack-Links m os (c ∷ cs)))
                  (λ _.
                    elim_holds (Links (x ∷ os) (c ∷ cs))
                      (leb (get_or (get_or m (length cs) []) (length os - 1) 0)
                        (get_or (get_or m (length cs - 1) []) (length os) 0))
                      _ _
                      (λ _.
                        Links-up (x ∷ os) c cs (backtrack m (x ∷ os) cs)
                          (backtrack-Links m (x ∷ os) cs))
                      (λ _.
                        Links-left x os (c ∷ cs) (backtrack m os (c ∷ cs))
                          (backtrack-Links m os (c ∷ cs))))))

    -- the letters that the walk through any matrix links, in their order
    pub backtrack-Chain :
        (m : Matrix) (old new : List T)
        → Chain 0 0 old new (reverse (backtrack m (reverse old) (reverse new)))
    backtrack-Chain m old new =
        let whole = backtrack-Links m (reverse old) (reverse new) [] [] [] chain_end in
        let links : reverse (backtrack m (reverse old) (reverse new)) ++ []
            ≡ reverse (backtrack m (reverse old) (reverse new)) =
          append-nil _ in
        let back : (s : List T) → reverse (reverse s) ++ [] ≡ s =
          λ s. append-nil _ ∙ reverse-reverse s in
        subst (Chain 0 0 old new) links (
          subst2 (λ t u. Chain 0 0 t u (reverse (backtrack m (reverse old) (reverse new)) ++ []))
            (back old) (back new) whole)
