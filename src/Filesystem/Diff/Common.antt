-- ===== src/Filesystem/Diff/Common.antt =====
-- Common subsequences, and the length of a longest one by recursion.
use go_webtools.Base.{
  ℕ, suc, ◌+◌, max, ◌≤◌, ◌≡◌, ◌≢◌, refl, sym, ap, ap₂, subst, ◌∙◌, List, [], ◌∷◌, ◌++◌, reverse, Eq,
  length, arith, if◌then◌else◌, if_holds, length-reverse, reverse-append, reverse-reverse,
  reverse_cons, append-nil,
}

module _ {ℓ} {T : Type ℓ} where
  -- `Subsequence k a`: `k` is `a` without some of its elements
  pub data Subsequence : List T → List T → Type ℓ where
    sub_end : {a : List T} → Subsequence [] a
    sub_take : (c : T) {k a : List T} → Subsequence k a → Subsequence (c ∷ k) (c ∷ a)
    sub_skip : (c : T) {k a : List T} → Subsequence k a → Subsequence k (c ∷ a)

  -- no common subsequence is longer than `n`
  abbrev pub Bound : List T → List T → ℕ → Type ℓ
  Bound a b n = (k : List T) → Subsequence k a → Subsequence k b → length k ≤ n

  pub Subsequence-tail : {c d : T} {k a : List T} → Subsequence (c ∷ k) (d ∷ a) → Subsequence k a
  Subsequence-tail (sub_take c h) = h
  Subsequence-tail (sub_skip c h) = later h
    where
      later : {c : T} {k a : List T} → Subsequence (c ∷ k) a → Subsequence k a
      later (sub_take c h) = sub_skip c h
      later (sub_skip c h) = sub_skip c (later h)

  Subsequence-append :
      {k l a b : List T} → Subsequence k a → Subsequence l b → Subsequence (k ++ l) (a ++ b)
  Subsequence-append {k} {l} {a} {b} sub_end h = in_front a h
    where
      in_front : (a : List T) {l b : List T} → Subsequence l b → Subsequence l (a ++ b)
      in_front [] h = h
      in_front (c ∷ a) h = sub_skip c (in_front a h)
  Subsequence-append (sub_take c g) h = sub_take c (Subsequence-append g h)
  Subsequence-append (sub_skip c g) h = sub_skip c (Subsequence-append g h)

  Subsequence-reverse : {k a : List T} → Subsequence k a → Subsequence (reverse k) (reverse a)
  Subsequence-reverse sub_end = sub_end
  Subsequence-reverse (sub_take c {k} {a} h) =
      subst (Subsequence (reverse (c ∷ k))) (sym (reverse_cons c a)) (
        subst (λ t. Subsequence t (reverse a ++ (c ∷ []))) (sym (reverse_cons c k))
          (Subsequence-append (Subsequence-reverse h) (sub_take c sub_end)))
  Subsequence-reverse (sub_skip c {k} {a} h) =
      subst (Subsequence (reverse k)) (sym (reverse_cons c a)) (
        subst (λ t. Subsequence t (reverse a ++ (c ∷ []))) (append-nil (reverse k))
          (Subsequence-append (Subsequence-reverse h) (sub_skip c sub_end)))

  pub Bound-reverse : (a b : List T) {n : ℕ} → Bound a b n → Bound (reverse a) (reverse b) n
  Bound-reverse a b {n} h k s t =
      let back : (r : List T) → Subsequence k (reverse r) → Subsequence (reverse k) r =
        λ r u. subst (Subsequence (reverse k)) (reverse-reverse r) (Subsequence-reverse u) in
      omega (arith, length-reverse k, h (reverse k) (back a s) (back b t))

  pub Bound-cons : (c : T) {a b : List T} {n : ℕ} → Bound a b n → Bound (c ∷ a) (c ∷ b) (suc n)
  Bound-cons c h [] s t = omega arith
  Bound-cons c h (d ∷ k) s t = omega (arith, h k (Subsequence-tail s) (Subsequence-tail t))

  pub Bound-append :
      (p : List T) {a b : List T} {n : ℕ} → Bound a b n → Bound (p ++ a) (p ++ b) (length p + n)
  Bound-append [] {a} {b} {n} h = λ k s t. omega (arith, h k s t)
  Bound-append (c ∷ p) {a} {b} {n} h = λ k s t. omega (arith, Bound-cons c (Bound-append p h) k s t)

  -- around the middle parts of two sequences
  pub Bound-around :
      (p a b s : List T) {n : ℕ}
      → Bound a b n
      → Bound (p ++ (a ++ s)) (p ++ (b ++ s)) (length p + (length s + n))
  Bound-around p a b s {n} h =
      let size : length (reverse s) + n ≡ length s + n = ap (λ m. m + n) (length-reverse s) in
      let ends : (r : List T) → reverse (reverse s ++ reverse r) ≡ r ++ s = λ r.
        reverse-append (reverse s) (reverse r)
        ∙ ap₂ (λ t u. t ++ u) (reverse-reverse r) (reverse-reverse s) in
      Bound-append p (λ k t u. omega (
        arith,
        size,
        Bound-reverse (reverse s ++ reverse a) (reverse s ++ reverse b)
            (Bound-append (reverse s) (Bound-reverse a b h)) k
            (subst (Subsequence k) (sym (ends a)) t) (subst (Subsequence k) (sym (ends b)) u),
      ))

  differ :
      (x y : T) (a b : List T) (m n : ℕ)
      → x ≢ y
      → Bound a (y ∷ b) m
      → Bound (x ∷ a) b n
      → Bound (x ∷ a) (y ∷ b) (max m n)
  differ x y a b m n d f g k sub_end t = omega arith
  differ x y a b m n d f g k (sub_skip _ s) t = omega (arith, f k s t)
  differ x y a b m n d f g (_ ∷ k) (sub_take _ s) (sub_take _ t) = absurd (d refl)
  differ x y a b m n d f g (_ ∷ k) (sub_take _ s) (sub_skip _ t) =
      omega (arith, g (x ∷ k) (sub_take x s) t)

  module _ ⦃e : Eq T⦄ where
    unfoldable pub lcs : List T → List T → ℕ
    lcs [] b = 0
    lcs (x ∷ a) [] = 0
    lcs (x ∷ a) (y ∷ b) = if e.beq x y then lcs a b + 1 else max (lcs a (y ∷ b)) (lcs (x ∷ a) b)

    pub lcs-Bound : (a b : List T) → Bound a b (lcs a b)
    unfolding lcs
    lcs-Bound [] b = λ k s t. empty s
      where
        empty : {k : List T} → Subsequence k [] → length k ≤ 0
        empty sub_end = omega arith
    lcs-Bound (x ∷ a) [] = λ k s t. empty t
      where
        empty : {k : List T} → Subsequence k [] → length k ≤ 0
        empty sub_end = omega arith
    lcs-Bound (x ∷ a) (y ∷ b) =
        if_holds (Bound (x ∷ a) (y ∷ b)) (e.beq x y) _ _
          (λ h.
            let longer : suc (lcs a b) ≡ lcs a b + 1 = omega arith in
            subst (λ c. Bound (x ∷ a) (c ∷ b) (lcs a b + 1)) ((e.beq_iff x y).0 h)
              (subst (Bound (x ∷ a) (x ∷ b)) longer (Bound-cons x (lcs-Bound a b))))
          (λ h.
            differ x y a b _ _ (λ q. cc (h, (e.beq_iff x y).1 q)) (lcs-Bound a (y ∷ b))
              (lcs-Bound (x ∷ a) b))
