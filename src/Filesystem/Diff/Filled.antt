-- ===== src/Filesystem/Diff/Filled.antt =====
-- Tables of a value for every prefix, and a cell of the matrix by the values around it.
use go_webtools.Base.{
  ℕ, suc, ◌+◌, ◌-◌, max, ◌<◌, ◌≡◌, refl, sym, ap, ap₂, subst, ◌∙◌, Bool, List, [], ◌∷◌, ◌++◌,
  reverse, length, get_or, arith, if◌then◌else◌, length-reverse, reverse-reverse, reverse_cons,
  append-nil, append_assoc,
}
use go_webtools.Filesystem.Diff.{cell}

get_or-append_length {ℓ} :
    {A : Type ℓ} (a : List A) (v : A) (b : List A) (d : A) → get_or (a ++ (v ∷ b)) (length a) d ≡ v
get_or-append_length [] v b d = refl
get_or-append_length (x ∷ a) v b d = get_or-append_length a v b d

-- what `f` has at every prefix of a list, the last element of the prefix first
module _ {ℓ} {T : Type ℓ} {A : Type 0} (f : List T → A) where
  unfoldable pub prefixes : List T → List T → List A
  prefixes p [] = []
  prefixes p (o ∷ rest) = f (o ∷ p) ∷ prefixes (o ∷ p) rest

  prefixes-append :
      (p a b : List T) → prefixes p (a ++ b) ≡ prefixes p a ++ prefixes (reverse a ++ p) b
  unfolding prefixes
  prefixes-append p [] b = refl
  prefixes-append p (o ∷ a) b =
      let behind : reverse a ++ (o ∷ p) ≡ reverse (o ∷ a) ++ p =
        sym (append_assoc (reverse a) (o ∷ []) p) ∙ ap (λ t. t ++ p) (sym (reverse_cons o a)) in
      ap (λ t. f (o ∷ p) ∷ t)
        (prefixes-append (o ∷ p) a b ∙ ap (λ q. prefixes (o ∷ p) a ++ prefixes q b) behind)

  pub length-prefixes : (p a : List T) → length (prefixes p a) ≡ length a
  unfolding prefixes
  length-prefixes p [] = refl
  length-prefixes p (o ∷ a) = ap suc (length-prefixes (o ∷ p) a)

  -- the prefixes that end within the elements `os`, the last one first, and those that end behind them
  pub prefixes-split :
      (os rest : List T)
      → prefixes [] (reverse os ++ rest) ≡ prefixes [] (reverse os) ++ prefixes os rest
  prefixes-split os rest =
      prefixes-append [] (reverse os) rest
      ∙ ap (λ q. prefixes [] (reverse os) ++ prefixes q rest)
          (append-nil (reverse (reverse os)) ∙ reverse-reverse os)

  pub entry-prefixes :
      (o : T) (os rest : List T) (d : A)
      → get_or (prefixes [] (reverse os ++ (o ∷ rest))) (length os) d ≡ f (o ∷ os)
  unfolding prefixes
  entry-prefixes o os rest d =
      let size : length (prefixes [] (reverse os)) ≡ length os =
        length-prefixes [] (reverse os) ∙ length-reverse os in
      ap (λ t. get_or t (length os) d) (prefixes-split os (o ∷ rest))
      ∙ subst
          (λ n.
            get_or (prefixes [] (reverse os) ++ (f (o ∷ os) ∷ prefixes (o ∷ os) rest)) n d
            ≡ f (o ∷ os))
          size
          (get_or-append_length (prefixes [] (reverse os)) (f (o ∷ os)) (prefixes (o ∷ os) rest) d)

  pub previous-prefixes :
      (os rest : List T) (d : A)
      → 0 < length os
      → get_or (prefixes [] (reverse os ++ rest)) (length os - 1) d ≡ f os
  previous-prefixes [] rest d h = absurd (omega arith)
  previous-prefixes (o ∷ os) rest d h =
      let turned : reverse (o ∷ os) ++ rest ≡ reverse os ++ (o ∷ rest) =
        ap (λ t. t ++ rest) (reverse_cons o os) ∙ append_assoc (reverse os) (o ∷ []) rest in
      let index : suc (length os) - 1 ≡ length os = omega arith in
      ap₂ (λ t n. get_or (prefixes [] t) n d) turned index ∙ entry-prefixes o os rest d

  pub prefixes_snoc :
      (o : T) (os : List T)
      → prefixes [] (reverse (o ∷ os)) ≡ prefixes [] (reverse os) ++ (f (o ∷ os) ∷ [])
  unfolding prefixes
  prefixes_snoc o os = ap (prefixes []) (reverse_cons o os) ∙ prefixes-split os (o ∷ [])

-- one cell, from the values around it
pub cell_lem :
    (same : Bool) (y x : ℕ) (above row : List ℕ) (corner left up : ℕ)
    → (0 < x → 0 < y → get_or above (x - 1) 0 ≡ corner)
    → (x ≡ 0 → corner ≡ 0)
    → (y ≡ 0 → corner ≡ 0)
    → (0 < x → get_or row (x - 1) 0 ≡ left)
    → (x ≡ 0 → left ≡ 0)
    → (0 < y → get_or above x 0 ≡ up)
    → (y ≡ 0 → up ≡ 0)
    → cell same y x above row ≡ (if same then corner + 1 else max left up)
unfolding cell
cell_lem same y x above row corner left up c c0 c1 l l0 u u0 =
    ground (arith, c, c0, c1, l, l0, u, u0)
