-- ===== src/Helpers/PacketHeap/Weights.antt =====
-- What a weight adds up to over a list, and the elements of a list after a write.
use go_webtools.Base.{
  ℕ, zero, suc, ◌+◌, ◌<◌, ◌≡◌, ◌≢◌, refl, ap, List, [], ◌∷◌, ◌++◌, some, length, get_elem?, set,
  take, arith,
}

module _ {ℓ} {A : Type ℓ} where
  -- the sum of a weight over a list
  unfoldable pub total : (A → ℕ) → List A → ℕ
  total f [] = 0
  total f (x ∷ xs) = f x + total f xs

  pub total-append : (f : A → ℕ) (xs ys : List A) → total f (xs ++ ys) ≡ total f xs + total f ys
  unfolding total
  total-append f [] ys = omega arith
  total-append f (x ∷ xs) ys = omega (arith, total-append f xs ys)

  pub total-set :
      (f : A → ℕ) (xs : List A) (i : ℕ) (x v : A)
      → get_elem? xs i ≡ some x
      → total f (set xs i v) + f x ≡ total f xs + f v
  unfolding total
  total-set f [] i x v e = cc
  total-set f (y ∷ xs) zero x v e = let same : y ≡ x = cc in omega (arith, ap f same)
  total-set f (y ∷ xs) (suc i) x v e = omega (arith, total-set f xs i x v e)

  pub get_elem?-set_ne :
      (xs : List A) (i j : ℕ) (v : A) → i ≢ j → get_elem? (set xs i v) j ≡ get_elem? xs j
  get_elem?-set_ne [] i j v h = refl
  get_elem?-set_ne (x ∷ xs) zero zero v h = absurd (h refl)
  get_elem?-set_ne (x ∷ xs) zero (suc j) v h = refl
  get_elem?-set_ne (x ∷ xs) (suc i) zero v h = refl
  get_elem?-set_ne (x ∷ xs) (suc i) (suc j) v h = get_elem?-set_ne xs i j v (λ e. h (ap suc e))

  pub get_elem?-set :
      (xs : List A) (i : ℕ) (v x : A) → get_elem? xs i ≡ some x → get_elem? (set xs i v) i ≡ some v
  get_elem?-set [] i v x e = cc
  get_elem?-set (y ∷ xs) zero v x e = refl
  get_elem?-set (y ∷ xs) (suc i) v x e = get_elem?-set xs i v x e

  pub get_elem?-in : (xs : List A) (i : ℕ) → i < length xs → (x : A) × (get_elem? xs i ≡ some x)
  get_elem?-in [] i h = absurd (omega arith)
  get_elem?-in (x ∷ xs) zero h = (x, refl)
  get_elem?-in (x ∷ xs) (suc i) h = get_elem?-in xs i (omega arith)

  pub total-take :
      (f : A → ℕ) (n : ℕ) (xs : List A) (x : A)
      → get_elem? xs n ≡ some x
      → length xs ≡ suc n
      → total f (take n xs) + f x ≡ total f xs
  unfolding total
  total-take f n [] x e l = cc
  total-take f zero (y ∷ []) x e l = let same : y ≡ x = cc in omega (arith, ap f same)
  total-take f zero (y ∷ z ∷ xs) x e l = absurd (omega arith)
  total-take f (suc n) (y ∷ xs) x e l = omega (arith, total-take f n xs x e (omega arith))
