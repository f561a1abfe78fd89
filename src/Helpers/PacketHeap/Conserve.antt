-- ===== src/Helpers/PacketHeap/Conserve.antt =====
-- The elements of a heap before and after its operations, by what any weight adds up to.
use go_webtools.Base.{
  ℕ, zero, suc, ◌+◌, ◌-◌, ◌*◌, ◌/◌, ◌<◌, ◌≡◌, ◌≢◌, ◌∙◌, refl, sym, ap, Bool, false, not, ◌||◌, List,
  [], ◌∷◌, ◌++◌, Option, none, some, leb, ◌==◌, length, get_elem?, set, take, arith, Bool-cases,
  inl, inr, length-set, length-append, length-take, leb-false,
}
use native.Mathlib.Decide.{ℕ_discrete}
use go_webtools.Helpers.PacketHeap.{swap, less_at, up, child, down, push, pop}
use go_webtools.Helpers.PacketHeap.Weights.{
  total, total-append, total-set, total-take, get_elem?-set_ne, get_elem?-set, get_elem?-in,
}

module _ {ℓ} {A : Type ℓ} where
  swap_of {κ} :
      (P : List A → Type κ) (i j : ℕ) (h : List A)
      → P h
      → ((x y : A) → get_elem? h i ≡ some x → get_elem? h j ≡ some y → P (set (set h i y) j x))
      → (o p : Option A) → get_elem? h i ≡ o
      → get_elem? h j ≡ p
      → P (swap i j h)
  unfolding swap
  swap_of P i j h same moved none p e g = rw (e, swap) same
  swap_of P i j h same moved (some x) none e g = rw (e, g, swap) same
  swap_of P i j h same moved (some x) (some y) e g = rw (e, g, swap) (moved x y e g)

  -- a swap changes nothing, or exchanges two elements
  swap_cases {κ} :
      (P : List A → Type κ) (i j : ℕ) (h : List A)
      → P h
      → ((x y : A) → get_elem? h i ≡ some x → get_elem? h j ≡ some y → P (set (set h i y) j x))
      → P (swap i j h)
  swap_cases P i j h same moved =
      swap_of P i j h same moved (get_elem? h i) (get_elem? h j) refl refl

  -- the second place after the first write
  second :
      (i j : ℕ) (h : List A) (x y : A)
      → get_elem? h i ≡ some x
      → get_elem? h j ≡ some y
      → get_elem? (set h i y) j ≡ some y
  second i j h x y e g = elim (ℕ_discrete i j) [
    | yes same ↦ ap (get_elem? (set h i y)) (sym same) ∙ get_elem?-set h i y x e
    | no differ ↦ get_elem?-set_ne h i j y differ ∙ g
  ]

  length-swap : (i j : ℕ) (h : List A) → length (swap i j h) ≡ length h
  length-swap i j h =
      swap_cases (λ k. length k ≡ length h) i j h refl
        (λ x y e g. length-set (set h i y) j x ∙ length-set h i y)

  total-swap : (f : A → ℕ) (i j : ℕ) (h : List A) → total f (swap i j h) ≡ total f h
  total-swap f i j h =
      swap_cases (λ k. total f k ≡ total f h) i j h refl
        (λ x y e g.
          omega
            (arith, total-set f h i x y e, total-set f (set h i y) j y x (second i j h x y e g)))

  -- a swap leaves the other places alone, and moves the element of the first to the second
  get_elem?-swap_ne :
      (i j k : ℕ) (h : List A) → i ≢ k → j ≢ k → get_elem? (swap i j h) k ≡ get_elem? h k
  get_elem?-swap_ne i j k h p q =
      swap_cases (λ l. get_elem? l k ≡ get_elem? h k) i j h refl
        (λ x y e g. get_elem?-set_ne (set h i y) j k x q ∙ get_elem?-set_ne h i k y p)

  get_elem?-swap :
      (i j : ℕ) (h : List A) (x y : A)
      → get_elem? h i ≡ some x
      → get_elem? h j ≡ some y
      → get_elem? (swap i j h) j ≡ some x
  unfolding swap
  get_elem?-swap i j h x y e g =
      rw (e, g, swap) (get_elem?-set (set h i y) j x y (second i j h x y e g))

  module _ (less : A → A → Bool) where
    -- whatever a swap keeps, the loops keep
    up_keeps {κ} :
        (P : List A → Type κ)
        → ((i j : ℕ) (h : List A) → P h → P (swap i j h))
        → (fuel j : ℕ) (h : List A) → P h
        → P (up less fuel j h)
    unfolding up
    up_keeps P k zero j h p = p
    up_keeps P k (suc fuel) j h p =
        elim (Bool-cases ((j - 1) / 2 == j || not (less_at less h j ((j - 1) / 2)))) [
          | inl stops ↦ rw stops p
          | inr goes ↦
              rw goes (up_keeps P k fuel ((j - 1) / 2) (swap ((j - 1) / 2) j h) (k _ j h p))
        ]

    child-lt : (i n : ℕ) (h : List A) → leb n (2 * i + 1) ≡ false → child less i n h < n
    child-lt i n h e = ground (arith, leb-false n (2 * i + 1))

    -- the same below an index
    down_keeps {κ} :
        (P : List A → Type κ) (n : ℕ)
        → ((i j : ℕ) (h : List A) → i < n → j < n → P h → P (swap i j h))
        → (fuel i : ℕ) (h : List A) → i < n
        → P h
        → P (down less fuel i n h)
    unfolding down
    down_keeps P n k zero i h l p = p
    down_keeps P n k (suc fuel) i h l p =
        elim (Bool-cases (leb n (2 * i + 1) || not (less_at less h (child less i n h) i))) [
          | inl stops ↦ rw stops p
          | inr goes ↦
              let inside = child-lt i n h (ground arith) in
              rw goes (
                down_keeps P n k fuel (child less i n h) (swap i (child less i n h) h) inside
                  (k i (child less i n h) h l inside p))
        ]

    down_none : (fuel i : ℕ) (h : List A) → down less fuel i 0 h ≡ h
    unfolding down
    down_none zero i h = refl
    down_none (suc fuel) i h = ground arith

    -- A push adds its element, in whatever place.
    pub total-push : (f : A → ℕ) (x : A) (h : List A) → total f (push less x h) ≡ total f h + f x
    unfolding push total
    total-push f x h =
        up_keeps (λ k. total f k ≡ total f h + f x) (λ i j k p. total-swap f i j k ∙ p)
          (suc (length h)) (length h) (h ++ (x ∷ [])) (omega (arith, total-append f h (x ∷ [])))

    pub length-push : (x : A) (h : List A) → length (push less x h) ≡ suc (length h)
    unfolding push
    length-push x h =
        up_keeps (λ k. length k ≡ suc (length h)) (λ i j k p. length-swap i j k ∙ p)
          (suc (length h)) (length h) (h ++ (x ∷ [])) (omega (arith, length-append h (x ∷ [])))

    -- what `down` keeps below `n`
    abbrev Keeps : ℕ → List A → List A → Type ℓ
    Keeps n h k =
        (length k ≡ length h)
        × ((f : A → ℕ) → total f k ≡ total f h)
        × (get_elem? k n ≡ get_elem? h n)

    down-Keeps : (fuel n : ℕ) (h : List A) → Keeps n h (down less fuel 0 n h)
    down-Keeps fuel n h = elim (ℕ_discrete n 0) [
      | yes z ↦ rw (z, down_none fuel 0 h) (refl, λ f. refl, refl)
      | no z ↦
          down_keeps (Keeps n h) n
            (λ i j k p q keeps. (
              length-swap i j k ∙ keeps.0,
              λ f. total-swap f i j k ∙ keeps.1 f,
              get_elem?-swap_ne i j n k (λ e. omega arith) (λ e. omega arith) ∙ keeps.2,
            ))
            fuel 0 h (omega (arith, z)) (refl, λ f. refl, refl)
    ]

    -- the heap of a Pop before its last element is taken off
    abbrev settled : List A → List A
    settled h = down less (suc (length h - 1)) 0 (length h - 1) (swap 0 (length h - 1) h)

    settled-Keeps : (h : List A) → Keeps (length h - 1) (swap 0 (length h - 1) h) (settled h)
    settled-Keeps h = down-Keeps (suc (length h - 1)) (length h - 1) (swap 0 (length h - 1) h)

    pop_is :
        (h : List A) (x : A)
        → get_elem? (settled h) (length h - 1) ≡ some x
        → pop less h ≡ some (x, take (length h - 1) (settled h))
    unfolding pop
    pop_is h x e =
        ap (λ o. elim o [ none ↦ none | some y ↦ some (y, take (length h - 1) (settled h)) ]) e

    -- Pop on a heap that is not empty: the first element, and the others.
    pub record Popped (h : List A) : Type ℓ where
      pub item : A
      pub rest : List A
      pub popped : pop less h ≡ some (item, rest)
      pub first : get_elem? h 0 ≡ some item
      pub fewer : suc (length rest) ≡ length h
      pub kept : (f : A → ℕ) → total f rest + f item ≡ total f h

    pub pop_lem : (h : List A) → 0 < length h → Popped h
    pop_lem h p =
        let (x, e) = get_elem?-in h 0 p in
        let (y, g) = get_elem?-in h (length h - 1) (omega arith) in
        let keeps = settled-Keeps h in
        let last : get_elem? (settled h) (length h - 1) ≡ some x =
          keeps.2 ∙ get_elem?-swap 0 (length h - 1) h x y e g in
        let size : length (settled h) ≡ length h = keeps.0 ∙ length-swap 0 (length h - 1) h in
        record {
          item = x;
          rest = take (length h - 1) (settled h);
          popped = pop_is h x last;
          first = e;
          fewer = omega (arith, length-take (length h - 1) (settled h) (omega (arith, size)));
          kept = λ f.
              total-take f (length h - 1) (settled h) x last (omega (arith, size))
              ∙ keeps.1 f
              ∙ total-swap f 0 (length h - 1) h;
        }
