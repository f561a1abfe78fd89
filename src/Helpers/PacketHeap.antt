-- ===== src/Helpers/PacketHeap.antt =====
-- container/heap of the standard library, as helpertools/PacketOrdererHeap.go uses it: a binary
-- heap in a slice. An index out of range, at which Go panics, changes nothing here; no operation
-- meets one.
pub mod Weights
pub mod Conserve
pub mod Fuel
use go_webtools.Base.{
  ℕ, zero, suc, ◌+◌, ◌-◌, ◌*◌, ◌/◌, ◌≡◌, Bool, true, false, not, ◌&&◌, ◌||◌, List, [], ◌∷◌, ◌++◌,
  Option, none, some, ltb, leb, ◌==◌, if◌then◌else◌, length, get_elem?, set, take,
}

module _ {ℓ} {A : Type ℓ} where
  -- Swap
  unfoldable pub swap : ℕ → ℕ → List A → List A
  swap i j h = elim (get_elem? h i) [
    | none ↦ h
    | some x ↦ elim (get_elem? h j) [ none ↦ h | some y ↦ set (set h i y) j x ]
  ]

  module _ (less : A → A → Bool) where
    -- Less
    unfoldable pub less_at : List A → ℕ → ℕ → Bool
    less_at h i j = elim (get_elem? h i) [
      | none ↦ false
      | some x ↦ elim (get_elem? h j) [ none ↦ false | some y ↦ less x y ]
    ]

    -- the loop of `up`: the index at least halves, so as many rounds as the index are enough
    unfoldable pub up : ℕ → ℕ → List A → List A
    unfolding swap less_at
    up zero j h = h
    up (suc fuel) j h =
        let i = (j - 1) / 2 in
        let rest = up fuel i (swap i j h) in if i == j || not (less_at h j i) then h else rest

    -- the smaller child of an index, if there are two below `n`
    abbrev pub child : ℕ → ℕ → List A → ℕ
    child i n h =
        if ltb (2 * i + 2) n && less_at h (2 * i + 2) (2 * i + 1) then 2 * i + 2 else 2 * i + 1

    -- the loop of `down`: the index grows up to `n`
    unfoldable pub down : ℕ → ℕ → ℕ → List A → List A
    unfolding swap less_at
    down zero i n h = h
    down (suc fuel) i n h =
        let rest = down fuel (child i n h) n (swap i (child i n h) h) in
        if leb n (2 * i + 1) || not (less_at h (child i n h) i) then h else rest

    unfoldable pub push : A → List A → List A
    unfolding up
    push x h = up (suc (length h)) (length h) (h ++ (x ∷ []))

    -- Pop: the element and what is left; `none` stands for the panic on an empty heap
    unfoldable pub pop : List A → Option (A × List A)
    unfolding down
    pop h =
        let n = length h - 1 in
        let settled = down (suc n) 0 n (swap 0 n h) in
        elim (get_elem? settled n) [ none ↦ none | some x ↦ some (x, take n settled) ]
