-- ===== src/Helpers/SafeSlice.antt =====
-- helpertools/SafeSlice.go and the slice functions of helpertools/RandomTools.go: a slice behind a
-- lock. Every method holds the lock to its end. `none` is the panic on an index out of range.
pub mod Edits
use go_webtools.Base.{
  ℕ, zero, suc, ◌+◌, ◌-◌, ◌≡◌, Bool, true, false, not, ◌||◌, List, [], ◌∷◌, ◌++◌, Option, none,
  some, Eq, ltb, leb, ◌==◌, if◌then◌else◌, length, get_elem?, set, take, drop,
}
use go_webtools.Base.Decimal.{ℤ, pos, negsuc}

module _ {ℓ} {V : Type ℓ} where
  -- InsertElementAtIndex: the slice grows by a zero value, the elements from the index on move one
  -- place to the right, and the element is written
  unfoldable pub insert_element_at_index : V → List V → ℤ → V → List V
  insert_element_at_index zero_value s (negsuc n) element = s
  insert_element_at_index zero_value s (pos i) element =
      let grown = s ++ (zero_value ∷ []) in
      let moved = take (i + 1) grown ++ take (length s - i) (drop i grown) in
      if ltb (length s) i
      then s ++ (element ∷ [])
      else (if length s == i
          then s ++ (element ∷ [])
          else (if i == 0 then (element ∷ []) ++ s else set moved i element))

  unfoldable pub remove_element_at_index : List V → ℤ → List V
  remove_element_at_index s (negsuc n) = s
  remove_element_at_index s (pos i) =
      if leb (length s) i
      then s
      else (if length s - 1 == i
          then take i s
          else (if i == 0 then drop 1 s else take i s ++ drop (i + 1) s))

  unfoldable pub pop_first : List V → Option (V × List V)
  pop_first [] = none
  pop_first (v ∷ s) = some (v, s)

  unfoldable pub pop_last : List V → Option (V × List V)
  pop_last s = elim (get_elem? s (length s - 1)) [
    | none ↦ none
    | some v ↦ some (v, take (length s - 1) s)
  ]

  unfoldable pub append : V → List V → List V
  append value s = s ++ (value ∷ [])

  unfoldable pub insert_at : V → ℤ → V → List V → List V
  unfolding insert_element_at_index
  insert_at zero_value index value s = insert_element_at_index zero_value s index value

  unfoldable pub prepend : V → V → List V → List V
  unfolding insert_at
  prepend zero_value value s = insert_at zero_value (pos 0) value s

  unfoldable pub remove_at : ℤ → List V → List V
  unfolding remove_element_at_index
  remove_at index s = remove_element_at_index s index

  -- slices.DeleteFunc
  unfoldable pub remove_where : (V → Bool) → List V → List V
  remove_where f [] = []
  remove_where f (v ∷ s) = let rest = remove_where f s in if f v then rest else v ∷ rest

  -- SetAt tests the upper bound alone
  unfoldable pub set_at : ℤ → V → List V → Option (List V)
  set_at (negsuc n) value s = none
  set_at (pos i) value s = some (if ltb i (length s) then set s i value else s)

  -- the copy of the values, and what is left of the slice
  unfoldable pub get_values_and_clear : List V → List V × List V
  get_values_and_clear s = (s, [])

  -- Clear takes the lock, and does nothing
  unfoldable pub clear : List V → List V
  clear s = s

  module _ ⦃e : Eq V⦄ where
    unfoldable pub contains : V → List V → Bool
    contains v [] = false
    contains v (x ∷ s) = e.beq x v || contains v s

    -- RemoveElement
    unfoldable pub remove_element : V → List V → List V
    remove_element item [] = []
    remove_element item (x ∷ s) =
        let rest = remove_element item s in if not (e.beq x item) then x ∷ rest else rest
