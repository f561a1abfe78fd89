-- ===== src/Helpers/SafeMap.antt =====
-- helpertools/SafeMap.go: a map behind a lock. Every method holds the lock from start to end, so
-- calls do not interleave and each is one step on the map. The map is the list of its entries in
-- the order in which `range` visits it; a new key is put last.
pub mod Laws
use go_webtools.Base.{
  ℕ, zero, suc, ◌≡◌, Bool, true, false, List, [], ◌∷◌, Option, none, some, if◌then◌else◌, Eq,
  length, map,
}

abbrev pub Map {ℓ κ} : Type ℓ → Type κ → Type (ℓ ⊔ κ)
Map K V = List (K × V)

module _ {ℓ κ} {K : Type ℓ} ⦃e : Eq K⦄ {V : Type κ} where
  -- GetHas, with `none` for a missing key
  unfoldable pub lookup : K → Map K V → Option V
  lookup k [] = none
  lookup k ((j, v) ∷ m) = if e.beq j k then some v else lookup k m

  -- Get gives the zero value of the type for a missing key
  unfoldable pub get : V → K → Map K V → V
  unfolding lookup
  get zero_value k m = elim (lookup k m) [ none ↦ zero_value | some v ↦ v ]

  unfoldable pub has : K → Map K V → Bool
  unfolding lookup
  has k m = elim (lookup k m) [ none ↦ false | some v ↦ true ]

  unfoldable pub set : K → V → Map K V → Map K V
  set k v [] = (k, v) ∷ []
  set k v ((j, w) ∷ m) = if e.beq j k then (j, v) ∷ m else (j, w) ∷ set k v m

  unfoldable pub delete : K → Map K V → Map K V
  delete k [] = []
  delete k ((j, w) ∷ m) = let rest = delete k m in if e.beq j k then rest else (j, w) ∷ rest

  -- writes of entries, one after another
  unfoldable pub set_all : Map K V → Map K V → Map K V
  unfolding set
  set_all m [] = m
  set_all m ((k, v) ∷ es) = set_all (set k v m) es

  -- no key stands twice
  abbrev pub IsMap : Map K V → Type 0
  IsMap [] = Unit {0}
  IsMap ((k, v) ∷ m) = (has k m ≡ false) × IsMap m

module _ {ℓ κ} {K : Type ℓ} {V : Type κ} where
  unfoldable pub get_keys : Map K V → List K
  get_keys m = map (λ (k, v). k) m

  unfoldable pub get_values : Map K V → List V
  get_values m = map (λ (k, v). v) m

  unfoldable pub len : Map K V → ℕ
  len m = length m

  unfoldable pub get_data : Map K V → Map K V
  get_data m = m

  unfoldable pub clear_map : Map K V → Map K V
  clear_map m = []

  -- Range: the callback changes a state of the caller, and may end the loop
  unfoldable pub range {σ} : {S : Type σ} → (K → V → S → S × Bool) → S → Map K V → S
  range f s [] = s
  range f s ((k, v) ∷ m) =
      let rest = range f ((f k v s).0) m in if (f k v s).1 then (f k v s).0 else rest

  -- RangeWithEmpty removes each entry before it calls for it
  unfoldable pub range_with_empty {σ} :
      {S : Type σ} → (K → V → S → S × Bool) → S → Map K V → S × Map K V
  range_with_empty f s [] = (s, [])
  range_with_empty f s ((k, v) ∷ m) =
      let rest = range_with_empty f ((f k v s).0) m in
      if (f k v s).1 then ((f k v s).0, m) else rest
