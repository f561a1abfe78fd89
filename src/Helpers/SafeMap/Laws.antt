-- ===== src/Helpers/SafeMap/Laws.antt =====
-- The laws of the map: what each write changes for each key, and the keys of a map.
use go_webtools.Base.{
  ◌≡◌, ◌∙◌, refl, true, false, not, ◌&&◌, ◌||◌, [], ◌∷◌, ◌++◌, none, some, if◌then◌else◌, Eq,
  Bool-cases, inl, inr, append_assoc, append-nil, sym, arith,
}
use go_webtools.Helpers.SafeMap.{Map, lookup, has, set, delete, set_all, IsMap}

module _ {ℓ κ} {K : Type ℓ} ⦃e : Eq K⦄ {V : Type κ} where
  -- A write is seen under its own key alone.
  pub lookup-set :
      (k j : K) (v : V) (m : Map K V)
      → lookup j (set k v m) ≡ (if e.beq k j then some v else lookup j m)
  unfolding lookup set
  lookup-set k j v [] = refl
  lookup-set k j v ((i, w) ∷ m) =
      ground (arith, e.beq_iff k j, e.beq_iff i k, e.beq_iff i j, lookup-set k j v m)

  -- A removed key is missing, and every other key keeps its value.
  pub lookup-delete :
      (k j : K) (m : Map K V) → lookup j (delete k m) ≡ (if e.beq k j then none else lookup j m)
  unfolding lookup delete
  lookup-delete k j [] = ground arith
  lookup-delete k j ((i, w) ∷ m) =
      ground (arith, e.beq_iff k j, e.beq_iff i k, e.beq_iff i j, lookup-delete k j m)

  pub has-set : (k j : K) (v : V) (m : Map K V) → has j (set k v m) ≡ (e.beq k j || has j m)
  unfolding has
  has-set k j v m = ground (arith, lookup-set k j v m)

  pub has-delete : (k j : K) (m : Map K V) → has j (delete k m) ≡ (not (e.beq k j) && has j m)
  unfolding has
  has-delete k j m = ground (arith, lookup-delete k j m)

  -- A write keeps the keys distinct.
  pub set-IsMap : (k : K) (v : V) (m : Map K V) → IsMap m → IsMap (set k v m)
  unfolding set has
  set-IsMap k v [] h = (refl, tt)
  set-IsMap k v ((i, w) ∷ m) h =
      ground (arith, e.beq_iff i k, e.beq_iff k i, has-set k i v m, set-IsMap k v m)

  -- A removal keeps the keys distinct.
  pub delete-IsMap : (k : K) (m : Map K V) → IsMap m → IsMap (delete k m)
  unfolding delete
  delete-IsMap k [] h = h
  delete-IsMap k ((i, w) ∷ m) h =
      ground (arith, e.beq_iff i k, e.beq_iff k i, has-delete k i m, delete-IsMap k m)

  -- A new key is put last.
  set-append : (k : K) (v : V) (m : Map K V) → has k m ≡ false → set k v m ≡ m ++ ((k, v) ∷ [])
  unfolding set has
  set-append k v [] h = refl
  set-append k v ((i, w) ∷ m) h = ground (arith, set-append k v m)

  has-append_self : (k : K) (v : V) (m es : Map K V) → has k (m ++ ((k, v) ∷ es)) ≡ true
  unfolding has
  has-append_self k v [] es = ground (arith, e.beq_iff k k)
  has-append_self k v ((i, w) ∷ m) es = ground (arith, has-append_self k v m es)

  fresh_of_IsMap : (k : K) (v : V) (m es : Map K V) → IsMap (m ++ ((k, v) ∷ es)) → has k m ≡ false
  unfolding has lookup
  fresh_of_IsMap k v [] es h = refl
  fresh_of_IsMap k v ((i, w) ∷ m) es h = elim (Bool-cases (e.beq i k)) [
    | inl same ↦
        let named : i ≡ k = (e.beq_iff i k).0 same in cc (h.0, has-append_self k v m es, named)
    | inr other ↦ rw (other, has, lookup) (fresh_of_IsMap k v m es h.1)
  ]

  -- Writing the entries of a map one by one into another map appends them.
  pub set_all-append : (m es : Map K V) → IsMap (m ++ es) → set_all m es ≡ m ++ es
  unfolding set_all
  set_all-append m [] h = sym (append-nil m)
  set_all-append m ((k, v) ∷ es) h =
      let regroup = append_assoc m ((k, v) ∷ []) es in
      rw (set-append k v m (fresh_of_IsMap k v m es h))
        (set_all-append (m ++ ((k, v) ∷ [])) es (rw regroup h) ∙ regroup)
