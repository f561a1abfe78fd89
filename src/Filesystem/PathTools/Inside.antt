-- ===== src/Filesystem/PathTools/Inside.antt =====
-- Where a path of JoinPathSecure can be.
use go_webtools.Base.{
  ℕ, ◌≡◌, ◌∙◌, refl, sym, ap₂, subst, true, false, ◌⊎◌, inl, inr, [], ◌∷◌, ◌++◌, append_assoc,
  Bytes, bytes_eq, bytes_beq_iff, arith, Bool-cases,
}
use go_webtools.Filesystem.PathTools.{
  PathCalls, Joined, invalid, joined, has_prefix, joined_path_real, check_escape, join_path_secure,
}

has_prefix-append : (p rest : Bytes) → has_prefix (p ++ rest) p ≡ true
has_prefix-append [] rest = refl
has_prefix-append (x ∷ p) rest = ground (arith, has_prefix-append p rest)

has_prefix-rest : (s p : Bytes) → has_prefix s p ≡ true → (rest : Bytes) × (s ≡ p ++ rest)
has_prefix-rest s [] h = (s, refl)
has_prefix-rest [] (y ∷ p) h = cc
has_prefix-rest (x ∷ s) (y ∷ p) h =
    let both : (x ≡ y) × (has_prefix s p ≡ true) = ground arith in
    let r = has_prefix-rest s p both.1 in (r.0, ap₂ (λ a b. a ∷ b) both.0 r.1)

-- the path itself, or one that goes on behind it with a separator
pub data IsInside (separator : ℕ) (base : Bytes) : Bytes → Type 0 where
  itself : IsInside separator base base
  below : (rest : Bytes) → IsInside separator base (base ++ (separator ∷ rest))

-- the path is returned where it is so, and refused where it is not
abbrev pub Judged : {E : Type 0} → (separator : ℕ) → (base real : Bytes) → Joined E → Type 0
Judged {E} separator base real j =
    ((j ≡ joined real) × IsInside separator base real)
    ⊎ ((j ≡ invalid) × (¬ IsInside separator base real))

module _ {E : Type 0} (os : PathCalls E) where
  has_prefix-below :
      (base real : Bytes)
      → has_prefix real (base ++ (os.path_separator ∷ [])) ≡ true
      → IsInside os.path_separator base real
  has_prefix-below base real h =
      let r = has_prefix-rest real (base ++ (os.path_separator ∷ [])) h in
      subst (IsInside os.path_separator base)
        (sym (r.1 ∙ append_assoc base (os.path_separator ∷ []) r.0)) (below r.0)

  passes :
      (base real : Bytes)
      → IsInside os.path_separator base real
      → (has_prefix real (base ++ (os.path_separator ∷ [])) ≡ true)
        ⊎ (bytes_eq.beq real base ≡ true)
  passes base _ itself = inr ((bytes_beq_iff base base).1 refl)
  passes base _ (below rest) = inl (
      subst (λ q. has_prefix q (base ++ (os.path_separator ∷ [])) ≡ true)
        (append_assoc base (os.path_separator ∷ []) rest)
        (has_prefix-append (base ++ (os.path_separator ∷ [])) rest))

  outside :
      (base real : Bytes)
      → has_prefix real (base ++ (os.path_separator ∷ [])) ≡ false
      → bytes_eq.beq real base ≡ false
      → ¬ IsInside os.path_separator base real
  outside base real h k i = elim (passes base real i) [ inl e ↦ cc | inr e ↦ cc ]

  check_escape_lem :
      (base real : Bytes) → Judged os.path_separator base real (check_escape os base real)
  unfolding check_escape
  check_escape_lem base real =
      elim (Bool-cases (has_prefix real (base ++ (os.path_separator ∷ [])))) [
        | inl h ↦ inl (rw (check_escape, h) refl, has_prefix-below base real h)
        | inr h ↦ elim (Bool-cases (bytes_eq.beq real base)) [
          | inl k ↦ inl (
            rw (check_escape, h, k) refl,
            subst (IsInside os.path_separator base) (sym ((bytes_beq_iff real base).0 k)) itself,
          )
          | inr k ↦ inr (rw (check_escape, h, k) refl, outside base real h k)
        ]
      ]

  -- Where the calls before the last test succeed, JoinPathSecure returns the real path exactly when
  -- that is the real base, or starts with the real base and one more separator, and os.ErrInvalid
  -- otherwise. For a base that ends in the separator, as the root does, the second is not the same
  -- as being below it: `/etc` is refused below `/`.
  pub join_path_secure_lem :
      (base_path added_path base base_real real : Bytes)
      → os.abs base_path ≡ inr base
      → os.eval_symlinks base ≡ inr base_real
      → joined_path_real os (os.clean (os.join base added_path)) ≡ inr real
      → Judged os.path_separator base_real real (join_path_secure os base_path added_path)
  unfolding join_path_secure check_escape
  join_path_secure_lem base_path added_path base base_real real a r q =
      subst (Judged os.path_separator base_real real) (sym (rw (join_path_secure, a, r, q) refl))
        (check_escape_lem base_real real)
