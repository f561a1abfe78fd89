-- ===== src/Filesystem/Diff/Runs.antt =====
-- The entries of a run of elements, as part of a script and as the inner loops emit them.
use go_webtools.Base.{
  ℕ, suc, ◌+◌, ◌-◌, ◌≡◌, refl, sym, ap, subst, ◌∙◌, Bool, true, false, List, [], ◌∷◌, ◌++◌, length,
  arith, if◌then◌else◌, ltb, ltb-false, if_holds, append-nil, length-append, take-append_length,
  drop-append_length,
}
use go_webtools.Filesystem.Diff.{DifferenceEntry, entries, run}
use go_webtools.Filesystem.Diff.Script.{Cut, cut_drop, Fill, fill_new}

module _ {ℓ} {T : Type ℓ} where
  pub Cut-run :
      (i : ℕ) (a : List T) {o k : List T} {ds : List (DifferenceEntry T)}
      → Cut (i + length a) o ds k
      → Cut i (a ++ o) (entries false i a ++ ds) k
  unfolding entries
  Cut-run i [] {o} {k} {ds} h = subst (λ p. Cut p o ds k) (omega arith) h
  Cut-run i (c ∷ a) {o} {k} {ds} h =
      let next : i + suc (length a) ≡ i + 1 + length a = omega arith in
      let one : i + 1 ≡ suc i = omega arith in
      cut_drop c (
        subst (λ p. Cut p (a ++ o) (entries false (i + 1) a ++ ds) k) one
          (Cut-run (i + 1) a (subst (λ p. Cut p o ds k) next h)))

  pub Fill-run :
      (j : ℕ) (b : List T) {k n : List T} {is : List (DifferenceEntry T)}
      → Fill (j + length b) k n is
      → Fill j k (b ++ n) (entries true j b ++ is)
  unfolding entries
  Fill-run j [] {k} {n} {is} h = subst (λ p. Fill p k n is) (omega arith) h
  Fill-run j (c ∷ b) {k} {n} {is} h =
      let next : j + suc (length b) ≡ j + 1 + length b = omega arith in
      let one : j + 1 ≡ suc j = omega arith in
      fill_new c (
        subst (λ p. Fill p k (b ++ n) (entries true (j + 1) b ++ is)) one
          (Fill-run (j + 1) b (subst (λ p. Fill p k n is) next h)))

  pub run-between :
      (kind : Bool) (offset : ℕ) (p a s : List T) (from to : ℕ)
      → from ≡ length p
      → to ≡ length p + length a
      → run kind offset (p ++ (a ++ s)) from to ≡ entries kind (length p + offset) a
  unfolding run
  run-between kind offset p a s from to e f =
      let count : length p + length a - length p ≡ length a = omega arith in
      rw (e, f, drop-append_length p (a ++ s), count, take-append_length a s) refl

  pub run-behind :
      (kind : Bool) (offset : ℕ) (p a : List T) (from to : ℕ)
      → from ≡ length p
      → to ≡ length (p ++ a)
      → run kind offset (p ++ a) from to ≡ entries kind (length p + offset) a
  run-behind kind offset p a from to e f =
      subst (λ t. run kind offset (p ++ t) from to ≡ entries kind (length p + offset) a)
        (append-nil a) (run-between kind offset p a [] from to e (f ∙ length-append p a))

  pub no_elements : (a : List T) → length a ≡ 0 → a ≡ []
  no_elements [] e = refl
  no_elements (c ∷ a) e = absurd (omega arith)

  -- the loops only run when there is an element in front of the link
  pub run_if-between :
      (kind : Bool) (offset : ℕ) (p a s : List T) (from to : ℕ)
      → from ≡ length p
      → to ≡ length p + length a
      → (if ltb from to then run kind offset (p ++ (a ++ s)) from to else [])
        ≡ entries kind (length p + offset) a
  unfolding entries
  run_if-between kind offset p a s from to e f =
      if_holds (λ t. t ≡ entries kind (length p + offset) a) (ltb from to) _ _
        (λ h. run-between kind offset p a s from to e f)
        (λ h.
          ap (entries kind (length p + offset))
            (sym (no_elements a (omega (arith, ltb-false from to h)))))
