-- ===== src/Filesystem/Diff/Trim.antt =====
-- What DiffTrim cuts off: a common prefix and a common suffix.
use go_webtools.Base.{
  ℕ, ◌-◌, ◌≤◌, ◌≡◌, refl, sym, ap, ap₂, ◌∙◌, List, [], ◌∷◌, ◌++◌, reverse, reverse-append,
  reverse-reverse, Eq, length, take, drop, arith, append_assoc, length-append, length-reverse,
  length-take, take-append_length, drop-append_length, take-append-drop, if_holds,
}
use go_webtools.Filesystem.Diff.{common_prefix, diff_trim}

module _ {ℓ} {T : Type ℓ} ⦃e : Eq T⦄ where
  -- the first elements, as many as the loop counts, are the same
  record Shared (a b : List T) (n : ℕ) : Type ℓ where
    in_first : n ≤ length a
    in_second : n ≤ length b
    same : take n a ≡ take n b

  common_prefix-Shared : (a b : List T) → Shared a b (common_prefix a b)
  unfolding common_prefix
  common_prefix-Shared [] b = record {
    in_first = omega arith;
    in_second = omega arith;
    same = refl;
  }
  common_prefix-Shared (x ∷ a) [] = record {
    in_first = omega arith;
    in_second = omega arith;
    same = refl;
  }
  common_prefix-Shared (x ∷ a) (y ∷ b) =
      let rest = common_prefix-Shared a b in
      if_holds (Shared (x ∷ a) (y ∷ b)) (e.beq x y) _ _
        (λ h. record {
          in_first = omega (arith, rest.in_first);
          in_second = omega (arith, rest.in_second);
          same = ap₂ (λ c t. c ∷ t) ((e.beq_iff x y).0 h) rest.same;
        })
        (λ h. record { in_first = omega arith; in_second = omega arith; same = refl })

  -- the two sequences around what DiffTrim leaves of them
  pub record Trimmed (old new : List T) (t : List T × List T × ℕ) : Type ℓ where
    pub before : List T
    pub behind : List T
    pub offset : length before ≡ t.2
    pub of_old : old ≡ before ++ (t.0 ++ behind)
    pub of_new : new ≡ before ++ (t.1 ++ behind)

  -- a list without its last `s` elements and without its first ones
  middle :
      (p u s : List T)
      → drop (length p) (take (length (p ++ (u ++ s)) - length s) (p ++ (u ++ s))) ≡ u
  middle p u s =
      let count : length (p ++ (u ++ s)) - length s ≡ length (p ++ u) =
        omega (arith, length-append p (u ++ s), length-append u s, length-append p u) in
      rw (count, ← append_assoc p u s, take-append_length (p ++ u) s) (drop-append_length p u)

  around :
      (a : List T) (p s : ℕ)
      → p ≤ length a
      → s ≤ length (reverse (drop p a))
      → a ≡ take p a ++ (drop p (take (length a - s) a) ++ reverse (take s (reverse (drop p a))))
  around a p s h k =
      let r = reverse (drop p a) in
      let u = reverse (drop s r) in
      let t = reverse (take s r) in
      let rest : u ++ t ≡ drop p a =
        sym (reverse-append (take s r) (drop s r))
        ∙ ap reverse (take-append-drop s r)
        ∙ reverse-reverse (drop p a) in
      let whole : take p a ++ (u ++ t) ≡ a = ap (λ w. take p a ++ w) rest ∙ take-append-drop p a in
      let last : length t ≡ s = length-reverse (take s r) ∙ length-take s r k in
      let kept : drop p (take (length a - s) a) ≡ u =
        ap₂ (λ m w. drop m (take (length w - s) w)) (sym (length-take p a h)) (sym whole)
        ∙ ap
            (λ m.
              drop (length (take p a))
                (take (length (take p a ++ (u ++ t)) - m) (take p a ++ (u ++ t))))
            (sym last)
        ∙ middle (take p a) u t in
      sym whole ∙ ap (λ w. take p a ++ (w ++ t)) (sym kept)

  pub diff_trim-Trimmed : (old new : List T) → Trimmed old new (diff_trim old new)
  unfolding diff_trim
  diff_trim-Trimmed old new =
      let p = common_prefix old new in
      let first = common_prefix-Shared old new in
      let s = common_prefix (reverse (drop p old)) (reverse (drop p new)) in
      let last = common_prefix-Shared (reverse (drop p old)) (reverse (drop p new)) in
      record {
        before = take p old;
        behind = reverse (take s (reverse (drop p old)));
        offset = length-take p old first.in_first;
        of_old = around old p s first.in_first last.in_first;
        of_new =
            around new p s first.in_second last.in_second
            ∙ ap₂ (λ a b. a ++ (drop p (take (length new - s) new) ++ reverse b)) (sym first.same)
                (sym last.same);
      }
