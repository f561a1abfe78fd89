-- ===== src/Helpers/Jsonc/Comments.antt =====
-- What is left of a text with comments.
use go_webtools.Base.{
  ℕ, zero, suc, ◌≡◌, ◌≢◌, ◌⊎◌, inl, refl, sym, ap, ap₂, false, [], ◌∷◌, Bytes, ◌==◌, if_holds,
  subst, length, get_or, arith, ne→==,
}
use go_webtools.Helpers.Jsonc.{
  Place, newline, slash, space, toggle_string, open_star, close_star, open_inline, close_inline,
  next_place, written, strip, jsonc_to_json,
}

-- a written byte is the byte itself or a space, and a line break exactly when the byte is one
Faithful : ℕ → ℕ → Type 0
Faithful c w = ((w ≡ c) ⊎ (w ≡ space)) × ((w == newline) ≡ (c == newline))

written-Faithful : (c : ℕ) (p : Place) → Faithful c (written c p)
unfolding written Faithful
written-Faithful c p = (ground arith, ground arith)

strip-Faithful :
    (prev : ℕ) (p : Place) (b : Bytes) (i : ℕ)
    → Faithful (get_or b i 0) (get_or (strip prev p b) i 0)
unfolding strip Faithful
strip-Faithful prev p [] i = (inl refl, refl)
strip-Faithful prev p (c ∷ b) zero = written-Faithful c (next_place prev c p)
strip-Faithful prev p (c ∷ b) (suc i) = strip-Faithful c (next_place prev c p) b i

length-strip : (prev : ℕ) (p : Place) (b : Bytes) → length (strip prev p b) ≡ length b
unfolding strip
length-strip prev p [] = refl
length-strip prev p (c ∷ b) = ap suc (length-strip c (next_place prev c p) b)

-- The text keeps its length and its line breaks, and every byte of it stays what it is or becomes a
-- space, so that a position in the result is the one in the file.
pub jsonc_to_json-positions :
    (b : Bytes)
    → (length (jsonc_to_json b) ≡ length b)
      × ((i : ℕ)
          → ((get_or (jsonc_to_json b) i 0 ≡ get_or b i 0) ⊎ (get_or (jsonc_to_json b) i 0 ≡ space))
            × ((get_or (jsonc_to_json b) i 0 == newline) ≡ (get_or b i 0 == newline)))
unfolding jsonc_to_json Faithful
jsonc_to_json-positions b = (length-strip 0 _ b, λ i. strip-Faithful 0 _ b i)

abbrev pub NoByte : ℕ → Bytes → Type 0
NoByte x [] = Unit {0}
NoByte x (c ∷ b) = (c ≢ x) × NoByte x b

IsOutside : Place → Type 0
IsOutside p = (p.is_in_star_comment ≡ false) × (p.is_in_inline_comment ≡ false)

toggle_string-IsOutside :
    (prev c : ℕ) (p : Place) → IsOutside p → IsOutside (toggle_string prev c p)
unfolding toggle_string IsOutside
toggle_string-IsOutside prev c p o =
    if_holds (λ q. (q.is_in_star_comment ≡ false) × (q.is_in_inline_comment ≡ false)) _ _ p (λ _. o)
      (λ _. o)

open_star-no_slash : (prev c : ℕ) (p : Place) → prev ≢ slash → open_star prev c p ≡ p
unfolding open_star
open_star-no_slash prev c p k = rw (ne→== prev slash k) refl

close_star-IsOutside : (prev c : ℕ) (p : Place) → IsOutside p → IsOutside (close_star prev c p)
unfolding close_star IsOutside
close_star-IsOutside prev c p o =
    if_holds (λ q. (q.is_in_star_comment ≡ false) × (q.is_in_inline_comment ≡ false)) _ _ p
      (λ _. (refl, o.1)) (λ _. o)

open_inline-no_slash : (prev c : ℕ) (p : Place) → prev ≢ slash → open_inline prev c p ≡ p
unfolding open_inline
open_inline-no_slash prev c p k = ground arith

close_inline-IsOutside : (c : ℕ) (p : Place) → IsOutside p → IsOutside (close_inline c p)
unfolding close_inline IsOutside
close_inline-IsOutside c p o =
    if_holds (λ q. (q.is_in_star_comment ≡ false) × (q.is_in_inline_comment ≡ false)) _ _ p
      (λ _. (o.0, refl)) (λ _. o)

next_place-IsOutside :
    (prev c : ℕ) (p : Place) → prev ≢ slash → IsOutside p → IsOutside (next_place prev c p)
unfolding next_place
next_place-IsOutside prev c p k o = close_inline-IsOutside c _ (
    subst IsOutside (sym (open_inline-no_slash prev c _ k)) (
      close_star-IsOutside prev c _ (
        subst IsOutside (sym (open_star-no_slash prev c _ k))
          (toggle_string-IsOutside prev c p o))))

written-IsOutside : (c : ℕ) (p : Place) → IsOutside p → written c p ≡ c
unfolding written IsOutside
written-IsOutside c p o = ground arith

strip-IsOutside :
    (prev : ℕ) (p : Place) (b : Bytes)
    → NoByte slash b
    → prev ≢ slash
    → IsOutside p
    → strip prev p b ≡ b
unfolding strip
strip-IsOutside prev p [] h k o = refl
strip-IsOutside prev p (c ∷ b) h k o =
    let q = next_place-IsOutside prev c p k o in
    ap₂ (λ x y. x ∷ y) (written-IsOutside c (next_place prev c p) q)
      (strip-IsOutside c (next_place prev c p) b h.1 h.0 q)

-- A text without a slash is left as it is.
pub jsonc_to_json-no_slash : (b : Bytes) → NoByte slash b → jsonc_to_json b ≡ b
unfolding jsonc_to_json IsOutside
jsonc_to_json-no_slash b h = strip-IsOutside 0 _ b h (λ e. ground arith) (refl, refl)
