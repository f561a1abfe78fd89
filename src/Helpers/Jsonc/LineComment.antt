-- ===== src/Helpers/Jsonc/LineComment.antt =====
-- A line comment, its end, and the text around it.
use go_webtools.Base.{
  ℕ, ◌≡◌, ◌≢◌, refl, ap, ◌∙◌, true, false, [], ◌∷◌, ◌++◌, Bytes, if_holds, length, replicate, arith,
  ne→==,
}
use go_webtools.Helpers.Jsonc.{
  Place, newline, slash, space, quote, toggle_string, open_star, close_star, open_inline,
  close_inline, next_place, written, strip, jsonc_to_json,
}
use go_webtools.Helpers.Jsonc.Comments.{NoByte}

-- outside of everything, and in a line comment that began there
abbrev start : Place
start = record { is_in_star_comment = false; is_in_inline_comment = false; is_in_string = false }

abbrev commented : Place
commented = record { is_in_star_comment = false; is_in_inline_comment = true; is_in_string = false }

module _ (prev c : ℕ) where
  toggle_string-start : c ≢ quote → toggle_string prev c start ≡ start
  unfolding toggle_string
  toggle_string-start h = ground arith

  open_star-start : prev ≢ slash → open_star prev c start ≡ start
  unfolding open_star
  open_star-start h = ground arith

  close_star-start : close_star prev c start ≡ start
  unfolding close_star
  close_star-start = if_holds (λ p. p ≡ start) _ start start (λ _. refl) (λ _. refl)

  open_inline-start : prev ≢ slash → open_inline prev c start ≡ start
  unfolding open_inline
  open_inline-start h = ground arith

  next_place-start : prev ≢ slash → c ≢ quote → next_place prev c start ≡ start
  unfolding next_place
  next_place-start h k =
      rw
        (
          next_place,
          toggle_string-start k,
          open_star-start h,
          close_star-start,
          open_inline-start h,
        )
        (unfold close_inline in refl)

  toggle_string-commented : toggle_string prev c commented ≡ commented
  unfolding toggle_string
  toggle_string-commented = ground arith

  open_star-commented : open_star prev c commented ≡ commented
  unfolding open_star
  open_star-commented = ground arith

  close_star-commented : close_star prev c commented ≡ commented
  unfolding close_star
  close_star-commented = ground arith

  open_inline-commented : open_inline prev c commented ≡ commented
  unfolding open_inline
  open_inline-commented =
      if_holds (λ p. p ≡ commented) _ commented commented (λ _. refl) (λ _. refl)

  next_place-commented : next_place prev c commented ≡ close_inline c commented
  unfolding next_place
  next_place-commented =
      rw
        (
          next_place, toggle_string-commented, open_star-commented, close_star-commented,
          open_inline-commented,
        )
        refl

close_inline-commented : (c : ℕ) → c ≢ newline → close_inline c commented ≡ commented
unfolding close_inline
close_inline-commented c h = rw (close_inline, ne→== c newline h) refl

written-start : (c : ℕ) → written c start ≡ c
unfolding written
written-start c = ground arith

written-commented : (c : ℕ) → c ≢ newline → written c commented ≡ space
unfolding written
written-commented c h = rw (written, ne→== c newline h) refl

-- before a comment, outside of strings
strip-before :
    (prev : ℕ) (before b : Bytes)
    → prev ≢ slash
    → NoByte slash before
    → NoByte quote before
    → (last : ℕ) × (last ≢ slash) × (strip prev start (before ++ b) ≡ before ++ strip last start b)
unfolding strip
strip-before prev [] b h s q = (prev, h, refl)
strip-before prev (c ∷ before) b h s q =
    let (last, k, e) = strip-before c before b s.0 s.1 q.1 in
    (last, k, rw (next_place-start prev c h q.0, written-start c) (ap (λ t. c ∷ t) e))

-- a new line is the same as the start of a text
strip-newline : (b : Bytes) → strip newline start b ≡ strip 0 start b
unfolding strip next_place toggle_string open_star close_star open_inline close_inline written
strip-newline [] = refl
strip-newline (c ∷ b) = refl

strip-comment :
    (prev : ℕ) (comment rest : Bytes)
    → NoByte newline comment
    → strip prev commented (comment ++ (newline ∷ rest))
      ≡ replicate (length comment) space ++ (newline ∷ strip 0 start rest)
unfolding strip
strip-comment prev [] rest h =
    rw (next_place-commented prev newline)
      (unfold close_inline written in ap (λ t. newline ∷ t) (strip-newline rest))
strip-comment prev (c ∷ comment) rest h =
    rw (next_place-commented prev c, close_inline-commented c h.0, written-commented c h.0)
      (ap (λ t. space ∷ t) (strip-comment c comment rest h.1))

-- the two slashes
strip-slashes :
    (prev : ℕ) (b : Bytes)
    → prev ≢ slash
    → strip prev start (slash ∷ slash ∷ b) ≡ slash ∷ space ∷ strip slash commented b
unfolding strip
strip-slashes prev b h =
    rw (next_place-start prev slash h (λ e. omega arith), written-start slash)
      (unfold next_place toggle_string open_star close_star open_inline close_inline written in
        refl)

-- Behind a text without slashes and quotes, a line comment is blanked out from its second slash to the
-- end of its line, and its first slash stays; the lines behind it are converted as a text of their
-- own.
pub jsonc_to_json-line_comment :
    (before comment rest : Bytes)
    → NoByte slash before
    → NoByte quote before
    → NoByte newline comment
    → jsonc_to_json (before ++ (slash ∷ slash ∷ (comment ++ (newline ∷ rest))))
      ≡ before
        ++ (slash ∷ space ∷ (replicate (length comment) space ++ (newline ∷ jsonc_to_json rest)))
unfolding jsonc_to_json
jsonc_to_json-line_comment before comment rest s q h =
    let (last, k, e) =
      strip-before 0 before (slash ∷ slash ∷ (comment ++ (newline ∷ rest))) (λ z. omega arith) s
        q in
    e
    ∙ ap (λ t. before ++ t)
        (strip-slashes last (comment ++ (newline ∷ rest)) k
          ∙ ap (λ t. slash ∷ space ∷ t) (strip-comment slash comment rest h))
