-- ===== src/Helpers/Jsonc.antt =====
-- helpertools/ConfigManager.go, JSONCToJSON: comments are blanked out before a configuration file is
-- parsed.
pub mod Comments
pub mod LineComment
use go_webtools.Base.{
  ℕ, zero, suc, ◌+◌, Bool, true, false, not, ◌&&◌, ◌||◌, List, [], ◌∷◌, Bytes, ◌==◌, if◌then◌else◌,
}

-- where the loop is
pub record Place : Type 0 where
  pub is_in_star_comment : Bool
  pub is_in_inline_comment : Bool
  pub is_in_string : Bool

abbrev pub newline : ℕ
newline = 10

abbrev pub slash : ℕ
slash = 47

abbrev pub star : ℕ
star = 42

abbrev pub space : ℕ
space = 32

abbrev pub quote : ℕ
quote = 34

abbrev pub backslash : ℕ
backslash = 92

-- the five tests on a byte and the one before it, in their order
unfoldable pub toggle_string : (prev c : ℕ) → Place → Place
toggle_string prev c p =
    if not (prev == backslash)
      && (c == quote && (not p.is_in_inline_comment && not p.is_in_star_comment))
    then record p { is_in_string = not p.is_in_string }
    else p

unfoldable pub open_star : (prev c : ℕ) → Place → Place
open_star prev c p =
    if prev == slash && (c == star && (not p.is_in_string && not p.is_in_inline_comment))
    then record p { is_in_star_comment = true }
    else p

unfoldable pub close_star : (prev c : ℕ) → Place → Place
close_star prev c p =
    if prev == star && (c == slash && (not p.is_in_string && not p.is_in_inline_comment))
    then record p { is_in_star_comment = false }
    else p

unfoldable pub open_inline : (prev c : ℕ) → Place → Place
open_inline prev c p =
    if not p.is_in_star_comment && (not p.is_in_string && (prev == slash && c == slash))
    then record p { is_in_inline_comment = true }
    else p

unfoldable pub close_inline : (c : ℕ) → Place → Place
close_inline c p =
    if p.is_in_inline_comment && c == newline then record p { is_in_inline_comment = false } else p

unfoldable pub next_place : (prev c : ℕ) → Place → Place
unfolding toggle_string open_star close_star open_inline close_inline
next_place prev c p =
    close_inline c
      (open_inline prev c (close_star prev c (open_star prev c (toggle_string prev c p))))

unfoldable pub written : ℕ → Place → ℕ
written c p =
    if c == newline
    then newline
    else (if p.is_in_inline_comment || p.is_in_star_comment then space else c)

unfoldable pub strip : (prev : ℕ) → Place → Bytes → Bytes
unfolding next_place written
strip prev p [] = []
strip prev p (c ∷ jsonc) = let q = next_place prev c p in written c q ∷ strip c q jsonc

-- before the first byte stands a zero byte
unfoldable pub jsonc_to_json : Bytes → Bytes
unfolding strip
jsonc_to_json jsonc =
    strip 0
      (record { is_in_star_comment = false; is_in_inline_comment = false; is_in_string = false })
      jsonc
