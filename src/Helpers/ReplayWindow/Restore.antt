-- ===== src/Helpers/ReplayWindow/Restore.antt =====
-- helpertools/ReplayWindow.go: a window that is written to bytes and set from them, and the numbers
-- that a window holds.
use go_webtools.Base.{
  ℕ, ◌<◌, ◌≡◌, ◌∙◌, refl, sym, subst, true, List, [], ◌∷◌, ◌++◌, Option, none, some, Bytes, min,
  length, length-reverse, take, drop, reverse, reverse-reverse, append-nil, reverse_cons,
  take-append_length, length-append, drop-append_length, arith, le→leb,
}
use go_webtools.Base.Words.{le_bytes, length-le_bytes, of_le-le_bytes}
use go_webtools.Helpers.Width.{bytes-modulus, Width, get_byte_size, modulus}
use go_webtools.Helpers.BitArray.Shift.{AllWords, AllWords-append}
use go_webtools.Helpers.ReplayWindow.{
  ReplayWindow, parse_generic, parse_words, read_count, words_bytes, get_window_data_bytes,
  apply_window_check,
}

-- the words from the last one on, as far as the list goes
abbrev set_from_end : List ℕ → List ℕ → List ℕ
set_from_end b words = reverse (words ++ drop (length words) (reverse b))

module _ (c t : Width) where
  -- SetWindowDataBytes; `none` is the panic on too few bytes. It leaves `is_first_value` as it is.
  unfoldable pub set_window_data_bytes : ReplayWindow → Bytes → ℕ → Option ReplayWindow
  unfolding parse_words
  set_window_data_bytes w b word_count = elim (parse_generic c t c b) [
    | none ↦ none
    | some (edge, b₁) ↦ elim (read_count c t word_count b₁) [
      | none ↦ none
      | some (count, b₂) ↦ elim (parse_words c t (min count (length w.window)) b₂) [
        | none ↦ none
        | some words ↦ some (record w { right_edge = edge; window = set_from_end w.window words })
      ]
    ]
  ]

take_all : (b : List ℕ) (n : ℕ) → n ≡ length b → (take n b ≡ b) × (drop n b ≡ [])
take_all b n q = rw q (
    subst (λ (c : List ℕ). (take (length b) c ≡ b) × (drop (length b) c ≡ [])) (append-nil b)
      (take-append_length b [], drop-append_length b []))

set_from_end-all :
    (b words : List ℕ) → length b ≡ length words → set_from_end b (reverse words) ≡ words
set_from_end-all b words l =
    rw
      (
        (take_all (reverse b) (length (reverse words))
            (omega (arith, length-reverse b, length-reverse words, l))).1,
        append-nil (reverse words),
        reverse-reverse words,
      )
      refl

AllWords-reverse : (t : Width) (b : List ℕ) → AllWords t b → AllWords t (reverse b)
AllWords-reverse t [] h = h
AllWords-reverse t (x ∷ b) h =
    subst (AllWords t) (sym (reverse_cons x b))
      (AllWords-append t (reverse b) (x ∷ []) (AllWords-reverse t b h.1) (h.0, tt))

module _ (c t : Width) where
  parse_generic-le_bytes :
      (k : Width) (x : ℕ) (r : Bytes)
      → x < modulus k
      → parse_generic c t k (le_bytes (get_byte_size k) x ++ r) ≡ some (x, r)
  parse_generic-le_bytes k x r h =
      let n = length-le_bytes (get_byte_size k) x in
      let front =
        subst (λ i. take i (le_bytes (get_byte_size k) x ++ r) ≡ le_bytes (get_byte_size k) x) n
          (take-append_length (le_bytes (get_byte_size k) x) r) in
      let behind =
        subst (λ i. drop i (le_bytes (get_byte_size k) x ++ r) ≡ r) n
          (drop-append_length (le_bytes (get_byte_size k) x) r) in
      rw
        (
          le→leb (get_byte_size k) (length (le_bytes (get_byte_size k) x ++ r))
              (omega (arith, n, length-append (le_bytes (get_byte_size k) x) r)),
          front,
          behind,
          of_le-le_bytes (get_byte_size k) x (subst (λ m. x < m) (sym (bytes-modulus k)) h),
        )
        refl

  parse_words-words_bytes :
      (ws : List ℕ) → AllWords t ws → parse_words c t (length ws) (words_bytes c t ws) ≡ some ws
  unfolding parse_words words_bytes
  parse_words-words_bytes [] h = refl
  parse_words-words_bytes (x ∷ ws) h =
      rw
        (
          parse_words,
          parse_generic-le_bytes t x (words_bytes c t ws) h.0,
          parse_words-words_bytes ws h.1,
        )
        refl

  -- The whole window of `w`, written with its word count, and read into a window of as many words:
  -- it has the words and the edge of `w`, but still counts as a window before its first number if it
  -- was one.
  pub set_window_data_bytes-get_window_data_bytes :
      (w v : ReplayWindow)
      → AllWords t w.window
      → w.right_edge < modulus c
      → length v.window ≡ length w.window
      → set_window_data_bytes c t v (get_window_data_bytes c t w 0 true) 0
        ≡ some (record v { right_edge = w.right_edge; window = w.window })
  unfolding set_window_data_bytes get_window_data_bytes
  set_window_data_bytes-get_window_data_bytes w v h e l =
      rw
        (
          set_window_data_bytes,
          get_window_data_bytes,
          parse_generic-le_bytes c w.right_edge _ e,
          read_back w.window (min (length w.window) (length v.window)) (omega (arith, l)) h,
          set_from_end-all v.window w.window l,
        )
        refl
    where
      read_back :
          (b : List ℕ) (n : ℕ)
          → n ≡ length b
          → AllWords t b
          → parse_words c t n (words_bytes c t (take (length b) (reverse b))) ≡ some (reverse b)
      read_back b n q k =
          rw
            (
              (take_all (reverse b) (length b) (sym (length-reverse b))).0,
              q ∙ sym (length-reverse b),
              parse_words-words_bytes (reverse b) (AllWords-reverse t b k),
            )
            refl

  -- The whole window of `w`, written with its word count and read back into a new window of as many
  -- words, gives the words and the edge of `w`; but the window still counts as one before its first
  -- number, so it accepts every number, also one that `w` has seen.
  pub restored_accepts :
      (w v : ReplayWindow) (number : ℕ)
      → AllWords t w.window
      → w.right_edge < modulus c
      → length v.window ≡ length w.window
      → v.is_first_value ≡ true
      → (set_window_data_bytes c t v (get_window_data_bytes c t w 0 true) 0
          ≡ some (record v { right_edge = w.right_edge; window = w.window }))
        × ((apply_window_check c t
              (record v { right_edge = w.right_edge; window = w.window })
              number).1
            ≡ true)
  unfolding apply_window_check
  restored_accepts w v number h e l f =
      (set_window_data_bytes-get_window_data_bytes w v h e l, rw f refl)
