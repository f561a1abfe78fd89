-- ===== src/Udp/Stabilizer/Write/Framing.antt =====
-- The bytes of a frame, written and read.
use go_webtools.Base.{
  ℕ, ◌+◌, ◌*◌, ◌/◌, ◌%◌, ◌^◌, min, ◌<◌, ◌≡◌, refl, sym, ap, subst, ◌∙◌, false, List, [], ◌∷◌, ◌++◌,
  reverse, Option, none, some, Bytes, ltb, if◌then◌else◌, length, take, drop, replicate, arith,
  length-append, length-reverse, take-append_length, drop-append_length, append_assoc, append-nil,
  le→leb, le→ltb,
}
use go_webtools.Base.Words.{le_bytes, of_le, length-le_bytes}
use go_webtools.Base.Decimal.{pos}
use go_webtools.Helpers.Width.{Width, get_byte_size}
use go_webtools.Helpers.ReplayWindow.{
  ReplayWindow, words_bytes, get_window_data_bytes, join_window_data, parse_generic, parse_words,
  join_window_data_bytes,
}
use go_webtools.Udp.Stabilizer.{timestamp, read_timestamp, since}
use go_webtools.Udp.Stabilizer.Write.{widen, put_timestamp}

take_of : (n : ℕ) (a b : Bytes) → length a ≡ n → take n (a ++ b) ≡ a
take_of n a b e = subst (λ m. take m (a ++ b) ≡ a) e (take-append_length a b)

pub drop_of : (n : ℕ) (a b : Bytes) → length a ≡ n → drop n (a ++ b) ≡ b
drop_of n a b e = subst (λ m. drop m (a ++ b) ≡ b) e (drop-append_length a b)

pub parse_generic-le_bytes :
    (c t k : Width) (x : ℕ) (rest : Bytes)
    → parse_generic c t k (le_bytes (get_byte_size k) x ++ rest)
      ≡ some (of_le (le_bytes (get_byte_size k) x), rest)
parse_generic-le_bytes c t k x rest =
    let n = get_byte_size k in
    let size = length-le_bytes n x in
    rw
      (
        le→leb n (length (le_bytes n x ++ rest))
            (omega (arith, size, length-append (le_bytes n x) rest)),
        take_of n (le_bytes n x) rest size,
        drop_of n (le_bytes n x) rest size,
      )
      refl

pub get_window_data_bytes-one :
    (c t : Width) (w : ReplayWindow) (x : ℕ) (xs : List ℕ)
    → reverse w.window ≡ x ∷ xs
    → get_window_data_bytes c t w 1 false
      ≡ le_bytes (get_byte_size c) w.right_edge ++ le_bytes (get_byte_size t) x
unfolding get_window_data_bytes words_bytes
get_window_data_bytes-one c t w x xs e =
    let size : 0 < length w.window = omega (arith, length-reverse w.window, ap length e) in
    let one : (if ltb (length w.window) 1 then length w.window else 1) ≡ 1 =
      rw (le→ltb (length w.window) 1 (omega (arith, size))) refl in
    rw (one, e)
      (ap (λ b. le_bytes (get_byte_size c) w.right_edge ++ b)
        (append-nil (le_bytes (get_byte_size t) x)))

parse_words-one :
    (c t : Width) (x : ℕ) (rest : Bytes)
    → parse_words c t 1 (le_bytes (get_byte_size t) x ++ rest)
      ≡ some (of_le (le_bytes (get_byte_size t) x) ∷ [])
unfolding parse_words
parse_words-one c t x rest =
    ap (λ (r : Option (ℕ × Bytes)). elim r [ none ↦ none | some (y, b) ↦ some (y ∷ []) ])
      (parse_generic-le_bytes c t t x rest)

pub join_window_data_bytes-one :
    (c t : Width) (w : ReplayWindow) (edge x : ℕ) (rest : Bytes)
    → 0 < length w.window
    → join_window_data_bytes c t w
        (le_bytes (get_byte_size c) edge ++ (le_bytes (get_byte_size t) x ++ rest))
        1
      ≡ some (
        join_window_data c t w
            (of_le (le_bytes (get_byte_size t) x) ∷ [])
            (of_le (le_bytes (get_byte_size c) edge)),
        get_byte_size c + get_byte_size t,
      )
unfolding join_window_data_bytes parse_words
join_window_data_bytes-one c t w edge x rest h =
    let n = min 1 (length w.window) in
    let one : n ≡ 1 = omega (arith, h) in
    let finish : ℕ → ℕ → Option (List ℕ) → Option (ReplayWindow × ℕ) = λ at n r. elim r [
      | none ↦ none
      | some words ↦
          some
            (join_window_data c t w (reverse words) at, get_byte_size c + 0 + n * get_byte_size t)
    ] in
    ap
      (λ (r : Option (ℕ × Bytes)). elim r [
        | none ↦ none
        | some (at, b) ↦ finish at n (parse_words c t n b)
      ])
      (parse_generic-le_bytes c t c edge (le_bytes (get_byte_size t) x ++ rest))
    ∙ ap
        (λ m.
          finish (of_le (le_bytes (get_byte_size c) edge)) m
            (parse_words c t m (le_bytes (get_byte_size t) x ++ rest)))
        one
    ∙ ap (finish (of_le (le_bytes (get_byte_size c) edge)) 1) (parse_words-one c t x rest)
    ∙ ap
        (λ n. some (
          join_window_data c t w (of_le (le_bytes (get_byte_size t) x) ∷ [])
              (of_le (le_bytes (get_byte_size c) edge)),
          n,
        ))
        (omega arith)

pub not_empty : (xs : List ℕ) → 0 < length xs → (x : ℕ) × (ys : List ℕ) × (xs ≡ x ∷ ys)
not_empty [] h = absurd (omega arith)
not_empty (x ∷ xs) h = (x, xs, refl)

pub widen_lem :
    (p rest : Bytes) → length p ≡ 13 → widen (p ++ rest) ≡ some (p ++ (replicate 8 0 ++ rest))
unfolding widen
widen_lem p rest e =
    rw
      (
        le→ltb (length (p ++ rest)) 13 (omega (arith, e, length-append p rest)),
        take_of 13 p rest e,
        drop_of 13 p rest e,
      )
      refl

pub put_timestamp_lem :
    (now : ℕ) (p rest : Bytes)
    → length p ≡ 13
    → put_timestamp now (p ++ (replicate 8 0 ++ rest)) ≡ some (p ++ (timestamp (pos now) ++ rest))
unfolding put_timestamp
put_timestamp_lem now p rest e =
    let zeros : Bytes = replicate 8 0 in
    let size : length (p ++ (zeros ++ rest)) ≡ 21 + length rest =
      omega (arith, e, length-append p (zeros ++ rest)) in
    let behind : drop 21 (p ++ (zeros ++ rest)) ≡ rest =
      ap (drop 21) (sym (append_assoc p zeros rest))
      ∙ drop_of 21 (p ++ zeros) rest (omega (arith, e, length-append p zeros)) in
    rw
      (
        le→ltb (length (p ++ (zeros ++ rest))) 21 (omega (arith, size)),
        take_of 13 p (zeros ++ rest) e,
        behind,
      )
      refl

pub read_timestamp-timestamp :
    (now sent : ℕ) (rest : Bytes)
    → read_timestamp now (timestamp (pos sent) ++ rest)
      ≡ some (since now (of_le (take 8 (timestamp (pos sent) ++ rest))), rest)
unfolding read_timestamp timestamp
read_timestamp-timestamp now sent rest =
    let stamp = timestamp (pos sent) in
    let size : length stamp ≡ 8 = length-le_bytes 8 (sent / 1000 % 2 ^ 64) in
    rw
      (
        le→ltb (length (stamp ++ rest)) 8 (omega (arith, size, length-append stamp rest)),
        drop_of 8 stamp rest size,
      )
      refl
