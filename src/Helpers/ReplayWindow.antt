-- ===== src/Helpers/ReplayWindow.antt =====
-- helpertools/ReplayWindow.go: which of the latest sequence numbers have arrived. The word count
-- is a uint8, so the length of the window never wraps in a conversion to uint8. Every method that
-- takes the lock holds it to its end, so calls are single steps.
pub mod Setup
pub mod Seen
pub mod Last
pub mod Moves
pub mod Forward
pub mod Apply
pub mod Accept
pub mod Start
pub mod Replay
pub mod Restore
pub mod Iterate
use Prim.Native.Nat.{bit_or}
use go_webtools.Base.{
  ℕ, zero, suc, ◌+◌, ◌-◌, ◌*◌, ◌/◌, ◌%◌, ◌^◌, ◌≡◌, Bool, true, false, not, ◌&&◌, List, [], ◌∷◌,
  ◌++◌, Option, none, some, Bytes, min, ltb, leb, ◌==◌, if◌then◌else◌, length, get_or, set, take,
  drop, replicate, reverse,
}
use go_webtools.Base.Words.{le_bytes, of_le}
use go_webtools.Helpers.Width.{Width, get_byte_size, get_bit_size, get_bit_shift_size, modulus}
use go_webtools.Helpers.BitArray.{set_bit_array, check_bit_array, bit_shift_array_left, or_arrays}

pub record ReplayWindow : Type 0 where
  pub window : List ℕ
  pub max_forward_jump : ℕ
  pub right_edge : ℕ
  pub is_first_value : Bool

-- `a - b` in an unsigned type
abbrev pub sub : Width → ℕ → ℕ → ℕ
sub c a b = (a + modulus c - b) % modulus c

-- zeros, and the lowest bit of the last word set
abbrev pub only_last : ℕ → List ℕ
only_last n = set (replicate n 0) (n - 1) 1

-- `window[len(window)-1] |= 1`
abbrev pub set_last : List ℕ → List ℕ
set_last b = set b (length b - 1) (bit_or (get_or b (length b - 1) 0) 1)

-- `c` is the type of the numbers, `t` that of the words.
module _ (c t : Width) where
  -- MakeReplayWindow; `none` is its panic. The product of the size check is of uint8.
  unfoldable pub make_replay_window : ℕ → Option ReplayWindow
  make_replay_window count =
      let size = get_bit_size t * count % 256 in
      if leb (get_byte_size t) 2 && ltb ((modulus c - 1) % 2 ^ 16) size
      then none
      else (if count == 0
          then none
          else some (record {
            window = replicate count 0;
            max_forward_jump = (modulus c - 1) / 2;
            right_edge = 0;
            is_first_value = true;
          }))

  unfoldable pub get_window_bit_size : ReplayWindow → ℕ
  get_window_bit_size w = length w.window * 2 ^ get_bit_shift_size t % modulus c

  -- the first number of all
  abbrev pub start_at : ReplayWindow → ℕ → ReplayWindow
  start_at w number = record w {
    window = only_last (length w.window);
    right_edge = number;
    is_first_value = false;
  }

  -- a number to the right of the edge
  unfoldable pub jump_forward : ReplayWindow → ℕ → ℕ → ReplayWindow
  unfolding get_window_bit_size bit_shift_array_left
  jump_forward w number forward =
      if leb (get_window_bit_size w) forward
      then record w { right_edge = number; window = only_last (length w.window) }
      else record w {
        right_edge = number;
        window = set_last (bit_shift_array_left t w.window forward);
      }

  -- a number to the left of the edge
  unfoldable pub fill_gap : ReplayWindow → ℕ → ReplayWindow × Bool
  unfolding get_window_bit_size check_bit_array set_bit_array
  fill_gap w number =
      let older = sub c w.right_edge number in
      let position = sub c (sub c (get_window_bit_size w) 1) older in
      if leb (get_window_bit_size w) older
      then (w, false)
      else (if check_bit_array t w.window position
          then (w, false)
          else (record w { window = set_bit_array t w.window position }, true))

  unfoldable pub apply_window_check : ReplayWindow → ℕ → ReplayWindow × Bool
  unfolding jump_forward fill_gap
  apply_window_check w number =
      let forward = sub c number w.right_edge in
      if w.is_first_value
      then (start_at w number, true)
      else (if ltb 0 forward && ltb forward w.max_forward_jump
          then (jump_forward w number forward, true)
          else (if forward == 0 then (w, false) else fill_gap w number))

  unfoldable pub check_value : ReplayWindow → ℕ → Bool
  unfolding get_window_bit_size check_bit_array
  check_value w value =
      let location = sub c (sub c (get_window_bit_size w) 1) (sub c w.right_edge value) in
      if leb (get_window_bit_size w) location then false else check_bit_array t w.window location

  -- SetWindowData; `none` is its error
  unfoldable pub set_window_data : ReplayWindow → List ℕ → ℕ → Option ReplayWindow
  set_window_data w words edge =
      if length w.window == length words
      then some (record w { window = words; right_edge = edge; is_first_value = false })
      else none

  -- the words from the last one on, as bytes
  unfoldable pub words_bytes : List ℕ → Bytes
  unfolding le_bytes
  words_bytes [] = []
  words_bytes (x ∷ b) = le_bytes (get_byte_size t) x ++ words_bytes b

  unfoldable pub get_window_data_bytes : ReplayWindow → ℕ → Bool → Bytes
  unfolding words_bytes
  get_window_data_bytes w limit write_size =
      let size = length w.window in
      let count = (if limit == 0 then size else (if ltb size limit then size else limit)) in
      le_bytes (get_byte_size c) w.right_edge
      ++ ((if write_size then count ∷ [] else []) ++ words_bytes (take count (reverse w.window)))

  -- `window[len-1-i] |= words[len-1-i]` on the shorter length
  abbrev pub or_from_end : List ℕ → List ℕ → List ℕ
  or_from_end b words = reverse (or_arrays (reverse b) (reverse words))

  -- `window[len-1-i] = words[len-1-i]` on the shorter length, over zeros
  abbrev pub copy_from_end : ℕ → List ℕ → List ℕ
  copy_from_end n words = or_from_end (replicate n 0) words

  unfoldable pub join_window_data : ReplayWindow → List ℕ → ℕ → ReplayWindow
  unfolding get_window_bit_size bit_shift_array_left or_arrays
  join_window_data w₀ words edge =
      let w = record w₀ { is_first_value = false } in
      let forward = sub c edge w.right_edge in
      let older = sub c w.right_edge edge in
      let size = get_window_bit_size w in
      if ltb forward w.max_forward_jump
      then (if leb size forward
          then record w { right_edge = edge; window = copy_from_end (length w.window) words }
          else record w {
            right_edge = edge;
            window = or_from_end (bit_shift_array_left t w.window forward) words;
          })
      else (if leb size older
          then w
          else record w { window = or_from_end w.window (bit_shift_array_left t words older) })

  -- ParseGenericLitteEndian; `none` is the panic on too few bytes
  abbrev pub parse_generic : Width → Bytes → Option (ℕ × Bytes)
  parse_generic k b =
      if leb (get_byte_size k) (length b)
      then some (of_le (take (get_byte_size k) b), drop (get_byte_size k) b)
      else none

  -- `count` words, the last one first
  unfoldable pub parse_words : ℕ → Bytes → Option (List ℕ)
  unfolding of_le
  parse_words zero b = some []
  parse_words (suc count) b = elim (parse_generic t b) [
    | none ↦ none
    | some (x, b') ↦ elim (parse_words count b') [ none ↦ none | some words ↦ some (x ∷ words) ]
  ]

  -- the word count in front of the words, where the caller gives 0 for it
  abbrev pub read_count : ℕ → Bytes → Option (ℕ × Bytes)
  read_count zero [] = none
  read_count zero (n ∷ b) = some (n, b)
  read_count (suc n) b = some (suc n, b)

  -- JoinWindowDataBytes: the window, and the number of bytes that it says it read. The variable
  -- that the last test reads holds the parsed count by then.
  unfoldable pub join_window_data_bytes : ReplayWindow → Bytes → ℕ → Option (ReplayWindow × ℕ)
  unfolding parse_words join_window_data
  join_window_data_bytes w b word_count = elim (parse_generic c b) [
    | none ↦ none
    | some (edge, b₁) ↦ elim (read_count word_count b₁) [
      | none ↦ none
      | some (count, b₂) ↦
          let n = min count (length w.window) in
          elim (parse_words n b₂) [
            | none ↦ none
            | some words ↦ some (
              join_window_data w (reverse words) edge,
              get_byte_size c + (if count == 0 then 1 else 0) + n * get_byte_size t,
            )
          ]
    ]
  ]
