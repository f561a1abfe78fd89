-- ===== src/Helpers/Tests.antt =====
-- The maps, bit arrays and windows at concrete inputs.
use go_webtools.Base.{
  ◌++◌, ℕ, ◌+◌, ◌*◌, ◌≤◌, ◌<◌, ◌≡◌, refl, true, false, [], ◌∷◌, some, nat_eq, ltb, ◌==◌, ◌&&◌,
  if◌then◌else◌, length, arith, Bytes, get_or, replicate, ◌⊎◌, ◌≢◌,
}
use go_webtools.Base.Decimal.{pos, negsuc}
use go_webtools.Helpers.RttCalculator.{RttCalculator, new_rtt_calculator, get_rtt, get_rto}
use go_webtools.Helpers.RttCalculator.Limits.{measured, rtt-measured, get_rtt-measured}
use go_webtools.Helpers.Width.{uint8, uint16, uint64, modulus, get_bit_size}
use go_webtools.Helpers.SafeMap.{Map, lookup, has, set, delete, set_all, IsMap}
use go_webtools.Helpers.SafeMap.Laws.{set-IsMap, delete-IsMap, set_all-append}
use go_webtools.Helpers.BitArray.{bit_shift_array_left}
use go_webtools.Helpers.BitArray.Positions.{bit_at}
use go_webtools.Helpers.BitArray.ShiftLeft.{bit_at-bit_shift_array_left}
use go_webtools.Helpers.BitArray.{byte_index}
use go_webtools.Helpers.BitArray.ShiftRight.{bit_shift_array_right, bit_shift_right_signed}
use go_webtools.Helpers.BitArray.ShiftRight.Whole.{bit_at-bit_shift_array_right}
use go_webtools.Helpers.UsedBytes.{calculate_count_of_used_bytes}
use go_webtools.Helpers.ReplayWindow.{
  ReplayWindow, make_replay_window, apply_window_check, check_value,
}
use go_webtools.Helpers.ReplayWindow.Setup.{size, IsValid, IsOpen}
use go_webtools.Helpers.ReplayWindow.Seen.{age, place, check_value_lem}
use go_webtools.Helpers.ReplayWindow.Start.{empty_window, first_number, make_replay_window_lem}
use go_webtools.Helpers.ReplayWindow.Apply.{ahead, accepts, says_after}
use go_webtools.Helpers.ReplayWindow.Accept.{apply_window_check_lem}
use go_webtools.Helpers.ReplayWindow.{get_window_data_bytes}
use go_webtools.Helpers.ReplayWindow.Restore.{set_window_data_bytes, restored_accepts}
use go_webtools.Helpers.ReplayWindow.Iterate.{
  get_replay_window_bits, spanned, that_are, get_replay_window_bits_lem,
}
use go_webtools.Helpers.Jsonc.{slash, space, newline, jsonc_to_json}
use go_webtools.Helpers.Jsonc.Comments.{jsonc_to_json-positions}
use go_webtools.Helpers.Jsonc.LineComment.{jsonc_to_json-line_comment}
use go_webtools.Helpers.ReplayWindow.Replay.{after, run, advance, never_twice}

abbrev scores : Map ℕ ℕ
scores = (1, 10) ∷ (2, 20) ∷ []

scores-IsMap : IsMap scores
unfolding has lookup
scores-IsMap = (refl, (refl, tt))

set-IsMap_example : IsMap (set 3 30 scores)
set-IsMap_example = set-IsMap 3 30 scores scores-IsMap

delete-IsMap_example : IsMap (delete 1 scores)
delete-IsMap_example = delete-IsMap 1 scores scores-IsMap

set_all-append_example : set_all ((1, 10) ∷ []) ((2, 20) ∷ []) ≡ scores
set_all-append_example = set_all-append ((1, 10) ∷ []) ((2, 20) ∷ []) scores-IsMap

bit_at-bit_shift_array_left_example :
    bit_at uint8 (bit_shift_array_left uint8 (3 ∷ 5 ∷ 200 ∷ []) 11) 2
    ≡ bit_at uint8 (3 ∷ 5 ∷ 200 ∷ []) (2 + 11)
bit_at-bit_shift_array_left_example =
    bit_at-bit_shift_array_left uint8 (3 ∷ 5 ∷ 200 ∷ []) 11 2
      (omega arith, (omega arith, (omega arith, tt)))

bit_at-bit_shift_array_right_example :
    ((p : ℕ)
      → byte_index uint8 (p + 11) < 3
      → bit_at uint8 (bit_shift_array_right uint8 (3 ∷ 5 ∷ 200 ∷ []) 11) (p + 11)
        ≡ bit_at uint8 (3 ∷ 5 ∷ 200 ∷ []) p)
    × ((q : ℕ) → q < 11 → bit_at uint8 (bit_shift_array_right uint8 (3 ∷ 5 ∷ 200 ∷ []) 11) q ≡ 0)
bit_at-bit_shift_array_right_example =
    bit_at-bit_shift_array_right uint8 (3 ∷ 5 ∷ 200 ∷ []) 11
      (omega arith, (omega arith, (omega arith, tt)))

shifted_right : bit_shift_right_signed uint8 (3 ∷ 5 ∷ 200 ∷ []) (pos 11) ≡ 0 ∷ 0 ∷ 96 ∷ []
unfolding bit_shift_right_signed
shifted_right = refl

shifted_left : bit_shift_right_signed uint8 (3 ∷ 5 ∷ 200 ∷ []) (negsuc 0) ≡ 6 ∷ 11 ∷ 144 ∷ []
unfolding bit_shift_right_signed
shifted_left = refl

used_bytes :
    (calculate_count_of_used_bytes (pos 255) ≡ 1)
    × (calculate_count_of_used_bytes (pos 256) ≡ 2)
    × (calculate_count_of_used_bytes (negsuc 255) ≡ 2)
unfolding calculate_count_of_used_bytes
used_bytes = (refl, refl, refl)

make_replay_window_lem_example :
    (make_replay_window uint16 uint64 2 ≡ some (empty_window uint16 2))
    × (2 * (2 * get_bit_size uint64) ≤ modulus uint16
        → IsValid uint16 uint64 (empty_window uint16 2))
make_replay_window_lem_example = make_replay_window_lem uint16 uint64 2 (omega arith)

abbrev empty : ReplayWindow
empty = empty_window uint16 2

empty-IsValid : IsValid uint16 uint64 empty
empty-IsValid = (make_replay_window_lem uint16 uint64 2 (omega arith)).1 (omega arith)

-- the window after the first number
abbrev opened : ReplayWindow
opened = (apply_window_check uint16 uint64 empty 65530).0

opened-IsOpen : IsOpen uint16 uint64 opened
opened-IsOpen = (first_number uint16 uint64 empty 65530 empty-IsValid refl (omega arith)).0

check_value_lem_example : check_value uint16 uint64 opened 65529 ≡ (
    ltb (age uint16 uint64 opened 65529) (size uint16 uint64 opened)
    && (bit_at uint64 opened.window (place uint16 uint64 opened 65529) == 1))
check_value_lem_example = check_value_lem uint16 uint64 opened 65529 opened-IsOpen.valid

-- a number past the wrap
apply_window_check_lem_example :
    IsOpen uint16 uint64 (apply_window_check uint16 uint64 opened 4).0
    × (length (apply_window_check uint16 uint64 opened 4).0.window ≡ length opened.window)
    × ((apply_window_check uint16 uint64 opened 4).1 ≡ accepts uint16 uint64 opened 4)
    × ((apply_window_check uint16 uint64 opened 4).0.right_edge
        ≡ (if ahead uint16 uint64 opened 4 then 4 else opened.right_edge))
    × ((v : ℕ)
        → v < modulus uint16
        → check_value uint16 uint64 (apply_window_check uint16 uint64 opened 4).0 v ≡ (
            if accepts uint16 uint64 opened 4
            then says_after uint16 uint64 opened 4
                (apply_window_check uint16 uint64 opened 4).0.right_edge
                v
            else check_value uint16 uint64 opened v))
apply_window_check_lem_example =
    apply_window_check_lem uint16 uint64 opened 4 opened-IsOpen (omega arith)

budget :
    2
      * (age uint16 uint64 (after uint16 uint64 opened 4) 4
          + advance uint16 uint64 (after uint16 uint64 opened 4) (2 ∷ 9 ∷ []))
    ≤ modulus uint16
unfolding apply_window_check
budget = omega arith

-- 4, then 2 and 9, then 4 again
never_twice_example :
    (apply_window_check uint16 uint64
      (run uint16 uint64 (after uint16 uint64 opened 4) (2 ∷ 9 ∷ []))
      4).1
    ≡ false
never_twice_example =
    never_twice uint16 uint64 opened 4 (2 ∷ 9 ∷ []) opened-IsOpen (omega arith)
      (omega arith, (omega arith, tt)) budget

abbrev rtt_settings : RttCalculator
rtt_settings = record {
  rtt = pos 0;
  rtt_jitter = pos 0;
  is_first = true;
  fallback_rtt = pos 100;
  minimum_rtt = pos 10;
  maximum_rtt = pos 1500;
}

new_rtt : new_rtt_calculator (pos 10) (pos 1500) (pos 100) ≡ some rtt_settings
unfolding new_rtt_calculator
new_rtt = refl

rtt-measured_example : (measured rtt_settings (pos 80 ∷ pos 40 ∷ [])).rtt ≡ pos 40
rtt-measured_example = rtt-measured rtt_settings (pos 80 ∷ []) (pos 40) (omega arith)

get_rtt-measured_example :
    (v : ℕ) × (o : ℕ) × (get_rtt (measured rtt_settings (negsuc 4 ∷ [])) ≡ pos v)
    × (get_rto (measured rtt_settings (negsuc 4 ∷ [])) ≡ pos o)
    × (10 ≤ v)
    × (v ≤ 1500)
    × (v ≤ o)
get_rtt-measured_example =
    get_rtt-measured 10 1500 100 (negsuc 4 ∷ []) rtt_settings (omega arith) (omega arith)
      (omega arith) (omega arith, tt) new_rtt

opened-length : length empty.window ≡ length opened.window
unfolding apply_window_check
opened-length = refl

-- 65530 has been seen; the window is written, and read into a new one
restored_accepts_example :
    (set_window_data_bytes uint16 uint64 empty (get_window_data_bytes uint16 uint64 opened 0 true) 0
      ≡ some (record empty { right_edge = opened.right_edge; window = opened.window }))
    × ((apply_window_check uint16 uint64
          (record empty { right_edge = opened.right_edge; window = opened.window })
          65530).1
        ≡ true)
restored_accepts_example =
    restored_accepts uint16 uint64 opened empty 65530 opened-IsOpen.valid.words
      opened-IsOpen.valid.edge opened-length refl

get_replay_window_bits_lem_example :
    get_replay_window_bits uint16 uint64 opened.window opened.right_edge true
    ≡ that_are uint16 uint64 opened true (spanned uint16 uint64 opened)
get_replay_window_bits_lem_example =
    get_replay_window_bits_lem uint16 uint64 opened opened-IsOpen.valid true

-- `{}//!` and a line break, then `1`
abbrev commented : Bytes
commented = 123 ∷ 125 ∷ 47 ∷ 47 ∷ 33 ∷ 10 ∷ 49 ∷ []

jsonc_to_json-positions_example :
    (length (jsonc_to_json commented) ≡ length commented)
    × ((i : ℕ)
        → ((get_or (jsonc_to_json commented) i 0 ≡ get_or commented i 0)
            ⊎ (get_or (jsonc_to_json commented) i 0 ≡ space))
          × ((get_or (jsonc_to_json commented) i 0 == newline) ≡ (get_or commented i 0 == newline)))
jsonc_to_json-positions_example = jsonc_to_json-positions commented

jsonc_to_json_run : jsonc_to_json commented ≡ 123 ∷ 125 ∷ 47 ∷ 32 ∷ 32 ∷ 10 ∷ 49 ∷ []
unfolding jsonc_to_json
jsonc_to_json_run = refl

no_break : (x y : ℕ) → x < y → y ≢ x
no_break x y h e = omega (arith, e)

-- `{}`, a comment of two bytes, and `1` on the next line
jsonc_to_json-line_comment_example :
    jsonc_to_json ((123 ∷ 125 ∷ []) ++ (slash ∷ slash ∷ ((50 ∷ 51 ∷ []) ++ (newline ∷ 49 ∷ []))))
    ≡ (123 ∷ 125 ∷ [])
      ++ (slash ∷ space ∷ (replicate 2 space ++ (newline ∷ jsonc_to_json (49 ∷ []))))
jsonc_to_json-line_comment_example =
    jsonc_to_json-line_comment (123 ∷ 125 ∷ []) (50 ∷ 51 ∷ []) (49 ∷ [])
      (no_break 47 123 (omega arith), (no_break 47 125 (omega arith), tt))
      (no_break 34 123 (omega arith), (no_break 34 125 (omega arith), tt))
      (no_break 10 50 (omega arith), (no_break 10 51 (omega arith), tt))
