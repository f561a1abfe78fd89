-- ===== src/Database/Tests.antt =====
-- The databases and their codecs at concrete inputs.
use go_webtools.Base.{
  zero, suc, ℕ, ◌*◌, ◌%◌, ◌^◌, ◌-◌, ◌<◌, ◌≡◌, refl, true, false, List, [], ◌∷◌, ◌++◌, Option, none,
  some, Bytes, bytes_eq, ltb, ◌&&◌, if◌then◌else◌, length, take, drop, replicate, nat_eq, arith,
}
use go_webtools.Helpers.SafeMap.{Map, IsMap, has, lookup}
use go_webtools.Base.Words.{le_bytes, be_bytes}
use go_webtools.Database.Passwords.{
  AllBytes, password_of, convert_password_object, parse_password_object,
  parse-convert_password_object,
}
use go_webtools.Base.Words.{of_le}
use go_webtools.Database.Stream.{err, panic, Error, invalid, too_long, ok}
use go_webtools.Database.Codec.{
  convert_bool, convert_uint16, parse_uint16, convert_dynamic_uint, parse_dynamic_uint,
  convert_string, parse_string,
}
use go_webtools.Database.Codec.Numbers.{parse-convert_uint16, parse-convert_dynamic_uint}
use go_webtools.Database.Codec.Texts.{
  parse-convert_string, parse-convert_string_short, parse_string_shrinks, convert_string-ok,
}
use go_webtools.Database.Collections.{convert_slice, parse_array, convert_map, parse_map}
use go_webtools.Database.Collections.Laws.{
  RoundTrips, All, parse_array-convert_slice, parse_map-convert_map,
}
use go_webtools.Database.LimitedText.{
  LimitedString, make_limited_string, convert_limited_string, parse_limited_string, set_value_lem,
  parse-convert_limited_string,
}
use go_webtools.Database.LimitedText
use go_webtools.Database.RamStore.{SaveFaults, load}
use go_webtools.Database.RamStore
use go_webtools.Database.RamStore.Laws.{Stores, load-save, load_total}
use go_webtools.Database.Journal.{
  Faults, no_faults, JournalEntry, State, save, set_value, delete_value, replay_loop, load_database,
}
use go_webtools.Database.Journal.Replay.{apply_all, log_bytes, replay_loop-log_bytes}
use go_webtools.Database.Journal.Recovery.{
  IsDurable, fresh, save-IsDurable, set_value-IsDurable, delete_value-IsDurable,
}
use go_webtools.Database.Journal.Crash.{
  no_files, put, remove, Reach, here, next, fresh-IsDurable, Recovers, recovers,
}

-- a value that fits comes back
trip : (v : ℕ) → v < 2 ^ 16 → RoundTrips convert_uint16 parse_uint16 v
unfolding convert_uint16
trip v h = record { written = refl; read_back = λ rest. parse-convert_uint16 v rest h }

abbrev start : State ℕ
start = (fresh convert_uint16 parse_uint16 2, no_files)

abbrev one_entry : State ℕ
one_entry = set_value convert_uint16 no_faults (b'k' ∷ []) 700 start

-- the second operation reaches the threshold of the autosave, and its rename fails
abbrev failing : Faults
failing = record no_faults { rename = some invalid }

abbrev removed_entry : State ℕ
removed_entry = delete_value convert_uint16 0 failing (b'j' ∷ []) one_entry

reached : Reach convert_uint16 parse_uint16 0 start removed_entry
reached =
    next
      (next here (put no_faults (b'k' ∷ []) 700 (refl, refl) (omega arith, trip 700 (omega arith))))
      (remove failing (b'j' ∷ []) (refl, refl) (omega arith, trip 0 (omega arith)))

recovers_example : Recovers convert_uint16 parse_uint16 removed_entry.0.data_map (
    load_database convert_uint16 parse_uint16 no_faults
      (fresh convert_uint16 parse_uint16 5, removed_entry.1))
recovers_example = recovers convert_uint16 parse_uint16 0 2 5 removed_entry reached

start-IsDurable : IsDurable convert_uint16 parse_uint16 start
start-IsDurable = fresh-IsDurable convert_uint16 parse_uint16 2

save-IsDurable_example : IsDurable convert_uint16 parse_uint16 (save convert_uint16 failing start).0
save-IsDurable_example = save-IsDurable convert_uint16 parse_uint16 failing start start-IsDurable

set_value-IsDurable_example : IsDurable convert_uint16 parse_uint16 one_entry
set_value-IsDurable_example =
    set_value-IsDurable convert_uint16 parse_uint16 no_faults (b'k' ∷ []) 700 start (refl, refl)
      (omega arith, trip 700 (omega arith)) start-IsDurable

delete_value-IsDurable_example :
    IsDurable convert_uint16 parse_uint16 (delete_value convert_uint16 0 failing (b'j' ∷ []) start)
delete_value-IsDurable_example =
    delete_value-IsDurable convert_uint16 parse_uint16 failing 0 (b'j' ∷ []) start (refl, refl)
      (omega arith, trip 0 (omega arith)) start-IsDurable

abbrev log : List (JournalEntry ℕ)
log =
    record { key = b'k' ∷ []; is_delete = false; value = 3 }
    ∷ record { key = b'k' ∷ []; is_delete = true; value = 0 }
    ∷ []

replay_loop-log_bytes_example :
    replay_loop parse_uint16 20 ((b'm' ∷ [], 5) ∷ []) (log_bytes convert_uint16 parse_uint16 log)
    ≡ some (apply_all ((b'm' ∷ [], 5) ∷ []) log, none)
unfolding convert_string convert_uint16 convert_bool le_bytes be_bytes
replay_loop-log_bytes_example =
    replay_loop-log_bytes convert_uint16 parse_uint16 20 ((b'm' ∷ [], 5) ∷ []) log (omega arith)
      ((omega arith, trip 3 (omega arith)), ((omega arith, trip 0 (omega arith)), tt))

abbrev entries : Map Bytes ℕ
entries = (b'a' ∷ [], 1) ∷ (b'b' ∷ b'c' ∷ [], 65535) ∷ []

entries-Stores : All (Stores convert_uint16 parse_uint16) entries
entries-Stores =
    ((omega arith, trip 1 (omega arith)), ((omega arith, trip 65535 (omega arith)), tt))

entries-IsMap : IsMap entries
unfolding has lookup
entries-IsMap = (refl, (refl, tt))

abbrev busy : SaveFaults
busy = record { remove = some invalid; create = none }

load-save_example :
    ((RamStore.save convert_uint16 busy entries (some (9 ∷ []))).1 ≡ none)
    × (load parse_uint16 [] (RamStore.save convert_uint16 busy entries (some (9 ∷ []))).0
        ≡ some (entries, none))
load-save_example =
    load-save convert_uint16 parse_uint16 busy entries (some (9 ∷ [])) refl entries-IsMap
      entries-Stores

load_total_example :
    (done : Map Bytes Bytes × Option Error) × (load parse_string [] (some (1 ∷ 2 ∷ 3 ∷ []))
      ≡ some done)
load_total_example =
    load_total parse_string (λ r r' v h. omega (arith, parse_string_shrinks r r' v h)) []
      (some (1 ∷ 2 ∷ 3 ∷ []))

abbrev numbers : Map ℕ Bytes
numbers = (7, b'a' ∷ b'b' ∷ []) ∷ (65535, []) ∷ []

text_trip : (s : Bytes) → length s < 256 → RoundTrips convert_string parse_string s
text_trip s h = record {
  written = convert_string-ok s (omega arith);
  read_back = λ rest. parse-convert_string_short s rest h;
}

numbers-IsMap : IsMap numbers
unfolding has lookup
numbers-IsMap = (refl, (refl, tt))

parse_map-convert_map_example :
    parse_map
      (some parse_uint16)
      (some parse_string)
      ((convert_map (some convert_uint16) (some convert_string) numbers).0 ++ (9 ∷ []))
    ≡ (numbers, ok (9 ∷ []))
parse_map-convert_map_example =
    parse_map-convert_map convert_uint16 parse_uint16 convert_string parse_string numbers (9 ∷ [])
      numbers-IsMap (omega arith)
      (
        (trip 7 (omega arith), text_trip (b'a' ∷ b'b' ∷ []) (omega arith)),
        ((trip 65535 (omega arith), text_trip [] (omega arith)), tt),
      )

parse_array-convert_slice_example :
    parse_array
      (some parse_uint16)
      ((convert_slice (some convert_uint16) (1 ∷ 256 ∷ [])).0 ++ (9 ∷ []))
    ≡ ok (1 ∷ 256 ∷ [], 9 ∷ [])
parse_array-convert_slice_example =
    parse_array-convert_slice convert_uint16 parse_uint16 (1 ∷ 256 ∷ []) (9 ∷ []) (omega arith)
      (trip 1 (omega arith), (trip 256 (omega arith), tt))

-- 257 bytes, of which one is read back
abbrev long_text : Bytes
long_text = replicate 257 7

parse-convert_string_example :
    parse_string ((convert_string long_text).0 ++ (9 ∷ []))
    ≡ ok (
      take (length long_text % 256) long_text,
      drop (length long_text % 256) long_text ++ (9 ∷ []),
    )
parse-convert_string_example = parse-convert_string long_text (9 ∷ []) (omega arith)

parse-convert_dynamic_uint_example :
    (parse_dynamic_uint ((convert_dynamic_uint 1000).0 ++ (9 ∷ [])) ≡ ok (1000 % 256, 9 ∷ []))
    × ((convert_dynamic_uint 1000).1 ≡ none)
parse-convert_dynamic_uint_example = parse-convert_dynamic_uint 1000 (9 ∷ []) (omega arith)

abbrev two_byte_string : LimitedString
two_byte_string = record { value = []; length_store_byte_size = 2 }

made : make_limited_string 2 ≡ ok two_byte_string
unfolding make_limited_string
made = refl

set_value_lem_example : LimitedText.set_value two_byte_string long_text ≡ (
    if ltb 2 8 && ltb (length long_text) (2 ^ (8 * 2) - 1)
    then (record two_byte_string { value = long_text }, none)
    else (two_byte_string, some too_long))
set_value_lem_example = set_value_lem 2 two_byte_string long_text made

AllBytes-replicate : (n x : ℕ) → x < 256 → AllBytes (replicate n x)
AllBytes-replicate zero x h = tt
AllBytes-replicate (suc n) x h = (h, AllBytes-replicate n x h)

parse-convert_password_object_example :
    ((convert_password_object (password_of (replicate 64 7) (replicate 64 200))).1 ≡ none)
    × (parse_password_object (
          (convert_password_object (password_of (replicate 64 7) (replicate 64 200))).0
          ++ (1 ∷ 2 ∷ []))
        ≡ ok (password_of (replicate 64 7) (replicate 64 200), 1 ∷ 2 ∷ []))
parse-convert_password_object_example =
    parse-convert_password_object (replicate 64 7) (replicate 64 200) (1 ∷ 2 ∷ [])
      (AllBytes-replicate 64 7 (omega arith)) (AllBytes-replicate 64 200 (omega arith)) refl refl

-- a key of 2^64 - 1 bytes
damaged : parse_string (64 ∷ replicate 8 255) ≡ err panic
unfolding parse_string of_le
damaged = refl
