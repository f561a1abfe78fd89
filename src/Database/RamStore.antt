-- ===== src/Database/RamStore.antt =====
-- database/RAMDatabase.go: a map in memory with one file that holds its entries one after another.
-- A failing call of the operating system is an argument of the operation that makes the call.
pub mod Laws
use go_webtools.Base.{
  ℕ, zero, suc, ◌≡◌, List, [], ◌∷◌, ◌++◌, Option, none, some, Bytes, bytes_eq, length,
}
use go_webtools.Helpers.SafeMap.{Map, get, set, delete, len}
use go_webtools.Database.Stream.{Error, eof, invalid, other, Result, ok, err, Parser, Writer}
use go_webtools.Database.Codec.{convert_string, parse_string}

-- the error of os.Open for a missing file
abbrev pub not_exist : Error
not_exist = other 2

-- What the operating system answers to a Save: whether os.Remove and os.Create fail.
pub record SaveFaults : Type 0 where
  pub remove : Option Error
  pub create : Option Error

-- what os.Remove leaves of the file
abbrev pub removed : SaveFaults → Option Bytes → Option Bytes
removed f file = elim f.remove [ none ↦ none | some x ↦ file ]

module _ {ℓ} {V : Type ℓ} where
  -- NewRAMDatabase refuses nil functions, and starts with an empty map.
  unfoldable pub new_ram_database : Option (Writer V) → Option (Parser V) → Result (Map Bytes V)
  new_ram_database (some enc) (some dec) = ok []
  new_ram_database _ _ = err invalid

  -- Get, Set, Delete and Len pass the call on to the map
  unfoldable pub get_value : V → Bytes → Map Bytes V → V
  unfolding get
  get_value zero_value key db = get zero_value key db

  unfoldable pub set_value : Bytes → V → Map Bytes V → Map Bytes V
  unfolding set
  set_value key value db = set key value db

  unfoldable pub delete_value : Bytes → Map Bytes V → Map Bytes V
  unfolding delete
  delete_value key db = delete key db

  -- the loop of Save, which ignores the errors of both writers
  unfoldable pub write_entries : Writer V → Map Bytes V → Bytes
  unfolding convert_string
  write_entries enc [] = []
  write_entries enc ((k, v) ∷ m) = (convert_string k).0 ++ ((enc v).0 ++ write_entries enc m)

  -- Save: the file that it leaves, and its error
  unfoldable pub save :
      Writer V → SaveFaults → Map Bytes V → Option Bytes → Option Bytes × Option Error
  unfolding write_entries
  save enc f db file = elim f.create [
    | none ↦ (some (write_entries enc db), none)
    | some x ↦ (removed f file, some x)
  ]

  -- the end of file ends a load without an error
  abbrev pub stop : Map Bytes V → Error → Map Bytes V × Option Error
  stop m eof = (m, none)
  stop m x = (m, some x)

  -- The loop of Load. `none` means that the fuel ran out.
  unfoldable pub load_loop :
      Parser V → ℕ → Map Bytes V → Bytes → Option (Map Bytes V × Option Error)
  unfolding set
  load_loop dec zero m r = none
  load_loop dec (suc fuel) m r = elim (parse_string r) [
    | err x ↦ some (stop m x)
    | ok (key, r') ↦ elim (dec r') [
      | err x ↦ some (stop m x)
      | ok (value, r'') ↦ load_loop dec fuel (set key value m) r''
    ]
  ]

  -- Load: one round of the loop for each key, which takes at least one byte, and one for the end.
  unfoldable pub load : Parser V → Map Bytes V → Option Bytes → Option (Map Bytes V × Option Error)
  unfolding load_loop
  load dec db none = some (db, some not_exist)
  load dec db (some file) = load_loop dec (suc (length file)) db file
