-- ===== src/Database/Journal.antt =====
-- database/JournalingRAMDatabase.go: a map in memory, a file with its last saved state, and a
-- journal of the operations since then. What fails of the operating system during one operation is
-- an argument of that operation; os.Remove is taken to succeed.
pub mod Replay
pub mod Recovery
pub mod Crash
use go_webtools.Base.{
  ℕ, zero, suc, ◌+◌, ◌%◌, ◌^◌, ◌≡◌, Bool, true, false, ◌||◌, List, [], ◌∷◌, ◌++◌, Option, none,
  some, Bytes, bytes_eq, ltb, ◌==◌, if◌then◌else◌, length, take,
}
use go_webtools.Helpers.SafeMap.{Map, set, delete}
use go_webtools.Database.Stream.{
  Error, eof, invalid, Result, ok, err, Parser, Writer, Written, ◌andthen◌,
}
use go_webtools.Database.Codec.{convert_string, parse_string, convert_bool, parse_bool}
use go_webtools.Database.RamStore.{write_entries, load}

-- the files `path`, `path.tmp` and `path.journal`
pub record Disk : Type 0 where
  pub database : Option Bytes
  pub temporary : Option Bytes
  pub journal : Option Bytes

-- The answers of the operating system during one operation. A failing write of the journal says
-- how many bytes went out before.
pub record Faults : Type 0 where
  pub open_database : Option Error
  pub open_journal : Option Error
  pub write_journal : Option (ℕ × Error)
  pub create : Option Error
  pub rename : Option Error

abbrev pub no_faults : Faults
no_faults = record {
  open_database = none;
  open_journal = none;
  write_journal = none;
  create = none;
  rename = none;
}

pub record JournalEntry {ℓ} (V : Type ℓ) : Type ℓ where
  pub key : Bytes
  pub is_delete : Bool
  pub value : V

pub record JournalingDatabase {ℓ} (V : Type ℓ) : Type ℓ where
  pub data_map : Map Bytes V
  pub journal_len : ℕ
  pub journal_item_count_before_autosave : ℕ

-- the contents of a file that O_CREATE makes if it is missing
abbrev pub contents : Option Bytes → Bytes
contents none = []
contents (some b) = b

abbrev pub State {ℓ} : Type ℓ → Type ℓ
State V = JournalingDatabase V × Disk

module _ {ℓ} {V : Type ℓ} where
  -- NewJournalingRAMDatabase refuses nil functions, and starts with an empty map.
  unfoldable pub new_journaling_database :
      Option (Writer V) → Option (Parser V) → ℕ → Result (JournalingDatabase V)
  new_journaling_database (some enc) (some dec) n =
      ok (record { data_map = []; journal_len = 0; journal_item_count_before_autosave = n })
  new_journaling_database _ _ n = err invalid

  -- Save writes the temporary file, renames it, and removes the journal
  unfoldable pub save : Writer V → Faults → State V → State V × Option Error
  unfolding write_entries
  save enc f (db, disk) =
      let file = write_entries enc db.data_map in
      elim f.create [
        | some x ↦ ((db, record disk { temporary = none }), some x)
        | none ↦ elim f.rename [
          | some x ↦ ((db, record disk { temporary = some file }), some x)
          | none ↦ (
            (
              record db { journal_len = 0 },
              record { database = some file; temporary = none; journal = none },
            ),
            none,
          )
        ]
      ]

  -- the bytes of an entry: key, isDelete, value, up to the first error
  unfoldable pub convert_entry : Writer V → Writer (JournalEntry V)
  unfolding convert_string convert_bool
  convert_entry enc entry =
      convert_string entry.key andthen convert_bool entry.is_delete andthen enc entry.value

  -- the end of appendToJournal, after the entry has been written
  unfoldable pub count_entry : Writer V → Faults → State V → State V
  unfolding save
  count_entry enc f (db, disk) =
      let count = (db.journal_len + 1) % 2 ^ 32 in
      let limit = db.journal_item_count_before_autosave in
      let counted : State V = (record db { journal_len = count }, disk) in
      if limit == 0 || ltb count limit then counted else (save enc f counted).0

  unfoldable pub append_to_journal : Writer V → Faults → JournalEntry V → State V → State V
  unfolding convert_entry count_entry
  append_to_journal enc f entry (db, disk) =
      let old = contents disk.journal in
      elim f.open_journal [
        | some x ↦ (db, disk)
        | none ↦ elim ((convert_entry enc entry).1) [
          | some x ↦ (db, record disk { journal = some old })
          | none ↦ elim f.write_journal [
            | some (n, x) ↦
                (db, record disk { journal = some (old ++ take n (convert_entry enc entry).0) })
            | none ↦
                count_entry enc f
                  (db, record disk { journal = some (old ++ (convert_entry enc entry).0) })
          ]
        ]
      ]

  unfoldable pub set_value : Writer V → Faults → Bytes → V → State V → State V
  unfolding append_to_journal set
  set_value enc f key value (db, disk) =
      append_to_journal enc f (record { key = key; is_delete = false; value = value })
        (record db { data_map = set key value db.data_map }, disk)

  -- The entry of a removal holds the zero value of the type.
  unfoldable pub delete_value : Writer V → V → Faults → Bytes → State V → State V
  unfolding append_to_journal delete
  delete_value enc zero_value f key (db, disk) =
      append_to_journal enc f (record { key = key; is_delete = true; value = zero_value })
        (record db { data_map = delete key db.data_map }, disk)

  unfoldable pub apply_entry : JournalEntry V → Map Bytes V → Map Bytes V
  unfolding set delete
  apply_entry entry m = if entry.is_delete then delete entry.key m else set entry.key entry.value m

  -- The journal loop of Load: only an end of file where a key would start ends it well. `none`
  -- means that the fuel ran out.
  unfoldable pub replay_loop :
      Parser V → ℕ → Map Bytes V → Bytes → Option (Map Bytes V × Option Error)
  unfolding apply_entry
  replay_loop dec zero m r = none
  replay_loop dec (suc fuel) m r = elim (parse_string r) [
    | err eof ↦ some (m, none)
    | err x ↦ some (m, some x)
    | ok (key, r₁) ↦ elim (parse_bool r₁) [
      | err x ↦ some (m, some x)
      | ok (is_delete, r₂) ↦ elim (dec r₂) [
        | err x ↦ some (m, some x)
        | ok (value, r₃) ↦
            replay_loop dec fuel
              (apply_entry (record { key = key; is_delete = is_delete; value = value }) m) r₃
      ]
    ]
  ]

  -- Load after the journal loop: an error ends it, otherwise the data is saved
  unfoldable pub after_replay :
      Writer V
      → Faults
      → State V
      → Option (Map Bytes V × Option Error)
      → Option (State V × Option Error)
  unfolding save
  after_replay enc f s none = none
  after_replay enc f (db, disk) (some (m, some x)) =
      some ((record db { data_map = m }, disk), some x)
  after_replay enc f (db, disk) (some (m, none)) =
      some (save enc f (record db { data_map = m }, disk))

  -- the second half of Load: the journal, if there is one
  unfoldable pub load_journal :
      Writer V → Parser V → Faults → State V → Option (State V × Option Error)
  unfolding replay_loop after_replay
  load_journal enc dec f (db, disk) = elim f.open_journal [
    | some x ↦ some ((db, disk), some x)
    | none ↦ elim disk.journal [
      | none ↦ some ((db, disk), none)
      | some journal ↦
          after_replay enc f (db, disk) (replay_loop dec (suc (length journal)) db.data_map journal)
    ]
  ]

  -- Load after the loop over the database file: an error ends it, otherwise the journal follows
  unfoldable pub after_load :
      Writer V
      → Parser V
      → Faults
      → State V
      → Option (Map Bytes V × Option Error)
      → Option (State V × Option Error)
  unfolding load_journal
  after_load enc dec f s none = none
  after_load enc dec f (db, disk) (some (m, some x)) =
      some ((record db { data_map = m }, disk), some x)
  after_load enc dec f (db, disk) (some (m, none)) =
      load_journal enc dec f (record db { data_map = m }, disk)

  -- Load goes on to the journal where the database file cannot be opened.
  unfoldable pub load_database :
      Writer V → Parser V → Faults → State V → Option (State V × Option Error)
  unfolding load after_load
  load_database enc dec f (db, disk) = elim f.open_database [
    | some x ↦ load_journal enc dec f (db, disk)
    | none ↦ elim disk.database [
      | none ↦ load_journal enc dec f (db, disk)
      | some file ↦ after_load enc dec f (db, disk) (load dec db.data_map (some file))
    ]
  ]
