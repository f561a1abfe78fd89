-- ===== src/Database/Journal/Recovery.antt =====
-- The files of a JournalingRAMDatabase between its operations, against the data in memory.
use go_webtools.Base.{
  ℕ, ◌+◌, ◌%◌, ◌^◌, ◌≡◌, ◌∙◌, refl, sym, ap, true, false, ◌||◌, List, [], ◌∷◌, ◌++◌, Option, none,
  some, Bytes, bytes_eq, ltb, ◌==◌, Bool-cases, inl, inr,
}
use go_webtools.Helpers.SafeMap.{Map, IsMap}
use go_webtools.Helpers.SafeMap.Laws.{set-IsMap, delete-IsMap}
use go_webtools.Database.Stream.{Error, Parser, Writer}
use go_webtools.Database.Collections.Laws.{All}
use go_webtools.Database.RamStore.{write_entries}
use go_webtools.Database.RamStore.Laws.{Stores}
use go_webtools.Database.Journal.{
  Disk, Faults, JournalEntry, JournalingDatabase, State, contents, save, count_entry,
  append_to_journal, set_value, delete_value, apply_entry,
}
use go_webtools.Database.Journal.Replay.{
  apply_all, apply_all-append, EntryStores, entry_bytes, log_bytes, log_bytes-append,
  convert_entry-ok, All-set, All-delete,
}

-- the operating system takes what is written to the journal
abbrev pub JournalWorks : Faults → Type 0
JournalWorks f = (f.open_journal ≡ none) × (f.write_journal ≡ none)

All-snoc {ℓ κ} :
    {A : Type ℓ} (P : A → Type κ) {a : A} (xs : List A) → All P xs → P a → All P (xs ++ (a ∷ []))
All-snoc P [] h p = (p, tt)
All-snoc P (x ∷ xs) h p = (h.0, All-snoc P xs h.1 p)

module _ {ℓ} {V : Type ℓ} (enc : Writer V) (dec : Parser V) where
  -- distinct keys, and every entry can be stored
  abbrev pub Sound : Map Bytes V → Type ℓ
  Sound m = IsMap m × All (Stores enc dec) m

  -- The files hold the data: the saved map, and a journal whose entries lead from it to the data.
  pub record Holds (m : Map Bytes V) (disk : Disk) : Type ℓ where
    pub base : Map Bytes V
    pub log : List (JournalEntry V)
    pub base_sound : Sound base
    pub log_sound : All (EntryStores enc dec) log
    pub saved : contents disk.database ≡ write_entries enc base
    pub logged : contents disk.journal ≡ log_bytes enc dec log
    pub leads : apply_all base log ≡ m

  pub record IsDurable (s : State V) : Type ℓ where
    pub sound : Sound s.0.data_map
    pub holds : Holds s.0.data_map s.1

  -- the temporary file does not matter
  Holds-temporary :
      {m : Map Bytes V} {disk : Disk} (t : Option Bytes)
      → Holds m disk
      → Holds m (record disk { temporary = t })
  Holds-temporary t h = record {
    base = h.base;
    log = h.log;
    base_sound = h.base_sound;
    log_sound = h.log_sound;
    saved = h.saved;
    logged = h.logged;
    leads = h.leads;
  }

  -- an entry at the end of the journal
  Holds-logged :
      {m : Map Bytes V} {disk : Disk} (e : JournalEntry V)
      → EntryStores enc dec e
      → Holds m disk
      → Holds
          (apply_entry e m)
          (record disk { journal = some (contents disk.journal ++ entry_bytes enc dec e) })
  Holds-logged e s h = record {
    base = h.base;
    log = h.log ++ (e ∷ []);
    base_sound = h.base_sound;
    log_sound = All-snoc (EntryStores enc dec) h.log h.log_sound s;
    saved = h.saved;
    logged = ap (λ t. t ++ entry_bytes enc dec e) h.logged ∙ sym (log_bytes-append enc dec h.log e);
    leads = apply_all-append h.base h.log e ∙ ap (apply_entry e) h.leads;
  }

  -- A Save of a database whose files are in step with its data keeps them so, whether it
  -- succeeds, cannot create its file or cannot rename it.
  pub save-IsDurable : (f : Faults) (s : State V) → IsDurable s → IsDurable (save enc f s).0
  unfolding save
  save-IsDurable f (db, disk) d = go f.create f.rename refl refl
    where
      go : (c r : Option Error) → f.create ≡ c → f.rename ≡ r → IsDurable (save enc f (db, disk)).0
      go (some x) r p q =
          rw (p, save) (record { sound = d.sound; holds = Holds-temporary none d.holds })
      go none (some x) p q =
          rw (p, q, save) (record { sound = d.sound; holds = Holds-temporary _ d.holds })
      go none none p q =
          rw (p, q, save)
            (record {
              sound = d.sound;
              holds = record {
                base = db.data_map;
                log = [];
                base_sound = d.sound;
                log_sound = tt;
                saved = refl;
                logged = refl;
                leads = refl;
              };
            })

  count_entry-IsDurable : (f : Faults) (s : State V) → IsDurable s → IsDurable (count_entry enc f s)
  unfolding count_entry
  count_entry-IsDurable f (db, disk) d = elim (Bool-cases (limit == 0 || ltb count limit)) [
    | inl waits ↦ rw waits counted
    | inr full ↦ rw full (save-IsDurable f (record db { journal_len = count }, disk) counted)
  ]
    where
      count : ℕ
      count = (db.journal_len + 1) % 2 ^ 32

      limit : ℕ
      limit = db.journal_item_count_before_autosave

      counted : IsDurable (record db { journal_len = count }, disk)
      counted = record { sound = d.sound; holds = d.holds }

  append_logs :
      (f : Faults) (e : JournalEntry V) (db : JournalingDatabase V) (disk : Disk)
      → JournalWorks f
      → EntryStores enc dec e
      → append_to_journal enc f e (db, disk)
        ≡ count_entry enc f
            (db, record disk { journal = some (contents disk.journal ++ entry_bytes enc dec e) })
  unfolding append_to_journal
  append_logs f e db disk w s =
      let converted = convert_entry-ok enc dec e s in
      rw (w.0, converted, append_to_journal) (rw (w.1, converted) refl)

  -- a call of Set or Delete, after the map in memory has changed
  append-IsDurable :
      (f : Faults) (e : JournalEntry V) (db : JournalingDatabase V) (disk : Disk)
      → JournalWorks f
      → EntryStores enc dec e
      → Sound (apply_entry e db.data_map)
      → Holds db.data_map disk
      → IsDurable
          (append_to_journal enc f e (record db { data_map = apply_entry e db.data_map }, disk))
  append-IsDurable f e db disk w s ok_map h =
      rw (append_logs f e (record db { data_map = apply_entry e db.data_map }) disk w s)
        (count_entry-IsDurable f _ (record { sound = ok_map; holds = Holds-logged e s h }))

  -- Set keeps the files in step with the data, through the autosave too, if the journal is
  -- opened and written without an error and the entry can be stored.
  pub set_value-IsDurable :
      (f : Faults) (k : Bytes) (v : V) (s : State V)
      → JournalWorks f
      → Stores enc dec (k, v)
      → IsDurable s
      → IsDurable (set_value enc f k v s)
  unfolding set_value apply_entry
  set_value-IsDurable f k v (db, disk) w t d =
      append-IsDurable f (record { key = k; is_delete = false; value = v }) db disk w t
        (set-IsMap k v db.data_map d.sound.0, All-set enc dec k v db.data_map t d.sound.1) d.holds

  -- Delete keeps the files in step with the data, through the autosave too, if the journal is
  -- opened and written without an error and the key with the zero value can be stored.
  pub delete_value-IsDurable :
      (f : Faults) (z : V) (k : Bytes) (s : State V)
      → JournalWorks f
      → Stores enc dec (k, z)
      → IsDurable s
      → IsDurable (delete_value enc z f k s)
  unfolding delete_value apply_entry
  delete_value-IsDurable f z k (db, disk) w t d =
      append-IsDurable f (record { key = k; is_delete = true; value = z }) db disk w t
        (delete-IsMap k db.data_map d.sound.0, All-delete enc dec k db.data_map d.sound.1) d.holds

  -- what a fresh database with threshold `n` starts from
  abbrev pub fresh : ℕ → JournalingDatabase V
  fresh n = record { data_map = []; journal_len = 0; journal_item_count_before_autosave = n }
