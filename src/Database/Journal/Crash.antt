-- ===== src/Database/Journal/Crash.antt =====
-- Loading after a crash: the executions of a database, and what a fresh one recovers from the files.
use go_webtools.Base.{
  ℕ, suc, ◌≡◌, ◌∙◌, refl, sym, ap, List, [], Option, none, some, Bytes, length, arith,
}
use mathlib.Core.Option.{some-injective}
use go_webtools.Helpers.SafeMap.{Map}
use go_webtools.Database.Stream.{Error, Parser, Writer, read}
use go_webtools.Database.Codec.{parse_string}
use go_webtools.Database.RamStore.{write_entries, load}
use go_webtools.Database.RamStore.Laws.{Stores, load-write_entries}
use go_webtools.Database.Journal.{
  Disk, Faults, no_faults, JournalEntry, State, contents, save, set_value, delete_value,
  replay_loop, after_replay, after_load, load_journal, load_database,
}
use go_webtools.Database.Collections.Laws.{All}
use go_webtools.Database.Journal.Replay.{EntryStores, apply_all, log_bytes, replay_loop-log_bytes}
use go_webtools.Database.Journal.Recovery.{
  JournalWorks, Sound, IsDurable, save-IsDurable, set_value-IsDurable, delete_value-IsDurable,
  fresh,
}

some-fst {ℓ κ} : {A : Type ℓ} {B : Type κ} {p q : A × B} → some p ≡ some q → p.0 ≡ q.0
some-fst {p} {q} e = ap (λ r. r.0) (some-injective p q e)

abbrev pub no_files : Disk
no_files = record { database = none; temporary = none; journal = none }

module _ {ℓ} {V : Type ℓ} (enc : Writer V) (dec : Parser V) where
  -- An operation of a running database, or a Save; creating and renaming files may fail in each.
  pub data Step (z : V) : State V → State V → Type ℓ where
    put :
        (f : Faults) (k : Bytes) (v : V) {s : State V}
        → JournalWorks f
        → Stores enc dec (k, v)
        → Step z s (set_value enc f k v s)
    remove :
        (f : Faults) (k : Bytes) {s : State V}
        → JournalWorks f
        → Stores enc dec (k, z)
        → Step z s (delete_value enc z f k s)
    flush : (f : Faults) {s : State V} → Step z s (save enc f s).0

  pub data Reach (z : V) (s : State V) : State V → Type ℓ where
    here : Reach z s s
    next : {t u : State V} → Reach z s t → Step z t u → Reach z s u

  Step-IsDurable : {z : V} {s t : State V} → Step z s t → IsDurable enc dec s → IsDurable enc dec t
  Step-IsDurable (put f k v w h) d = set_value-IsDurable enc dec f k v _ w h d
  Step-IsDurable {z} (remove f k w h) d = delete_value-IsDurable enc dec f z k _ w h d
  Step-IsDurable (flush f) d = save-IsDurable enc dec f _ d

  pub Reach-IsDurable :
      {z : V} {s t : State V} → IsDurable enc dec s → Reach z s t → IsDurable enc dec t
  Reach-IsDurable d here = d
  Reach-IsDurable d (next r st) = Step-IsDurable st (Reach-IsDurable d r)

  -- How a load ends well: without an error, with the given data, with files that hold it, and with
  -- an empty journal.
  pub record Recovers (m : Map Bytes V) (out : Option (State V × Option Error)) : Type ℓ where
    pub state : State V
    pub loads : out ≡ some (state, none)
    pub same : state.0.data_map ≡ m
    pub cleared : contents state.1.journal ≡ []

  -- an empty file stands for the empty map alone
  base_of_nothing :
      (base : Map Bytes V) → Sound enc dec base → write_entries enc base ≡ [] → base ≡ []
  base_of_nothing base s e = some-fst (
      sym (load-write_entries enc dec base s.0 s.1)
      ∙ ap (λ b. load dec [] (some b)) e
      ∙ load-nothing)
    where
      load-nothing : load dec [] (some []) ≡ some ([], none)
      load-nothing = unfold load parse_string read in refl

  load_base :
      (n : ℕ) (base : Map Bytes V) (t j file : Option Bytes)
      → Sound enc dec base
      → contents file ≡ write_entries enc base
      → load_database enc dec no_faults
          (fresh enc dec n, record { database = file; temporary = t; journal = j })
        ≡ load_journal enc dec no_faults (
          record (fresh enc dec n) { data_map = base },
          record { database = file; temporary = t; journal = j },
        )
  unfolding load_database
  load_base n base t j none s e =
      ap
        (λ m. load_journal enc dec no_faults (
          record (fresh enc dec n) { data_map = m },
          record { database = none; temporary = t; journal = j },
        ))
        (sym (base_of_nothing base s (sym e)))
  load_base n base t j (some b) s e =
      let state : State V =
        (fresh enc dec n, record { database = some b; temporary = t; journal = j }) in
      ap (after_load enc dec no_faults state)
        (ap (λ c. load dec [] (some c)) e ∙ load-write_entries enc dec base s.0 s.1)

  -- the journal's half of a load
  load_rest :
      (n : ℕ) (base : Map Bytes V) (log : List (JournalEntry V)) (d t j : Option Bytes)
      → All (EntryStores enc dec) log
      → contents j ≡ log_bytes enc dec log
      → Recovers (apply_all base log) (
          load_journal enc dec no_faults (
            record (fresh enc dec n) { data_map = base },
            record { database = d; temporary = t; journal = j },
          ))
  unfolding load_journal
  load_rest n base log d t none h e = record {
    state = (
      record (fresh enc dec n) { data_map = base },
      record { database = d; temporary = t; journal = none },
    );
    loads = refl;
    same =
        some-fst
          (replayed_nothing ∙ replay_loop-log_bytes enc dec 1 base log (rw (← e) (omega arith)) h);
    cleared = refl;
  }
    where
      replayed_nothing : some (base, none) ≡ replay_loop dec 1 base (log_bytes enc dec log)
      replayed_nothing = rw (← e) (unfold replay_loop parse_string read in refl)
  load_rest n base log d t (some b) h e = record {
    state =
        (save enc no_faults (
          record (fresh enc dec n) { data_map = apply_all base log },
          record { database = d; temporary = t; journal = some b },
        )).0;
    loads =
        ap
          (after_replay enc no_faults (
            record (fresh enc dec n) { data_map = base },
            record { database = d; temporary = t; journal = some b },
          ))
          (ap (replay_loop dec (suc (length b)) base) e
            ∙ replay_loop-log_bytes enc dec (suc (length b)) base log (rw (← e) (omega arith)) h);
    same = refl;
    cleared = refl;
  }

  pub fresh-IsDurable : (n : ℕ) → IsDurable enc dec (fresh enc dec n, no_files)
  fresh-IsDurable n = record {
    sound = (tt, tt);
    holds = record {
      base = [];
      log = [];
      base_sound = (tt, tt);
      log_sound = tt;
      saved = unfold write_entries in refl;
      logged = refl;
      leads = refl;
    };
  }

  -- A database that was only ever used through Set, Delete and Save, starting with no files, can
  -- be abandoned at any point: a fresh database loads its files without an error, has exactly
  -- its data, and leaves an empty journal. The temporary file may fail to be created or renamed
  -- at every operation; the journal is opened and written without an error, the keys have fewer
  -- than 256 bytes, and the values, of a Delete the zero value, are written and read back by the
  -- functions of the caller.
  pub recovers :
      (z : V) (n n' : ℕ) (s : State V)
      → Reach z (fresh enc dec n, no_files) s
      → Recovers s.0.data_map (load_database enc dec no_faults (fresh enc dec n', s.1))
  recovers z n n' s r =
      let d = Reach-IsDurable (fresh-IsDurable n) r in
      let h = d.holds in
      rw (load_base n' h.base s.1.temporary s.1.journal s.1.database h.base_sound h.saved) (
        rw h.leads at
          (load_rest n' h.base h.log s.1.database s.1.temporary s.1.journal h.log_sound h.logged))
