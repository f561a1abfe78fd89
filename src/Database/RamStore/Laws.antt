-- ===== src/Database/RamStore/Laws.antt =====
-- Save of RAMDatabase.go against Load, and the end of Load.
use go_webtools.Base.{
  ℕ, zero, suc, ◌≤◌, ◌<◌, ◌≡◌, ◌∙◌, refl, ap, [], ◌∷◌, ◌++◌, Option, none, some, Bytes, bytes_eq,
  length, length-append, arith,
}
use go_webtools.Helpers.SafeMap.{Map, set, set_all, IsMap}
use go_webtools.Helpers.SafeMap.Laws.{set_all-append}
use go_webtools.Database.Stream.{Error, Result, ok, err, Parser, Writer, read}
use go_webtools.Database.Codec.{convert_string, parse_string}
use go_webtools.Database.Codec.Texts.{
  parse-convert_string_short, parse_string_shrinks, convert_string-nonempty,
}
use go_webtools.Database.Collections.Laws.{RoundTrips, All}
use go_webtools.Database.RamStore.{SaveFaults, write_entries, save, stop, load_loop, load}

module _ {ℓ} {V : Type ℓ} (enc : Writer V) (dec : Parser V) where
  -- An entry that can be stored: its key is short enough to come back, and so does its value.
  abbrev pub Stores : Bytes × V → Type ℓ
  Stores (k, v) = (length k < 256) × RoundTrips enc dec v

  pub load_loop-write_entries :
      (fuel : ℕ) (m es : Map Bytes V)
      → length (write_entries enc es) < fuel
      → All Stores es
      → load_loop dec fuel m (write_entries enc es) ≡ some (set_all m es, none)
  unfolding load_loop write_entries set_all
  load_loop-write_entries zero m es f h = absurd (omega arith)
  load_loop-write_entries (suc fuel) m [] f h = unfold parse_string read in refl
  load_loop-write_entries (suc fuel) m ((k, v) ∷ es) f h =
      let tail = write_entries enc es in
      rw (parse-convert_string_short k ((enc v).0 ++ tail) h.0.0, h.0.1.read_back tail, load_loop)
        (load_loop-write_entries fuel (set k v m) es
          (omega (
            arith,
            length-append (convert_string k).0 ((enc v).0 ++ tail),
            length-append (enc v).0 tail,
            convert_string-nonempty k (omega arith),
          ))
          h.1)

  pub load-write_entries :
      (db : Map Bytes V)
      → IsMap db
      → All Stores db
      → load dec [] (some (write_entries enc db)) ≡ some (db, none)
  unfolding load
  load-write_entries db v h =
      load_loop-write_entries (suc (length (write_entries enc db))) [] db (omega arith) h
      ∙ ap (λ m. some (m, none)) (set_all-append [] db v)

  -- If os.Create succeeds, what Save writes of a map with distinct keys of fewer than 256 bytes,
  -- whose values the functions of the caller write and read back, is read back by Load into an
  -- empty map entry for entry and without an error, whatever the file was and however os.Remove
  -- answers.
  pub load-save :
      (f : SaveFaults) (db : Map Bytes V) (file : Option Bytes)
      → f.create ≡ none
      → IsMap db
      → All Stores db
      → ((save enc f db file).1 ≡ none) × (load dec [] (save enc f db file).0 ≡ some (db, none))
  unfolding save
  load-save f db file created v h = rw created (refl, load-write_entries db v h)

module _ {ℓ} {V : Type ℓ} (dec : Parser V) where
  abbrev Ends : ℕ → Map Bytes V → Bytes → Type ℓ
  Ends fuel m r = (done : Map Bytes V × Option Error) × (load_loop dec fuel m r ≡ some done)

  -- one round whose key was read
  load_value-Ends :
      (fuel : ℕ) (m : Map Bytes V) (r key r' : Bytes)
      → parse_string r ≡ ok (key, r')
      → ((v : V) (r'' : Bytes) → dec r' ≡ ok (v, r'') → Ends fuel (set key v m) r'')
      → (p : Result (V × Bytes)) → dec r' ≡ p
      → Ends (suc fuel) m r
  unfolding load_loop
  load_value-Ends fuel m r key r' e rest (err x) d = (stop m x, rw (e, d, load_loop) refl)
  load_value-Ends fuel m r key r' e rest (ok (v, r'')) d =
      let (done, q) = rest v r'' d in (done, rw (e, d, load_loop) q)

  load_key-Ends :
      (fuel : ℕ) (m : Map Bytes V) (r : Bytes)
      → ((key v_rest r'' : Bytes) (v : V)
          → parse_string r ≡ ok (key, v_rest)
          → dec v_rest ≡ ok (v, r'')
          → Ends fuel (set key v m) r'')
      → (p : Result (Bytes × Bytes)) → parse_string r ≡ p
      → Ends (suc fuel) m r
  unfolding load_loop
  load_key-Ends fuel m r rest (err x) e = (stop m x, rw (e, load_loop) refl)
  load_key-Ends fuel m r rest (ok (key, r')) e =
      load_value-Ends fuel m r key r' e (λ v r'' d. rest key r' r'' v e d) (dec r') refl

  module _ (shrinks : (r r' : Bytes) (v : V) → dec r ≡ ok (v, r') → length r' ≤ length r) where
    load_loop-Ends : (fuel : ℕ) (m : Map Bytes V) (r : Bytes) → length r < fuel → Ends fuel m r
    load_loop-Ends zero m r f = absurd (omega arith)
    load_loop-Ends (suc fuel) m r f =
        load_key-Ends fuel m r
          (λ key r' r'' v e d.
            load_loop-Ends fuel (set key v m) r''
              (omega (arith, parse_string_shrinks r r' key e, shrinks r' r'' v d)))
          (parse_string r) refl

    -- If the function that parses a value never leaves more bytes than it was given, the loop of
    -- Load ends on every file, sound or not, with the end of the file, an error, or the panic of a
    -- key whose length is too large to allocate: one round for each byte and one more are enough.
    pub load_total :
        (db : Map Bytes V) (file : Option Bytes)
        → (done : Map Bytes V × Option Error) × (load dec db file ≡ some done)
    unfolding load
    load_total db none = (_, refl)
    load_total db (some file) = load_loop-Ends (suc (length file)) db file (omega arith)
