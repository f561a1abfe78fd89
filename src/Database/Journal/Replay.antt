-- ===== src/Database/Journal/Replay.antt =====
-- The replay of a journal: JournalingRAMDatabase.Load over entries that were written whole.
use go_webtools.Base.{
  ℕ, zero, suc, ◌<◌, ◌≡◌, ◌∙◌, refl, sym, ap, List, [], ◌∷◌, ◌++◌, none, some, Bytes, bytes_eq,
  length, length-append, append_assoc, append-nil, arith, Bool-cases, inl, inr,
}
use go_webtools.Helpers.SafeMap.{Map, set, delete}
use go_webtools.Database.Stream.{Parser, Writer, read}
use go_webtools.Database.Codec.{convert_string, parse_string, convert_bool}
use go_webtools.Database.Codec.Numbers.{parse-convert_bool}
use go_webtools.Database.Codec.Texts.{
  parse-convert_string_short, convert_string-ok, convert_string-nonempty,
}
use go_webtools.Database.Collections.Laws.{RoundTrips, All, andthen-none}
use go_webtools.Database.RamStore.Laws.{Stores}
use go_webtools.Database.Journal.{JournalEntry, convert_entry, apply_entry, replay_loop}

module _ {ℓ} {V : Type ℓ} where
  -- the entries of a journal applied from the oldest on
  abbrev pub apply_all : Map Bytes V → List (JournalEntry V) → Map Bytes V
  apply_all m [] = m
  apply_all m (e ∷ es) = apply_all (apply_entry e m) es

  pub apply_all-append :
      (m : Map Bytes V) (es : List (JournalEntry V)) (e : JournalEntry V)
      → apply_all m (es ++ (e ∷ [])) ≡ apply_entry e (apply_all m es)
  apply_all-append m [] e = refl
  apply_all-append m (x ∷ es) e = apply_all-append (apply_entry x m) es e

module _ {ℓ} {V : Type ℓ} (enc : Writer V) (dec : Parser V) where
  -- an entry that comes back
  abbrev pub EntryStores : JournalEntry V → Type ℓ
  EntryStores e = (length e.key < 256) × RoundTrips enc dec e.value

  abbrev pub entry_bytes : JournalEntry V → Bytes
  entry_bytes e = (convert_string e.key).0 ++ (convert_bool e.is_delete).0 ++ (enc e.value).0

  abbrev pub log_bytes : List (JournalEntry V) → Bytes
  log_bytes [] = []
  log_bytes (e ∷ es) = entry_bytes e ++ log_bytes es

  pub log_bytes-append :
      (es : List (JournalEntry V)) (e : JournalEntry V)
      → log_bytes (es ++ (e ∷ [])) ≡ log_bytes es ++ entry_bytes e
  log_bytes-append [] e = append-nil (entry_bytes e)
  log_bytes-append (x ∷ es) e =
      ap (λ t. entry_bytes x ++ t) (log_bytes-append es e)
      ∙ sym (append_assoc (entry_bytes x) (log_bytes es) (entry_bytes e))

  pub convert_entry-ok :
      (e : JournalEntry V) → EntryStores e → convert_entry enc e ≡ (entry_bytes e, none)
  unfolding convert_entry convert_bool
  convert_entry-ok e (short, trip) =
      rw
        (andthen-none (convert_string e.key) (convert_bool e.is_delete)
          (convert_string-ok e.key (omega arith)) refl)
        (andthen-none ((convert_string e.key).0 ++ (convert_bool e.is_delete).0, none) (enc e.value)
          refl trip.written)

  regroup :
      (e : JournalEntry V) (rest : Bytes)
      → entry_bytes e ++ rest
        ≡ (convert_string e.key).0 ++ ((convert_bool e.is_delete).0 ++ ((enc e.value).0 ++ rest))
  regroup e rest = simp append_assoc

  length-entry : (e : JournalEntry V) → EntryStores e → 0 < length (entry_bytes e)
  length-entry e (short, trip) = omega (
    arith,
    length-append ((convert_string e.key).0 ++ (convert_bool e.is_delete).0) (enc e.value).0,
    length-append (convert_string e.key).0 (convert_bool e.is_delete).0,
    convert_string-nonempty e.key (omega arith),
  )

  pub replay_loop-log_bytes :
      (fuel : ℕ) (m : Map Bytes V) (es : List (JournalEntry V))
      → length (log_bytes es) < fuel
      → All EntryStores es
      → replay_loop dec fuel m (log_bytes es) ≡ some (apply_all m es, none)
  unfolding replay_loop
  replay_loop-log_bytes zero m es f h = absurd (omega arith)
  replay_loop-log_bytes (suc fuel) m [] f h = unfold parse_string read in refl
  replay_loop-log_bytes (suc fuel) m (e ∷ es) f h =
      let tail = log_bytes es in
      rw
        (
          regroup e tail,
          parse-convert_string_short e.key
              ((convert_bool e.is_delete).0 ++ ((enc e.value).0 ++ tail)) h.0.0,
          parse-convert_bool e.is_delete ((enc e.value).0 ++ tail),
          h.0.1.read_back tail,
          replay_loop,
        )
        (replay_loop-log_bytes fuel (apply_entry e m) es
          (omega (arith, length-append (entry_bytes e) tail, length-entry e h.0)) h.1)

  -- what is stored stays storable under a write and under a removal
  pub All-set :
      (k : Bytes) (v : V) (m : Map Bytes V)
      → Stores enc dec (k, v)
      → All (Stores enc dec) m
      → All (Stores enc dec) (set k v m)
  unfolding set
  All-set k v [] s h = (s, tt)
  All-set k v ((j, w) ∷ m) s h = elim (Bool-cases (bytes_eq.beq j k)) [
    | inl same ↦ rw same ((h.0.0, s.1), h.1)
    | inr other ↦ rw other (h.0, All-set k v m s h.1)
  ]

  pub All-delete :
      (k : Bytes) (m : Map Bytes V) → All (Stores enc dec) m → All (Stores enc dec) (delete k m)
  unfolding delete
  All-delete k [] h = h
  All-delete k ((j, w) ∷ m) h = elim (Bool-cases (bytes_eq.beq j k)) [
    | inl same ↦ rw same (All-delete k m h.1)
    | inr other ↦ rw other (h.0, All-delete k m h.1)
  ]
