-- ===== src/Database/Collections/Laws.antt =====
-- What the collection codecs of DatabaseShared.go read back, over codecs of the parts.
use go_webtools.Base.{
  ℕ, ◌%◌, ◌<◌, ◌≡◌, ◌∙◌, refl, ap, ap₂, List, [], ◌∷◌, ◌++◌, none, some, Bytes, Eq, length,
  append_assoc, arith,
}
use go_webtools.Helpers.SafeMap.{Map, set, set_all, IsMap}
use go_webtools.Helpers.SafeMap.Laws.{set_all-append}
use go_webtools.Database.Stream.{ok, Parser, Written, Writer, ◌andthen◌}
use go_webtools.Database.Codec.{convert_dynamic_uint}
use go_webtools.Database.Codec.Numbers.{parse-convert_dynamic_uint}
use go_webtools.Database.Codec.Texts.{andthen_of_none}
use go_webtools.Database.Collections.{
  rounds, convert_each, convert_slice, parse_each, parse_array, convert_entries, convert_map,
  parse_entries, parse_map,
}

-- What the code relies on of the functions that its caller supplies: the value is written without
-- an error, and is read back in front of any rest.
pub record RoundTrips {ℓ} {A : Type ℓ} (enc : Writer A) (dec : Parser A) (a : A) : Type ℓ where
  pub written : (enc a).1 ≡ none
  pub read_back : (rest : Bytes) → dec ((enc a).0 ++ rest) ≡ ok (a, rest)

abbrev pub All {ℓ κ} : {A : Type ℓ} → (A → Type κ) → List A → Type κ
All P [] = Unit
All P (x ∷ xs) = P x × All P xs

pub andthen-none : (v w : Written) → v.1 ≡ none → w.1 ≡ none → (v andthen w) ≡ (v.0 ++ w.0, none)
andthen-none v w p q = andthen_of_none v w p ∙ ap₂ (λ b e. (b, e)) refl q

rounds-byte : (n : ℕ) → n < 256 → rounds (n % 256) ≡ n
unfolding rounds
rounds-byte n h = ground arith

module _ {ℓ} {V : Type ℓ} (enc : Writer V) (dec : Parser V) where
  convert_each-ok : (vs : List V) → All (RoundTrips enc dec) vs → (convert_each enc vs).1 ≡ none
  unfolding convert_each
  convert_each-ok [] h = refl
  convert_each-ok (v ∷ vs) h =
      ap (λ (w : Written). w.1)
        (andthen-none (enc v) (convert_each enc vs) h.0.written (convert_each-ok vs h.1))

  parse-convert_each :
      (vs : List V) (rest : Bytes)
      → All (RoundTrips enc dec) vs
      → parse_each dec (length vs) ((convert_each enc vs).0 ++ rest) ≡ ok (vs, rest)
  unfolding convert_each parse_each
  parse-convert_each [] rest h = refl
  parse-convert_each (v ∷ vs) rest h =
      rw
        (
          andthen-none (enc v) (convert_each enc vs) h.0.written (convert_each-ok vs h.1),
          append_assoc (enc v).0 ((convert_each enc vs).0) rest,
          h.0.read_back ((convert_each enc vs).0 ++ rest),
          parse-convert_each vs rest h.1,
        )
        refl

  -- A slice of fewer than 256 elements that each come back, comes back.
  pub parse_array-convert_slice :
      (vs : List V) (rest : Bytes)
      → length vs < 256
      → All (RoundTrips enc dec) vs
      → parse_array (some dec) ((convert_slice (some enc) vs).0 ++ rest) ≡ ok (vs, rest)
  unfolding convert_slice parse_array
  parse_array-convert_slice vs rest small h =
      let count =
        parse-convert_dynamic_uint (length vs) ((convert_each enc vs).0 ++ rest) (omega arith) in
      rw
        (
          andthen-none (convert_dynamic_uint (length vs)) (convert_each enc vs) count.1
              (convert_each-ok vs h),
          append_assoc ((convert_dynamic_uint (length vs)).0) ((convert_each enc vs).0) rest,
          count.0,
          rounds-byte (length vs) small,
        )
        (parse-convert_each vs rest h)

module _ {ℓ κ} {K : Type ℓ} {V : Type κ} (enc_k : Writer K) (dec_k : Parser K) (enc_v : Writer V)
    (dec_v : Parser V) where
  abbrev pub EntryRoundTrips : K × V → Type (ℓ ⊔ κ)
  EntryRoundTrips (k, v) = RoundTrips enc_k dec_k k × RoundTrips enc_v dec_v v

  -- one entry on its way out
  pub entry-written :
      (k : K) (v : V) (w : Written)
      → EntryRoundTrips (k, v)
      → w.1 ≡ none
      → (enc_k k andthen enc_v v andthen w) ≡ ((enc_k k).0 ++ (enc_v v).0 ++ w.0, none)
  entry-written k v w (hk, hv) hw =
      rw (andthen-none (enc_k k) (enc_v v) hk.written hv.written)
        (andthen-none ((enc_k k).0 ++ (enc_v v).0, none) w refl hw)

  pub convert_entries-ok :
      (es : Map K V) → All EntryRoundTrips es → (convert_entries enc_k enc_v es).1 ≡ none
  unfolding convert_entries
  convert_entries-ok [] h = refl
  convert_entries-ok ((k, v) ∷ es) h =
      ap (λ (w : Written). w.1)
        (entry-written k v (convert_entries enc_k enc_v es) h.0 (convert_entries-ok es h.1))

  pub entry_bytes :
      (k : K) (v : V) (tail rest : Bytes)
      → (enc_k k).0 ++ (enc_v v).0 ++ tail ++ rest ≡ (enc_k k).0 ++ ((enc_v v).0 ++ (tail ++ rest))
  entry_bytes k v tail rest = simp append_assoc

module _ {ℓ κ} {K : Type ℓ} ⦃e : Eq K⦄ {V : Type κ} (enc_k : Writer K) (dec_k : Parser K)
    (enc_v : Writer V) (dec_v : Parser V) where
  parse-convert_entries :
      (es m : Map K V) (rest : Bytes)
      → All (EntryRoundTrips enc_k dec_k enc_v dec_v) es
      → parse_entries dec_k dec_v (length es) m ((convert_entries enc_k enc_v es).0 ++ rest)
        ≡ (set_all m es, ok rest)
  unfolding convert_entries parse_entries set_all
  parse-convert_entries [] m rest h = refl
  parse-convert_entries ((k, v) ∷ es) m rest h =
      let tail = (convert_entries enc_k enc_v es).0 in
      rw
        (
          entry-written enc_k dec_k enc_v dec_v k v (convert_entries enc_k enc_v es) h.0
              (convert_entries-ok enc_k dec_k enc_v dec_v es h.1),
          entry_bytes enc_k dec_k enc_v dec_v k v tail rest,
          h.0.0.read_back ((enc_v v).0 ++ (tail ++ rest)),
          h.0.1.read_back (tail ++ rest),
        )
        (parse-convert_entries es (set k v m) rest h.1)

  -- A map of fewer than 256 entries with distinct keys, whose keys and values each come back,
  -- comes back entry for entry, in whatever order it was written.
  pub parse_map-convert_map :
      (m : Map K V) (rest : Bytes)
      → IsMap m
      → length m < 256
      → All (EntryRoundTrips enc_k dec_k enc_v dec_v) m
      → parse_map (some dec_k) (some dec_v) ((convert_map (some enc_k) (some enc_v) m).0 ++ rest)
        ≡ (m, ok rest)
  unfolding convert_map parse_map
  parse_map-convert_map m rest v small h =
      let tail = (convert_entries enc_k enc_v m).0 in
      let count = parse-convert_dynamic_uint (length m) (tail ++ rest) (omega arith) in
      rw
        (
          andthen-none (convert_dynamic_uint (length m)) (convert_entries enc_k enc_v m) count.1
              (convert_entries-ok enc_k dec_k enc_v dec_v m h),
          append_assoc ((convert_dynamic_uint (length m)).0) tail rest,
          count.0,
          parse_map,
          rounds-byte (length m) small,
        )
        (parse-convert_entries m [] rest h ∙ ap (λ t. (t, ok rest)) (set_all-append [] m v))
