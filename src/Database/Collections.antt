-- ===== src/Database/Collections.antt =====
-- database/DatabaseShared.go: ConvertMapToBytesDB, ParseMapDB, ConvertSafeMapToBytesDB,
-- ParseSafeMapDB, ConvertSliceToBytesDB and ParseArrayDB, over functions that the caller supplies.
pub mod Laws
use go_webtools.Base.{
  ℕ, zero, suc, ◌^◌, ◌≡◌, List, [], ◌∷◌, ◌++◌, Option, none, some, Bytes, ltb, if◌then◌else◌, Eq,
  length,
}
use go_webtools.Database.Stream.{
  Error, invalid, Result, ok, err, ◌>>=◌, Parser, Written, Writer, ◌andthen◌,
}
use go_webtools.Database.Codec.{convert_dynamic_uint, parse_dynamic_uint}
use go_webtools.Helpers.SafeMap.{Map, set}

-- the rounds of `for i := 0; i < int(count); i++`: the conversion makes a large count negative
unfoldable pub rounds : ℕ → ℕ
rounds count = if ltb count (2 ^ 63) then count else 0

module _ {ℓ} {V : Type ℓ} where
  -- the loop over the slice
  unfoldable pub convert_each : Writer V → Writer (List V)
  convert_each enc [] = ([], none)
  convert_each enc (v ∷ vs) = enc v andthen convert_each enc vs

  -- `none` is a nil function
  unfoldable pub convert_slice : Option (Writer V) → Writer (List V)
  unfolding convert_each
  convert_slice none vs = ([], some invalid)
  convert_slice (some enc) vs = convert_dynamic_uint (length vs) andthen convert_each enc vs

  unfoldable pub parse_each : Parser V → ℕ → Parser (List V)
  parse_each dec zero r = ok ([], r)
  parse_each dec (suc n) r = do (v, r') ← dec r; (vs, r'') ← parse_each dec n r'; ok (v ∷ vs, r'')

  unfoldable pub parse_array : Option (Parser V) → Parser (List V)
  unfolding parse_each rounds
  parse_array none r = err invalid
  parse_array (some dec) r =
      parse_dynamic_uint r >>= λ (count, r'). parse_each dec (rounds count) r'

-- A map is written in the order in which Go's `range` happens to visit it: the order of the list.
module _ {ℓ κ} {K : Type ℓ} {V : Type κ} where
  unfoldable pub convert_entries : Writer K → Writer V → Writer (Map K V)
  convert_entries enc_k enc_v [] = ([], none)
  convert_entries enc_k enc_v ((k, v) ∷ m) =
      enc_k k andthen enc_v v andthen convert_entries enc_k enc_v m

  unfoldable pub convert_map : Option (Writer K) → Option (Writer V) → Writer (Map K V)
  unfolding convert_entries
  convert_map (some enc_k) (some enc_v) m =
      convert_dynamic_uint (length m) andthen convert_entries enc_k enc_v m
  convert_map _ _ m = ([], some invalid)

module _ {ℓ κ} {K : Type ℓ} ⦃e : Eq K⦄ {V : Type κ} where
  -- the loop over the rows; on an error Go returns the rows read so far beside it
  unfoldable pub parse_entries : Parser K → Parser V → ℕ → Map K V → Bytes → Map K V × Result Bytes
  unfolding set
  parse_entries dec_k dec_v zero m r = (m, ok r)
  parse_entries dec_k dec_v (suc n) m r = elim (dec_k r) [
    | err x ↦ (m, err x)
    | ok (k, r') ↦ elim (dec_v r') [
      | err x ↦ (m, err x)
      | ok (v, r'') ↦ parse_entries dec_k dec_v n (set k v m) r''
    ]
  ]

  unfoldable pub parse_map : Option (Parser K) → Option (Parser V) → Bytes → Map K V × Result Bytes
  unfolding parse_entries rounds
  parse_map (some dec_k) (some dec_v) r = elim (parse_dynamic_uint r) [
    | err x ↦ ([], err x)
    | ok (count, r') ↦ parse_entries dec_k dec_v (rounds count) [] r'
  ]
  parse_map _ _ r = ([], err invalid)
