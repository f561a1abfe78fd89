-- ===== src/Database/Codec/Numbers.antt =====
-- What the number codecs of DatabaseShared.go read back.
use go_webtools.Base.{
  ℕ, zero, suc, ◌%◌, ◌^◌, ◌≤◌, ◌<◌, ◌≡◌, refl, ap, Bool, true, false, [], ◌∷◌, ◌++◌, none, some,
  Bytes, length, arith,
}
use go_webtools.Base.Words.{le_bytes, of_le, be_bytes, length-be_bytes, of_be-be_bytes}
use go_webtools.Database.Stream.{invalid, ok, read, filled}
use go_webtools.Database.Stream.Laws.{read-append}
use go_webtools.Database.Codec.{
  calculate_byte_size, convert_uint16, parse_uint16, convert_uint32, parse_uint32, convert_uint64,
  parse_uint64, convert_bool, parse_bool, convert_dynamic_uint, parse_dynamic_uint, convert_uint_x,
  parse_uint_x, ceil_division,
}

-- A uint16 is read back as it was written.
pub parse-convert_uint16 :
    (v : ℕ) (rest : Bytes) → v < 2 ^ 16 → parse_uint16 ((convert_uint16 v).0 ++ rest) ≡ ok (v, rest)
unfolding parse_uint16 convert_uint16
parse-convert_uint16 v rest h =
    rw (read-append 2 (be_bytes 2 v) rest (length-be_bytes 2 v), of_be-be_bytes 2 v h)

-- A uint32 is read back as it was written.
pub parse-convert_uint32 :
    (v : ℕ) (rest : Bytes) → v < 2 ^ 32 → parse_uint32 ((convert_uint32 v).0 ++ rest) ≡ ok (v, rest)
unfolding parse_uint32 convert_uint32
parse-convert_uint32 v rest h =
    rw (read-append 4 (be_bytes 4 v) rest (length-be_bytes 4 v), of_be-be_bytes 4 v h)

-- A uint64 is read back as it was written, and what follows it is left.
pub parse-convert_uint64 :
    (v : ℕ) (rest : Bytes) → v < 2 ^ 64 → parse_uint64 ((convert_uint64 v).0 ++ rest) ≡ ok (v, rest)
unfolding parse_uint64 convert_uint64
parse-convert_uint64 v rest h =
    rw (read-append 8 (be_bytes 8 v) rest (length-be_bytes 8 v), of_be-be_bytes 8 v h)

-- A boolean is read back as it was written.
pub parse-convert_bool :
    (b : Bool) (rest : Bytes) → parse_bool ((convert_bool b).0 ++ rest) ≡ ok (b, rest)
unfolding parse_bool convert_bool read filled
parse-convert_bool true rest = refl
parse-convert_bool false rest = refl

pub byte_size_range :
    (v : ℕ) → v ≤ 2 ^ 56 → (1 ≤ calculate_byte_size v) × (calculate_byte_size v ≤ 7)
unfolding calculate_byte_size
byte_size_range v h = ground arith

pub byte_size_large : (v : ℕ) → 2 ^ 56 < v → calculate_byte_size v ≡ 255
unfolding calculate_byte_size
byte_size_large v h = ground arith

pub convert_uint_x_byte :
    (size v : ℕ) → 1 ≤ size → size ≤ 8 → convert_uint_x size v ≡ (v % 256 ∷ [], none)
unfolding convert_uint_x le_bytes
convert_uint_x_byte size v h k =
    let one : ceil_division size 8 ≡ 1 = unfold ceil_division in omega arith in rw one

pub parse_uint_x_byte :
    (size b : ℕ) (rest : Bytes) → 1 ≤ size → size ≤ 8 → parse_uint_x size (b ∷ rest) ≡ ok (b, rest)
unfolding parse_uint_x of_le read filled
parse_uint_x_byte size b rest h k =
    let one : ceil_division size 8 ≡ 1 = unfold ceil_division in omega arith in
    rw one (ap (λ n. ok (n, rest)) (omega arith))

-- What a dynamic uint writes: nothing for 0 but the byte 0, and for every other value up to 2^56
-- a size and the lowest byte alone, whatever the size.
pub convert_dynamic_uint_bytes :
    (v : ℕ)
    → 0 < v
    → v ≤ 2 ^ 56
    → convert_dynamic_uint v ≡ (calculate_byte_size v ∷ v % 256 ∷ [], none)
unfolding convert_dynamic_uint
convert_dynamic_uint_bytes v pos h =
    ground (arith, byte_size_range v h, convert_uint_x_byte (calculate_byte_size v) v)

pub length-convert_dynamic_uint : (v : ℕ) → v ≤ 2 ^ 56 → 0 < length ((convert_dynamic_uint v).0)
length-convert_dynamic_uint zero h = unfold convert_dynamic_uint in omega arith
length-convert_dynamic_uint (suc v) h =
    rw (convert_dynamic_uint_bytes (suc v) (omega arith) h) (omega arith)

-- A dynamic uint of at most 2^56 is written without an error, and is read back modulo 256: only
-- its lowest byte is kept.
pub parse-convert_dynamic_uint :
    (v : ℕ) (rest : Bytes)
    → v ≤ 2 ^ 56
    → (parse_dynamic_uint ((convert_dynamic_uint v).0 ++ rest) ≡ ok (v % 256, rest))
      × ((convert_dynamic_uint v).1 ≡ none)
unfolding read
parse-convert_dynamic_uint zero rest h =
    unfold convert_dynamic_uint parse_dynamic_uint in (refl, refl)
parse-convert_dynamic_uint (suc v) rest h =
    rw (convert_dynamic_uint_bytes (suc v) (omega arith) h) (
      unfold parse_dynamic_uint in
          ground (
            arith,
            byte_size_range (suc v) h,
            parse_uint_x_byte (calculate_byte_size (suc v)) (suc v % 256) rest,
          ),
      refl,
    )

-- A dynamic uint above 2^56 is refused, and nothing is written.
pub convert_dynamic_uint-large : (v : ℕ) → 2 ^ 56 < v → convert_dynamic_uint v ≡ ([], some invalid)
unfolding convert_dynamic_uint
convert_dynamic_uint-large v h = ground (arith, byte_size_large v h)
