-- ===== src/Database/Codec.antt =====
-- database/DatabaseShared.go: numbers, strings and booleans as bytes.
pub mod Numbers
pub mod Texts
use go_webtools.Base.{
  ℕ, zero, suc, ◌+◌, ◌-◌, ◌*◌, ◌/◌, ◌%◌, ◌^◌, ◌≡◌, Bool, true, false, List, [], ◌∷◌, ◌++◌, Option,
  none, some, Bytes, ltb, leb, ◌==◌, if◌then◌else◌, length, take, get_or,
}
use go_webtools.Base.Words.{le_bytes, of_le, be_bytes, of_be}
use go_webtools.Database.Stream.{
  Error, eof, invalid, panic, Result, ok, err, ◌>>=◌, Parser, Written, Writer, ◌andthen◌, filled,
  read,
}

-- CeilDivision at uint8: the sum wraps
unfoldable pub ceil_division : ℕ → ℕ → ℕ
ceil_division a b = ((a + b + 255) % 256) / b

-- `dataByte[0:n]` of eight bytes panics past their end
unfoldable pub convert_uint_x : ℕ → Writer ℕ
unfolding ceil_division
convert_uint_x size value =
    let n = ceil_division size 8 in
    if leb n 8 then (take n (le_bytes 8 value), none) else ([], some panic)

-- `copy(parseByte, dataByte)` into eight zero bytes
unfoldable pub parse_uint_x : ℕ → Parser ℕ
unfolding ceil_division
parse_uint_x size r =
    read (ceil_division size 8) r >>= λ (bytes, r'). ok (of_le (filled 8 bytes), r')

-- `1 << k` at uint, which is 64 bits wide
abbrev shl_one : ℕ → ℕ
shl_one k = 2 ^ k % 2 ^ 64

-- the loop of calculateByteSizeFromInt, from `i` on, with `left` rounds left
byte_size_from : ℕ → ℕ → ℕ → ℕ
byte_size_from zero i value = 255
byte_size_from (suc left) i value =
    let rest = byte_size_from left (i + 1) value in if leb value (shl_one (8 * i)) then i else rest

unfoldable pub calculate_byte_size : ℕ → ℕ
unfolding byte_size_from
calculate_byte_size value = byte_size_from 8 1 value

unfoldable pub convert_uint8 : Writer ℕ
convert_uint8 value = (value ∷ [], none)

unfoldable pub parse_uint8 : Parser ℕ
parse_uint8 r = read 1 r >>= λ (bytes, r'). ok (get_or bytes 0 0, r')

unfoldable pub convert_dynamic_uint : Writer ℕ
unfolding convert_uint8 convert_uint_x calculate_byte_size
convert_dynamic_uint value =
    let size = (if value == 0 then 0 else calculate_byte_size value) in
    if size == 255
    then ([], some invalid)
    else (if size == 0
        then convert_uint8 size
        else convert_uint8 size andthen convert_uint_x size value)

unfoldable pub parse_dynamic_uint : Parser ℕ
unfolding parse_uint8 parse_uint_x
parse_dynamic_uint r =
    parse_uint8 r >>= λ (size, r'). if size == 0 then ok (0, r') else parse_uint_x size r'

unfoldable pub convert_string : Writer Bytes
unfolding convert_dynamic_uint
convert_string text = convert_dynamic_uint (length text) andthen (text, none)

-- The bytes of a string. `make` panics past the largest allocation of a 64-bit program, which is of
-- 2^48 bytes on amd64; up to it, the memory is taken to be there.
unfoldable pub read_string : ℕ → Parser Bytes
unfolding read
read_string n r = elim (ltb (2 ^ 48) n) [ true ↦ err panic | false ↦ read n r ]

unfoldable pub parse_string : Parser Bytes
unfolding parse_dynamic_uint read_string
parse_string r = parse_dynamic_uint r >>= λ (n, r'). read_string n r'

unfoldable pub convert_uint16 : Writer ℕ
convert_uint16 value = (be_bytes 2 value, none)

unfoldable pub parse_uint16 : Parser ℕ
parse_uint16 r = read 2 r >>= λ (bytes, r'). ok (of_be bytes, r')

unfoldable pub convert_uint32 : Writer ℕ
convert_uint32 value = (be_bytes 4 value, none)

unfoldable pub parse_uint32 : Parser ℕ
parse_uint32 r = read 4 r >>= λ (bytes, r'). ok (of_be bytes, r')

unfoldable pub convert_uint64 : Writer ℕ
convert_uint64 value = (be_bytes 8 value, none)

unfoldable pub parse_uint64 : Parser ℕ
parse_uint64 r = read 8 r >>= λ (bytes, r'). ok (of_be bytes, r')

unfoldable pub convert_bool : Writer Bool
convert_bool flag = ((if flag then 2 else 1) ∷ [], none)

unfoldable pub parse_bool : Parser Bool
parse_bool r = read 1 r >>= λ (bytes, r'). ok (get_or bytes 0 0 == 2, r')
