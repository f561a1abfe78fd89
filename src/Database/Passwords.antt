-- ===== src/Database/Passwords.antt =====
-- database/DatabaseShared.go: password objects and points in time as bytes. encoding/hex writes each
-- byte as two digits and reads digits of either case.
use go_webtools.Base.{
  ℕ, ◌+◌, ◌-◌, ◌*◌, ◌/◌, ◌%◌, ◌<◌, ◌≡◌, refl, ap, ◌&&◌, [], ◌∷◌, ◌++◌, append_assoc, Option, none,
  some, Bytes, ltb, leb, ◌==◌, if◌then◌else◌, length, arith,
}
use go_webtools.Database.Stream.{other, ok, ◌>>=◌, Parser, Written, Writer, read}
use go_webtools.Database.Stream.Laws.{read-append}
use go_webtools.Database.Codec.{convert_uint64, parse_uint64}

-- encryption.PasswordObject
pub record PasswordObject : Type 0 where
  pub salt : Bytes
  pub hash : Bytes

unfoldable pub hex_digit : ℕ → ℕ
hex_digit d = if ltb d 10 then 48 + d else 87 + d

unfoldable pub from_hex_digit : ℕ → Option ℕ
from_hex_digit c =
    if leb 48 c && leb c 57
    then some (c - 48)
    else (if leb 97 c && leb c 102
        then some (c - 87)
        else (if leb 65 c && leb c 70 then some (c - 55) else none))

unfoldable pub hex_encode_to_string : Bytes → Bytes
unfolding hex_digit
hex_encode_to_string [] = []
hex_encode_to_string (x ∷ b) = hex_digit (x / 16) ∷ hex_digit (x % 16) ∷ hex_encode_to_string b

-- `none` is its error, for a character that is no digit or an odd number of them
unfoldable pub hex_decode_string : Bytes → Option Bytes
unfolding from_hex_digit
hex_decode_string [] = some []
hex_decode_string (c ∷ []) = none
hex_decode_string (c ∷ d ∷ s) = elim (from_hex_digit c) [
  | none ↦ none
  | some high ↦ elim (from_hex_digit d) [
    | none ↦ none
    | some low ↦ elim (hex_decode_string s) [ none ↦ none | some b ↦ some ((16 * high + low) ∷ b) ]
  ]
]

-- `other 0` is an error of encoding/hex, `other 1` that of the salt size
unfoldable pub convert_password_object : Writer PasswordObject
unfolding hex_decode_string
convert_password_object password = elim (hex_decode_string password.salt) [
  | none ↦ ([], some (other 0))
  | some salt ↦
      if length salt == 64
      then elim (hex_decode_string password.hash) [
        | none ↦ ([], some (other 0))
        | some hash ↦ (salt ++ hash, none)
      ]
      else ([], some (other 1))
]

unfoldable pub parse_password_object : Parser PasswordObject
unfolding hex_encode_to_string
parse_password_object r = read 64 r >>= λ (salt, r₁). read 64 r₁ >>= λ (hash, r₂).
    ok (record { salt = hex_encode_to_string salt; hash = hex_encode_to_string hash }, r₂)

-- the nanoseconds of the time as an int64, at uint64
unfoldable pub convert_time : Writer ℕ
unfolding convert_uint64
convert_time nanoseconds = convert_uint64 nanoseconds

unfoldable pub parse_time : Parser ℕ
unfolding parse_uint64
parse_time r = parse_uint64 r

abbrev pub AllBytes : Bytes → Type 0
AllBytes [] = Unit {0}
AllBytes (x ∷ b) = (x < 256) × AllBytes b

from_hex_digit-hex_digit : (d : ℕ) → d < 16 → from_hex_digit (hex_digit d) ≡ some d
unfolding from_hex_digit hex_digit
from_hex_digit-hex_digit d h = ground arith

hex_decode-encode : (b : Bytes) → AllBytes b → hex_decode_string (hex_encode_to_string b) ≡ some b
unfolding hex_decode_string hex_encode_to_string
hex_decode-encode [] h = refl
hex_decode-encode (x ∷ b) h =
    let whole : 16 * (x / 16) + x % 16 ≡ x = omega arith in
    rw
      (
        hex_decode_string,
        from_hex_digit-hex_digit (x / 16) (omega (arith, h.0)),
        from_hex_digit-hex_digit (x % 16) (omega arith),
        hex_decode-encode b h.1,
        whole,
      )
      refl

-- the object of 64 bytes of salt and of hash
abbrev pub password_of : (salt hash : Bytes) → PasswordObject
password_of salt hash = record {
  salt = hex_encode_to_string salt;
  hash = hex_encode_to_string hash;
}

convert_password_object-bytes :
    (salt hash : Bytes)
    → AllBytes salt
    → AllBytes hash
    → length salt ≡ 64
    → convert_password_object (password_of salt hash) ≡ (salt ++ hash, none)
unfolding convert_password_object
convert_password_object-bytes salt hash s h m =
    rw (convert_password_object, hex_decode-encode salt s, m, hex_decode-encode hash h) refl

-- A password object whose salt and hash are the digits, in lower case, of 64 bytes each is written
-- without an error and read back as it was, and what follows in the stream is left.
pub parse-convert_password_object :
    (salt hash rest : Bytes)
    → AllBytes salt
    → AllBytes hash
    → length salt ≡ 64
    → length hash ≡ 64
    → ((convert_password_object (password_of salt hash)).1 ≡ none)
      × (parse_password_object ((convert_password_object (password_of salt hash)).0 ++ rest)
          ≡ ok (password_of salt hash, rest))
unfolding parse_password_object
parse-convert_password_object salt hash rest s h m n =
    let bytes = convert_password_object-bytes salt hash s h m in
    (
      ap (λ (w : Written). w.1) bytes,
      rw
          (
            bytes,
            parse_password_object,
            append_assoc salt hash rest,
            read-append 64 salt (hash ++ rest) m,
            read-append 64 hash rest n,
          )
          refl,
    )
