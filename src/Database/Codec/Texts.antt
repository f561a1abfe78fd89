-- ===== src/Database/Codec/Texts.antt =====
-- What ConvertStringToBytesDB and ParseStringDB of DatabaseShared.go do to a string.
use go_webtools.Base.{
  ℕ, ◌%◌, ◌^◌, ◌≤◌, ◌<◌, ◌≡◌, ◌∙◌, refl, ap, [], ◌∷◌, ◌++◌, none, some, Bytes, length, take, drop,
  append_assoc, ltb, le→ltb, Bool, true, false, length-append, take_length, drop-length, arith,
}
use go_webtools.Database.Stream.{ok, err, panic, read, ◌andthen◌, Written}
use go_webtools.Database.Stream.Laws.{read_prefix, length-read, >>=-eq-ok}
use go_webtools.Database.Codec.{
  ceil_division, parse_uint8, parse_uint_x, convert_dynamic_uint, parse_dynamic_uint,
  convert_string, read_string, parse_string,
}
use go_webtools.Database.Codec.Numbers.{parse-convert_dynamic_uint, length-convert_dynamic_uint}

-- a successful write followed by another
pub andthen_of_none : (v w : Written) → v.1 ≡ none → (v andthen w) ≡ (v.0 ++ w.0, w.1)
andthen_of_none (b, none) w h = refl
andthen_of_none (b, some e) w h = cc

convert_string_bytes :
    (s : Bytes)
    → length s ≤ 2 ^ 56
    → convert_string s ≡ ((convert_dynamic_uint (length s)).0 ++ s, none)
unfolding convert_string
convert_string_bytes s h =
    andthen_of_none (convert_dynamic_uint (length s)) (s, none)
      (parse-convert_dynamic_uint (length s) [] h).1

pub read_string-small : (n : ℕ) (r : Bytes) → n ≤ 2 ^ 48 → read_string n r ≡ read n r
unfolding read_string
read_string-small n r h = rw (read_string, le→ltb (2 ^ 48) n h) refl

length-read_string : (n : ℕ) (r s r' : Bytes) → read_string n r ≡ ok (s, r') → length r' ≤ length r
unfolding read_string
length-read_string n r s r' = either (ltb (2 ^ 48) n)
  where
    either :
        (huge : Bool)
        → elim huge [ true ↦ err panic | false ↦ read n r ] ≡ ok (s, r')
        → length r' ≤ length r
    either true h = cc
    either false h = length-read n r s r' h

-- What is read back of a string of at most 2^56 bytes: as many of its bytes as its length modulo
-- 256 says. The others stay in front of what follows in the stream.
pub parse-convert_string :
    (s rest : Bytes)
    → length s ≤ 2 ^ 56
    → parse_string ((convert_string s).0 ++ rest)
      ≡ ok (take (length s % 256) s, drop (length s % 256) s ++ rest)
unfolding parse_string
parse-convert_string s rest h =
    let n = length s % 256 in
    rw
      (
        convert_string_bytes s h,
        append_assoc,
        (parse-convert_dynamic_uint (length s) (s ++ rest) h).0,
      )
      (read_string-small n (s ++ rest) (omega arith) ∙ read_prefix n s rest (omega arith))

-- A string of fewer than 256 bytes is read back as it was written, and leaves what follows.
pub parse-convert_string_short :
    (s rest : Bytes) → length s < 256 → parse_string ((convert_string s).0 ++ rest) ≡ ok (s, rest)
parse-convert_string_short s rest h =
    let fits : length s % 256 ≡ length s = omega arith in
    parse-convert_string s rest (omega arith) ∙ rw (fits, take_length, drop-length) refl

-- Writing a string of at most 2^56 bytes meets no error, and a longer one is refused.
pub convert_string-ok : (s : Bytes) → length s ≤ 2 ^ 56 → (convert_string s).1 ≡ none
convert_string-ok s h = ap (λ (w : Written). w.1) (convert_string_bytes s h)

-- The first byte of a written string is there.
pub convert_string-nonempty : (s : Bytes) → length s ≤ 2 ^ 56 → 0 < length ((convert_string s).0)
convert_string-nonempty s h = omega (
  arith,
  ap (λ (w : Written). length w.0) (convert_string_bytes s h),
  length-append ((convert_dynamic_uint (length s)).0) s,
  length-convert_dynamic_uint (length s) h,
)

parse_uint8_shrinks : (r r' : Bytes) (v : ℕ) → parse_uint8 r ≡ ok (v, r') → length r' < length r
unfolding parse_uint8 read
parse_uint8_shrinks [] r' v h = cc
parse_uint8_shrinks (x ∷ r) r' v h = ground arith

parse_uint_x_shrinks :
    (size : ℕ) (r r' : Bytes) (v : ℕ) → parse_uint_x size r ≡ ok (v, r') → length r' ≤ length r
unfolding parse_uint_x
parse_uint_x_shrinks size r r' v h =
    let ((bs, r₁), e, done) = >>=-eq-ok _ (read (ceil_division size 8) r) h in
    ground (arith, length-read (ceil_division size 8) r bs r₁ e)

parse_dynamic_uint_shrinks :
    (r r' : Bytes) (v : ℕ) → parse_dynamic_uint r ≡ ok (v, r') → length r' < length r
unfolding parse_dynamic_uint
parse_dynamic_uint_shrinks r r' v h =
    let ((size, r₁), e, done) = >>=-eq-ok _ (parse_uint8 r) h in
    ground (arith, parse_uint8_shrinks r r₁ size e, parse_uint_x_shrinks size r₁ r' v)

-- Reading a string takes at least one byte from the stream.
pub parse_string_shrinks : (r r' s : Bytes) → parse_string r ≡ ok (s, r') → length r' < length r
unfolding parse_string
parse_string_shrinks r r' s h =
    let ((n, r₁), e, done) = >>=-eq-ok _ (parse_dynamic_uint r) h in
    ground (arith, parse_dynamic_uint_shrinks r r₁ n e, length-read_string n r₁ s r' done)
