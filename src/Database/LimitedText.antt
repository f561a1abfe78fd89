-- ===== src/Database/LimitedText.antt =====
-- database/LimitedString.go: a string whose length is stored in a chosen number of bytes.
use go_webtools.Base.{
  ℕ, zero, suc, ◌-◌, ◌*◌, ◌%◌, ◌^◌, ◌≤◌, ◌≡◌, refl, [], ◌++◌, Option, none, some, Bytes, ltb, leb,
  ◌||◌, ◌&&◌, if◌then◌else◌, length, take, drop, arith,
}
use go_webtools.Database.Stream.{
  Error, too_long, panic, Result, ok, err, ◌>>=◌, Parser, Written, ◌andthen◌,
}
use go_webtools.Database.Stream.Laws.{read_prefix}
use go_webtools.Database.Codec.{convert_uint_x, parse_uint_x, read_string}
use go_webtools.Database.Codec.Texts.{read_string-small}
use go_webtools.Database.Codec.Numbers.{convert_uint_x_byte, parse_uint_x_byte}

pub record LimitedString : Type 0 where
  pub value : Bytes
  pub length_store_byte_size : ℕ

unfoldable pub make_limited_string : ℕ → Result LimitedString
make_limited_string size =
    if ltb size 1 || ltb 8 size
    then err panic
    else ok (record { value = []; length_store_byte_size = size })

-- `(1 << (size * 8)) - 1` at int: for 8 bytes the shift leaves 0, and the result is -1, for which
-- `none` stands
pub max_length : LimitedString → Option ℕ
max_length s =
    let power = 2 ^ (s.length_store_byte_size * 8 % 256) % 2 ^ 64 in
    if ltb power 1 then none else some (power - 1)

-- Set, whose comparison `len(value) >= max` always holds against -1
pub set_value : LimitedString → Bytes → LimitedString × Option Error
unfolding max_length
set_value s text = elim (max_length s) [
  | none ↦ (s, some too_long)
  | some n ↦ if leb n (length text) then (s, some too_long) else (record s { value = text }, none)
]

pub convert_limited_string : LimitedString → Written
convert_limited_string s =
    convert_uint_x s.length_store_byte_size (length s.value) andthen (s.value, none)

-- ParseBytesDB fills an object that knows its size
pub parse_limited_string : LimitedString → Parser LimitedString
parse_limited_string s r = do
  (n, r') ← parse_uint_x s.length_store_byte_size r
  (text, r'') ← read_string n r'
  ok (record s { value = text }, r'')

set_value_made :
    (size : ℕ) (v text : Bytes)
    → 1 ≤ size
    → size ≤ 8
    → let s : LimitedString = record { value = v; length_store_byte_size = size } in
      set_value s text ≡ (
        if ltb size 8 && ltb (length text) (2 ^ (8 * size) - 1)
        then (record s { value = text }, none)
        else (s, some too_long))
unfolding set_value
set_value_made zero v text h k = absurd (omega arith)
set_value_made (suc zero) v text h k = ground arith
set_value_made (suc (suc zero)) v text h k = ground arith
set_value_made (suc (suc (suc zero))) v text h k = ground arith
set_value_made (suc (suc (suc (suc zero)))) v text h k = ground arith
set_value_made (suc (suc (suc (suc (suc zero))))) v text h k = ground arith
set_value_made (suc (suc (suc (suc (suc (suc zero)))))) v text h k = ground arith
set_value_made (suc (suc (suc (suc (suc (suc (suc zero))))))) v text h k = ground arith
set_value_made (suc (suc (suc (suc (suc (suc (suc (suc zero)))))))) v text h k = ground arith
set_value_made (suc (suc (suc (suc (suc (suc (suc (suc (suc n))))))))) v text h k =
    absurd (omega arith)

make-range :
    (size : ℕ) (s : LimitedString)
    → make_limited_string size ≡ ok s
    → (1 ≤ size) × (size ≤ 8) × (s ≡ record { value = []; length_store_byte_size = size })
unfolding make_limited_string
make-range size s h = ground arith

-- An object made for `size` bytes of length takes a text exactly when `size` is not 8 and the text
-- is shorter than 2^(8 size) - 1, the longest length that MakeLimitedString documents: a text of
-- just that length is refused. A refused text changes nothing, and is reported as too long.
pub set_value_lem :
    (size : ℕ) (s : LimitedString) (text : Bytes)
    → make_limited_string size ≡ ok s
    → set_value s text ≡ (
        if ltb size 8 && ltb (length text) (2 ^ (8 * size) - 1)
        then (record s { value = text }, none)
        else (s, some too_long))
set_value_lem size s text h =
    let (low, high, made) = make-range size s h in rw made (set_value_made size [] text low high)

-- What is read back of a limited string for a stored length of one to eight bytes: as many bytes
-- of its text as its length modulo 256 says, whatever size of the stored length it was made for;
-- the other bytes of the text stay in the stream.
pub parse-convert_limited_string :
    (s : LimitedString) (rest : Bytes)
    → 1 ≤ s.length_store_byte_size
    → s.length_store_byte_size ≤ 8
    → parse_limited_string s ((convert_limited_string s).0 ++ rest)
      ≡ ok (
        record s { value = take (length s.value % 256) s.value },
        drop (length s.value % 256) s.value ++ rest,
      )
unfolding parse_limited_string convert_limited_string
parse-convert_limited_string s rest h k =
    let n = length s.value % 256 in
    rw
      (
        convert_uint_x_byte s.length_store_byte_size (length s.value) h k,
        parse_uint_x_byte s.length_store_byte_size n (s.value ++ rest) h k,
        read_string-small n (s.value ++ rest) (omega arith),
        read_prefix n s.value rest (omega arith),
      )
      refl
