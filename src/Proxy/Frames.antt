-- ===== src/Proxy/Frames.antt =====
-- proxy/Frames.go: frames `operation;id;length;data`, packed one after another.
-- The log lines of UnpackWebtoolsFrame are left out.
pub mod Fuel
pub mod RoundTrip
use go_webtools.Base.{
  ℕ, zero, suc, ◌+◌, ◌-◌, ◌^◌, ◌≡◌, Bool, true, false, List, [], ◌∷◌, ◌++◌, Option, none, some,
  Bytes, ltb, leb, ◌==◌, if◌then◌else◌, length, take, drop,
}
use go_webtools.Base.Decimal.{ℤ, pos, negsuc, itoa, atoi}

abbrev pub frame_separator_char : ℕ
frame_separator_char = b';'

abbrev pub frame_type_connect : ℕ
frame_type_connect = 1

abbrev pub frame_type_close : ℕ
frame_type_close = 2

abbrev pub frame_type_data : ℕ
frame_type_data = 3

pub record UnpackedFrame : Type 0 where
  pub operation : ℕ
  pub id : Bytes
  pub payload : Bytes

unfoldable pub pack_webtools_frame : ℕ → Bytes → Bytes → Bytes
pack_webtools_frame operation id payload =
    operation
    ∷ frame_separator_char
    ∷ (id ++ (frame_separator_char ∷ (itoa (length payload) ++ (frame_separator_char ∷ payload))))

-- The end of an unpack: the frames (none at all for Go's nil), a slice bounds panic, or the fuel
-- of the model running out.
pub data Unpacked : Type 0 where
  frames : List UnpackedFrame → Unpacked
  panic out_of_fuel : Unpacked

-- the bytes before the first separator and those behind it
unfoldable pub cut : Bytes → Option (Bytes × Bytes)
cut [] = none
cut (c ∷ cs) =
    if c == frame_separator_char
    then some ([], cs)
    else elim (cut cs) [ none ↦ none | some (a, b) ↦ some (c ∷ a, b) ]

-- the frame in front of the frames that follow
abbrev pub in_front : UnpackedFrame → Unpacked → Unpacked
in_front f (frames fs) = frames (f ∷ fs)
in_front f panic = panic
in_front f out_of_fuel = out_of_fuel

-- `lenOfData - 1` where that is positive; -1 and below stay
abbrev pub decremented : ℤ → ℤ
decremented (pos n) = pos (n - 1)
decremented (negsuc n) = negsuc n

-- The two tests of the length field, `tail` being `frame[i+1:]`: with enough bytes behind the field
-- the data is `frame[i+1 : i+2+n]` and the rest is unpacked, by `again`. With too few, the sum
-- `i + n + 1` may pass the largest int: it is negative then, passes the test, and the slice panics.
-- With enough it cannot, since a slice has no more bytes than that. A negative `n` passes the test,
-- cuts nothing at -1 and panics below.
unfoldable pub take_data : (Bytes → Unpacked) → ℕ → Bytes → ℕ → ℤ → Bytes → Unpacked
take_data again operation id i (pos n) tail =
    let rest = again (drop (n + 1) tail) in
    if ltb n (length tail)
    then in_front (record { operation = operation; id = id; payload = take (n + 1) tail }) rest
    else (if leb (2 ^ 63) (i + n + 1)
        then panic
        else frames (record { operation = operation; id = id; payload = [] } ∷ []))
take_data again operation id i (negsuc zero) tail =
    in_front (record { operation = operation; id = id; payload = [] }) (again tail)
take_data again operation id i (negsuc (suc n)) tail = panic

-- Atoi of the length field
unfoldable pub take_number : (Bytes → Unpacked) → ℕ → Bytes → ℕ → Bytes → Option ℤ → Unpacked
unfolding take_data
take_number again operation id i tail none = frames []
take_number again operation id i tail (some n) = take_data again operation id i (decremented n) tail

-- behind the id: the second separator, which is at `i`, or none of it
unfoldable pub take_length : (Bytes → Unpacked) → ℕ → Bytes → Option (Bytes × Bytes) → Unpacked
unfolding take_number
take_length again operation id none =
    frames (record { operation = operation; id = id; payload = [] } ∷ [])
take_length again operation id (some (text, tail)) =
    take_number again operation id (length id + length text + 3) tail (atoi text)

-- behind index 1: the first separator, or none of it
unfoldable pub take_id : (Bytes → Unpacked) → ℕ → Option (Bytes × Bytes) → Unpacked
unfolding take_length cut
take_id again operation none = frames (record { operation = operation; id = []; payload = [] } ∷ [])
take_id again operation (some (id, r)) = take_length again operation id (cut r)

unfoldable pub unpack_fuel : ℕ → Bytes → Unpacked
unfolding take_id cut
unpack_fuel zero frame = out_of_fuel
unpack_fuel (suc fuel) [] = frames []
unpack_fuel (suc fuel) (operation ∷ []) = frames []
unpack_fuel (suc fuel) (operation ∷ s ∷ r) =
    let found = take_id (λ b. unpack_fuel fuel b) operation (cut r) in
    if s == frame_separator_char then found else frames []

-- Each call of itself is on a shorter frame, so as many rounds as there are bytes are enough.
unfoldable pub unpack_webtools_frame : Bytes → Unpacked
unfolding unpack_fuel
unpack_webtools_frame frame = unpack_fuel (suc (length frame)) frame
