-- ===== src/Helpers/Width.antt =====
-- The unsigned types that helpertools/BitOperations.go is generic over, and their sizes.
use go_webtools.Base.{ℕ, ◌*◌, ◌^◌, ◌≡◌, arith}

pub data Width : Type 0 where
  uint8 uint16 uint32 uint64 : Width

-- unsafe.Sizeof
abbrev pub get_byte_size : Width → ℕ
get_byte_size uint8 = 1
get_byte_size uint16 = 2
get_byte_size uint32 = 4
get_byte_size uint64 = 8

abbrev pub get_bit_size : Width → ℕ
get_bit_size t = get_byte_size t * 2 ^ 3

abbrev pub get_bit_shift_size : Width → ℕ
get_bit_shift_size uint8 = 3
get_bit_shift_size uint16 = 4
get_bit_shift_size uint32 = 5
get_bit_shift_size uint64 = 6

-- the number of values
abbrev pub modulus : Width → ℕ
modulus t = 2 ^ get_bit_size t

pub bytes-modulus : (k : Width) → 256 ^ get_byte_size k ≡ modulus k
bytes-modulus uint8 = omega arith
bytes-modulus uint16 = omega arith
bytes-modulus uint32 = omega arith
bytes-modulus uint64 = omega arith
