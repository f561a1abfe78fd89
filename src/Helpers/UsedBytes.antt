-- ===== src/Helpers/UsedBytes.antt =====
-- helpertools/BitOperations.go, CalculateCountOfUsedBytesOfNumber.
use go_webtools.Base.{ℕ, zero, suc, ◌+◌, ◌/◌, ◌==◌, if◌then◌else◌}
use go_webtools.Base.Decimal.{ℤ, pos, negsuc}

-- bits.Len64: the number of binary digits, of which a word has at most 64
abbrev len_digits : ℕ → ℕ → ℕ
len_digits zero x = 0
len_digits (suc most) x = let rest = len_digits most (x / 2) in if x == 0 then 0 else suc rest

abbrev len64 : ℕ → ℕ
len64 = len_digits 64

-- the digits in bytes, rounded up, of the number without its sign
unfoldable pub calculate_count_of_used_bytes : ℤ → ℕ
calculate_count_of_used_bytes (pos n) = if n == 0 then 1 else (len64 n + 7) / 8
calculate_count_of_used_bytes (negsuc n) = (len64 (suc n) + 7) / 8
