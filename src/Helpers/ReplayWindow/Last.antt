-- ===== src/Helpers/ReplayWindow/Last.antt =====
-- The last bit of an array.
use Prim.Native.Nat.{bit_or}
use go_webtools.Base.{
  ℕ, ◌-◌, ◌*◌, ◌≤◌, ◌<◌, ◌≡◌, refl, List, ◌==◌, if◌then◌else◌, length, get_or, replicate,
  get_or-replicate, length-replicate, length-set, arith,
}
use go_webtools.Helpers.Width.{Width, uint8, uint16, uint32, uint64, get_bit_size}
use go_webtools.Helpers.BitArray.{byte_index, bit_index, set_bit_array}
use go_webtools.Helpers.BitArray.Positions.{bit_at, set_inside, bit_at-set_bit_array}
use go_webtools.Helpers.BitArray.Shift.{AllWords}
use go_webtools.Helpers.BitArray.Kept.{AllWords-set_bit_array}
use go_webtools.Helpers.ReplayWindow.{only_last, set_last}

-- where the last bit is
last_word : (t : Width) (n : ℕ) → 0 < n → byte_index t (n * get_bit_size t - 1) ≡ n - 1
last_word uint8 n h = omega arith
last_word uint16 n h = omega arith
last_word uint32 n h = omega arith
last_word uint64 n h = omega arith

last_place : (t : Width) (n : ℕ) → 0 < n → bit_index t (n * get_bit_size t - 1) ≡ 0
last_place uint8 n h = omega arith
last_place uint16 n h = omega arith
last_place uint32 n h = omega arith
last_place uint64 n h = omega arith

-- a position past the last bit
pub beyond : (t : Width) (n p : ℕ) → n * get_bit_size t ≤ p → n ≤ byte_index t p
beyond uint8 n p h = omega arith
beyond uint16 n p h = omega arith
beyond uint32 n p h = omega arith
beyond uint64 n p h = omega arith

pub within : (t : Width) (n p : ℕ) → p < n * get_bit_size t → byte_index t p < n
within uint8 n p h = omega arith
within uint16 n p h = omega arith
within uint32 n p h = omega arith
within uint64 n p h = omega arith

module _ (t : Width) (b : List ℕ) (some_words : 0 < length b) where
  last : ℕ
  last = length b * get_bit_size t - 1

  inside : byte_index t last < length b
  unfolding last
  inside = omega (arith, last_word t (length b) some_words)

  set_last_is : set_last b ≡ set_bit_array t b last
  unfolding last inside
  set_last_is =
      rw
        (
          set_inside t b last inside,
          last_word t (length b) some_words,
          last_place t (length b) some_words,
        )
        refl

  pub bit_at-set_last :
      (q : ℕ)
      → bit_at t (set_last b) q ≡ (if length b * get_bit_size t - 1 == q then 1 else bit_at t b q)
  unfolding last
  bit_at-set_last q = rw set_last_is (bit_at-set_bit_array t b last inside q)

  pub AllWords-set_last : AllWords t b → AllWords t (set_last b)
  AllWords-set_last h = rw set_last_is (AllWords-set_bit_array t b last h)

pub length-set_last : (b : List ℕ) → length (set_last b) ≡ length b
length-set_last b = length-set b (length b - 1) (bit_or (get_or b (length b - 1) 0) 1)

pub only_last_is : (n : ℕ) → only_last n ≡ set_last (replicate n 0)
only_last_is n = rw (length-replicate {A = ℕ} n 0, get_or-replicate {A = ℕ} n (n - 1) 0) refl
