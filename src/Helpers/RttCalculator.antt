-- ===== src/Helpers/RttCalculator.antt =====
-- helpertools/RTTCalculator.go, and NestedAverage of helpertools/RandomTools.go. A time.Duration is an
-- int64 of nanoseconds, whose sums wrap around, and float64 rounds to 53 binary digits. Every method
-- holds the lock to its end.
pub mod Limits
use go_webtools.Base.{
  ℕ, zero, suc, ◌+◌, ◌-◌, ◌*◌, ◌/◌, ◌%◌, ◌^◌, ◌==◌, ◌&&◌, ◌||◌, Bool, true, false, Option, none,
  some, ltb, if◌then◌else◌,
}
use go_webtools.Base.Decimal.{ℤ, pos, negsuc}

abbrev pub lt_int : ℤ → ℤ → Bool
lt_int (pos a) (pos b) = ltb a b
lt_int (pos a) (negsuc b) = false
lt_int (negsuc a) (pos b) = true
lt_int (negsuc a) (negsuc b) = ltb b a

-- the difference of two natural numbers
abbrev pub minus : ℕ → ℕ → ℤ
minus a b = if ltb a b then negsuc (b - a - 1) else pos (a - b)

abbrev pub negate : ℕ → ℤ
negate n = minus 0 n

abbrev pub add_int : ℤ → ℤ → ℤ
add_int (pos a) (pos b) = pos (a + b)
add_int (pos a) (negsuc b) = minus a (suc b)
add_int (negsuc a) (pos b) = minus b (suc a)
add_int (negsuc a) (negsuc b) = negsuc (a + b + 1)

abbrev pub sub_int : ℤ → ℤ → ℤ
sub_int a (pos b) = add_int a (negate b)
sub_int a (negsuc b) = add_int a (pos (suc b))

-- a factor or a quotient, which rounds towards zero
abbrev pub scale : (ℕ → ℕ) → ℤ → ℤ
scale f (pos n) = pos (f n)
scale f (negsuc n) = negate (f (suc n))

-- an integer at int64, and the operations of time.Duration
unfoldable pub int64 : ℤ → ℤ
int64 (pos n) = let m = n % 2 ^ 64 in if ltb m (2 ^ 63) then pos m else negsuc (2 ^ 64 - m - 1)
int64 (negsuc n) = let m = n % 2 ^ 64 in if ltb m (2 ^ 63) then negsuc m else pos (2 ^ 64 - m - 1)

unfoldable pub add_duration : ℤ → ℤ → ℤ
unfolding int64
add_duration a b = int64 (add_int a b)

unfoldable pub sub_duration : ℤ → ℤ → ℤ
unfolding int64
sub_duration a b = int64 (sub_int a b)

-- The number of binary digits of a number above the 53 of a float64; of fewer than 2^117 all are
-- counted.
unfoldable pub excess : ℕ → ℕ → ℕ
excess zero n = 0
excess (suc most) n = let more = excess most (n / 2) in if ltb n (2 ^ 53) then 0 else suc more

-- A natural number at float64: to the nearest with 53 digits, between two of them to the even one.
-- The sign, and a power of two as a factor, do not matter to it.
unfoldable pub float64 : ℕ → ℕ
unfolding excess
float64 n =
    let unit = 2 ^ excess 64 n in
    let digits = n / unit in
    let left = n % unit in
    (if ltb unit (2 * left) || (2 * left == unit && digits % 2 == 1) then digits + 1 else digits)
    * unit

-- the int64 of a float64 without its fraction; past the limits that of amd64, the least int64
unfoldable pub duration_of : ℤ → ℤ
duration_of (pos n) = if ltb n (2 ^ 63) then pos n else negsuc (2 ^ 63 - 1)
duration_of (negsuc n) = if ltb n (2 ^ 63) then negsuc n else negsuc (2 ^ 63 - 1)

pub record RttCalculator : Type 0 where
  pub rtt : ℤ
  pub rtt_jitter : ℤ
  pub is_first : Bool
  pub fallback_rtt : ℤ
  pub minimum_rtt : ℤ
  pub maximum_rtt : ℤ

-- NewRTTCalculator; `none` is its panic
unfoldable pub new_rtt_calculator : ℤ → ℤ → ℤ → Option RttCalculator
new_rtt_calculator minimum_rtt maximum_rtt fallback_rtt =
    if lt_int maximum_rtt minimum_rtt
    then none
    else some (record {
      rtt = pos 0;
      rtt_jitter = pos 0;
      is_first = true;
      fallback_rtt = fallback_rtt;
      minimum_rtt = minimum_rtt;
      maximum_rtt = maximum_rtt;
    })

-- NestedAverage with the factor `k / d`, `d` being a power of two: the products and their sum are
-- floats, counted here in parts of `1 / d`. Both products are of the new value.
unfoldable pub averaged : (k d n : ℕ) → ℕ
unfolding float64
averaged k d n = let x = float64 n in float64 (float64 ((d - k) * x) + float64 (k * x)) / d

unfoldable pub nested_average : (nested new_value : ℤ) → (k d : ℕ) → ℤ
unfolding averaged duration_of
nested_average nested new_value k d = duration_of (scale (λ n. averaged k d n) new_value)

unfoldable pub force_set_rtt : RttCalculator → ℤ → RttCalculator
force_set_rtt r duration = record r {
  is_first = false;
  rtt = duration;
  rtt_jitter = scale (λ n. n / 2) duration;
}

unfoldable pub calculate_rtt : RttCalculator → ℤ → RttCalculator
unfolding nested_average sub_duration
calculate_rtt r duration =
    let diff =
      if lt_int r.rtt duration then sub_duration duration r.rtt else sub_duration r.rtt duration in
    if r.is_first
    then record r { is_first = false; rtt = duration; rtt_jitter = scale (λ n. n / 2) duration }
    else record r {
      rtt_jitter = nested_average r.rtt_jitter diff 1 4;
      rtt = nested_average r.rtt duration 1 8;
    }

unfoldable pub get_rtt_and_jitter : RttCalculator → ℤ × ℤ
get_rtt_and_jitter r =
    if r.is_first
    then (r.fallback_rtt, scale (λ n. n / 2) r.fallback_rtt)
    else (if lt_int r.rtt r.minimum_rtt
        then (r.minimum_rtt, scale (λ n. n / 2) r.minimum_rtt)
        else (if lt_int r.maximum_rtt r.rtt
            then (r.maximum_rtt, scale (λ n. n / 2) r.maximum_rtt)
            else (r.rtt, r.rtt_jitter)))

unfoldable pub get_rtt : RttCalculator → ℤ
unfolding get_rtt_and_jitter
get_rtt r = (get_rtt_and_jitter r).0

unfoldable pub get_rto : RttCalculator → ℤ
unfolding get_rtt_and_jitter int64 add_duration
get_rto r =
    add_duration (get_rtt_and_jitter r).0 (int64 (scale (λ n. 4 * n) (get_rtt_and_jitter r).1))
