-- ===== src/Helpers/RttCalculator/Limits.antt =====
-- What the calculator answers after any measurements.
use go_webtools.Base.{
  sym, ◌==◌, ◌&&◌, ◌||◌, ℕ, zero, suc, ◌+◌, ◌-◌, ◌*◌, ◌/◌, ◌%◌, ◌^◌, ◌<◌, true, ◌≤◌, ◌≡◌, refl,
  false, ap, ◌∙◌, List, [], ◌∷◌, ◌++◌, none, some, ltb, if◌then◌else◌, arith, if_holds, subst,
  lt→ltb, le→ltb, ltb-false, ltb→lt,
}
use native.Mathlib.Nat.{mod-eq_of_lt}
use go_webtools.Base.Decimal.{ℤ, pos, negsuc}
use go_webtools.Helpers.RttCalculator.{
  RttCalculator, int64, add_duration, sub_duration, excess, float64, duration_of, averaged, lt_int,
  minus, negate, add_int, sub_int, scale, new_rtt_calculator, nested_average, calculate_rtt,
  get_rtt_and_jitter, get_rtt, get_rto,
}

excess-small : (most n : ℕ) → n < 2 ^ 53 → excess (suc most) n ≡ 0
unfolding excess
excess-small most n h = rw (lt→ltb n (2 ^ 53) h) refl

rounded-exact :
    (n s : ℕ)
    → s ≡ 0
    → (if ltb (2 ^ s) (2 * (n % 2 ^ s)) || (2 * (n % 2 ^ s) == 2 ^ s && (n / 2 ^ s) % 2 == 1)
          then n / 2 ^ s + 1
          else n / 2 ^ s)
        * 2 ^ s
      ≡ n
rounded-exact n s e =
    let none : n % 1 ≡ 0 = omega arith in
    let all : n / 1 ≡ n = omega arith in rw (e, none, all) (omega arith)

-- a number of 53 binary digits is a float64
float64-exact : (n : ℕ) → n < 2 ^ 53 → float64 n ≡ n
unfolding float64
float64-exact n h = rounded-exact n (excess 64 n) (excess-small 63 n h)

-- what the two factors and their complements add up to, where every float is exact
whole : (n : ℕ) → n < 2 ^ 50 → (averaged 1 8 n ≡ n) × (averaged 1 4 n ≡ n)
unfolding averaged
whole n h =
    let exact = float64-exact n (omega arith) in
    (
      rw
          (
            exact,
            float64-exact ((8 - 1) * n) (omega arith),
            float64-exact (1 * n) (omega arith),
            float64-exact ((8 - 1) * n + 1 * n) (omega arith),
          )
          (omega arith),
      rw
          (
            exact,
            float64-exact ((4 - 1) * n) (omega arith),
            float64-exact (1 * n) (omega arith),
            float64-exact ((4 - 1) * n + 1 * n) (omega arith),
          )
          (omega arith),
    )

negate-suc : (n : ℕ) → negate (suc n) ≡ negsuc n
negate-suc n = rw (lt→ltb 0 (suc n) (omega arith)) (ap negsuc (omega arith))

-- less than 2 ^ k nanoseconds, in either direction
abbrev pub Below : ℕ → ℤ → Type 0
Below k (pos n) = n < 2 ^ k
Below k (negsuc n) = suc n < 2 ^ k

-- the average with either factor is the new value
nested_average_lem :
    (nested v : ℤ)
    → Below 50 v
    → (nested_average nested v 1 8 ≡ v) × (nested_average nested v 1 4 ≡ v)
unfolding nested_average duration_of
nested_average_lem nested (pos n) h =
    let fits : ltb n (2 ^ 63) ≡ true = lt→ltb n (2 ^ 63) (omega arith) in
    (rw ((whole n h).0, fits) refl, rw ((whole n h).1, fits) refl)
nested_average_lem nested (negsuc n) h =
    let fits : ltb n (2 ^ 63) ≡ true = lt→ltb n (2 ^ 63) (omega arith) in
    (
      ap duration_of (ap negate (whole (suc n) h).0 ∙ negate-suc n) ∙ rw fits refl,
      ap duration_of (ap negate (whole (suc n) h).1 ∙ negate-suc n) ∙ rw fits refl,
    )

-- one measurement after another
unfoldable pub measured : RttCalculator → List ℤ → RttCalculator
measured r [] = r
measured r (d ∷ ds) = measured (calculate_rtt r d) ds

calculate_rtt_rtt : (r : RttCalculator) (d : ℤ) → Below 50 d → (calculate_rtt r d).rtt ≡ d
unfolding calculate_rtt
calculate_rtt_rtt r d h =
    if_holds (λ (q : RttCalculator). q.rtt ≡ d) r.is_first _ _ (λ _. refl)
      (λ _. (nested_average_lem r.rtt d h).0)

-- After any measurements, of which the last is of less than 2^50 nanoseconds (13 days) in either
-- direction, the estimate is that last one: no average is kept.
pub rtt-measured :
    (r : RttCalculator) (ds : List ℤ) (d : ℤ) → Below 50 d → (measured r (ds ++ (d ∷ []))).rtt ≡ d
unfolding measured
rtt-measured r [] d h = calculate_rtt_rtt r d h
rtt-measured r (e ∷ ds) d h = rtt-measured (calculate_rtt r e) ds d h

record Kept (m l f : ℕ) (r : RttCalculator) : Type 0 where
  least : r.minimum_rtt ≡ pos m
  most : r.maximum_rtt ≡ pos l
  other : r.fallback_rtt ≡ pos f
  near : Below 48 r.rtt
  jitter : (n : ℕ) → r.rtt ≡ pos n → (j : ℕ) × (r.rtt_jitter ≡ pos j) × (j < 2 ^ 49)

minus_pos : (a b : ℕ) → b ≤ a → minus a b ≡ pos (a - b)
minus_pos a b h = rw (le→ltb a b h) refl

sub_pos : (a b : ℕ) → b ≤ a → sub_int (pos a) (pos b) ≡ pos (a - b)
sub_pos a zero h = ap pos (omega arith)
sub_pos a (suc b) h = ap (add_int (pos a)) (negate-suc b) ∙ minus_pos a (suc b) h

int64-small : (n : ℕ) → n < 2 ^ 63 → int64 (pos n) ≡ pos n
unfolding int64
int64-small n h =
    let same : n % 2 ^ 64 ≡ n = mod-eq_of_lt (omega arith) in rw (same, lt→ltb n (2 ^ 63) h) refl

-- the distance of two durations is not negative
Distance : ℤ → Type 0
Distance d = (j : ℕ) × (d ≡ pos j) × (j < 2 ^ 49)

apart : (v : ℤ) (j : ℕ) → v ≡ pos j → j < 2 ^ 49 → Distance (int64 v)
unfolding Distance
apart v j e h = (j, ap int64 e ∙ int64-small j (omega arith), h)

distance :
    (a b : ℤ)
    → Below 48 a
    → Below 48 b
    → Distance (if lt_int a b then sub_duration b a else sub_duration a b)
unfolding sub_duration
distance (pos a) (pos b) h k =
    if_holds Distance (ltb a b) _ _
      (λ e. apart _ (b - a) (sub_pos b a (omega (arith, ltb→lt a b e))) (omega arith))
      (λ e. apart _ (a - b) (sub_pos a b (ltb-false a b e)) (omega arith))
distance (pos a) (negsuc b) h k = apart _ (a + suc b) refl (omega arith)
distance (negsuc a) (pos b) h k = apart _ (b + suc a) refl (omega arith)
distance (negsuc a) (negsuc b) h k =
    if_holds Distance (ltb b a) _ _
      (λ e.
        apart _ (suc a - suc b) (minus_pos (suc a) (suc b) (omega (arith, ltb→lt b a e)))
          (omega arith))
      (λ e.
        apart _ (suc b - suc a) (minus_pos (suc b) (suc a) (omega (arith, ltb-false b a e)))
          (omega arith))

Below-more : (d : ℤ) → Below 48 d → Below 50 d
Below-more (pos n) h = omega arith
Below-more (negsuc n) h = omega arith

half_jitter : (d : ℤ) (n : ℕ) → Below 48 d → d ≡ pos n → Distance (scale (λ k. k / 2) d)
unfolding Distance
half_jitter (pos x) n h e = (x / 2, refl, omega arith)
half_jitter (negsuc x) n h e = cc

next_jitter : (nested v : ℤ) → Distance v → Distance (nested_average nested v 1 4)
unfolding Distance
next_jitter nested v (j, e, h) =
    (j, (nested_average_lem nested v (subst (Below 50) (sym e) (omega arith))).1 ∙ e, h)

calculate_rtt-Kept :
    (m l f : ℕ) (r : RttCalculator) (d : ℤ)
    → Below 48 d
    → Kept m l f r
    → Kept m l f (calculate_rtt r d)
unfolding calculate_rtt Distance
calculate_rtt-Kept m l f r d b h =
    if_holds (Kept m l f) r.is_first _ _
      (λ _. record {
        least = h.least;
        most = h.most;
        other = h.other;
        near = b;
        jitter = λ n e. half_jitter d n b e;
      })
      (λ _. record {
        least = h.least;
        most = h.most;
        other = h.other;
        near = subst (Below 48) (sym (nested_average_lem r.rtt d (Below-more d b)).0) b;
        jitter = λ n e. next_jitter r.rtt_jitter _ (distance r.rtt d h.near b);
      })

abbrev pub AllBelow : ℕ → List ℤ → Type 0
AllBelow k [] = Unit {0}
AllBelow k (d ∷ ds) = Below k d × AllBelow k ds

measured-Kept :
    (m l f : ℕ) (r : RttCalculator) (ds : List ℤ)
    → AllBelow 48 ds
    → Kept m l f r
    → Kept m l f (measured r ds)
unfolding measured
measured-Kept m l f r [] b h = h
measured-Kept m l f r (d ∷ ds) b h =
    measured-Kept m l f (calculate_rtt r d) ds b.1 (calculate_rtt-Kept m l f r d b.0 h)

-- a round trip time between the limits, and a jitter that is not negative
abbrev Within : (m l : ℕ) → ℤ × ℤ → Type 0
Within m l q = (v : ℕ) × (j : ℕ) × (q ≡ (pos v, pos j)) × (m ≤ v) × (v ≤ l) × (j < 2 ^ 60)

get_rtt_and_jitter-Within :
    (m l f : ℕ) (r : RttCalculator)
    → m ≤ f
    → f ≤ l
    → l < 2 ^ 60
    → Kept m l f r
    → Within m l (get_rtt_and_jitter r)
unfolding get_rtt_and_jitter
get_rtt_and_jitter-Within m l f r a b c h =
    if_holds (Within m l) r.is_first _ _
      (λ _. (f, f / 2, ap (λ t. (t, scale (λ n. n / 2) t)) h.other, a, b, omega (arith, b, c)))
      (λ _.
        if_holds (Within m l) (lt_int r.rtt r.minimum_rtt) _ _
          (λ _. (
            m,
            m / 2,
            ap (λ t. (t, scale (λ n. n / 2) t)) h.least,
            omega arith,
            omega (arith, a, b),
            omega (arith, a, b, c),
          ))
          (λ low.
            if_holds (Within m l) (lt_int r.maximum_rtt r.rtt) _ _
              (λ _. (
                l,
                l / 2,
                ap (λ t. (t, scale (λ n. n / 2) t)) h.most,
                omega (arith, a, b),
                omega arith,
                omega (arith, c),
              ))
              (λ high.
                inside r.rtt r.rtt_jitter (subst (λ t. lt_int r.rtt t ≡ false) h.least low)
                  (subst (λ t. lt_int t r.rtt ≡ false) h.most high) h.jitter)))
  where
    inside :
        (v j : ℤ)
        → lt_int v (pos m) ≡ false
        → lt_int (pos l) v ≡ false
        → ((n : ℕ) → v ≡ pos n → (k : ℕ) × (j ≡ pos k) × (k < 2 ^ 49))
        → Within m l (v, j)
    inside (pos v) j low high k =
        let (i, q, few) = k v refl in
        (v, i, ap (λ t. (pos v, t)) q, ltb-false v m low, ltb-false l v high, omega (arith, few))
    inside (negsuc v) j low high k = cc

new-Kept :
    (m l f : ℕ) (r : RttCalculator)
    → new_rtt_calculator (pos m) (pos l) (pos f) ≡ some r
    → Kept m l f r
unfolding new_rtt_calculator
new-Kept m l f r =
    if_holds (λ q. q ≡ some r → Kept m l f r) (ltb l m) _ _ (λ _ e. cc)
      (λ _ e.
        subst (λ q. elim q [ none ↦ Unit {0} | some x ↦ Kept m l f x ]) e
          (record {
            least = refl;
            most = refl;
            other = refl;
            near = omega arith;
            jitter = λ n _. (0, refl, omega arith);
          }))

-- With settings in order, 0 ≤ minimum ≤ fallback ≤ maximum < 2^60 nanoseconds (36 years), and after
-- any measurements of less than 2^48 nanoseconds (3 days) in either direction, negative ones included,
-- the round trip time is between the minimum and the maximum, and the timeout is at least the round
-- trip time.
pub get_rtt-measured :
    (m l f : ℕ) (ds : List ℤ) (r : RttCalculator)
    → m ≤ f
    → f ≤ l
    → l < 2 ^ 60
    → AllBelow 48 ds
    → new_rtt_calculator (pos m) (pos l) (pos f) ≡ some r
    → (v : ℕ) × (o : ℕ) × (get_rtt (measured r ds) ≡ pos v)
      × (get_rto (measured r ds) ≡ pos o)
      × (m ≤ v)
      × (v ≤ l)
      × (v ≤ o)
unfolding get_rtt get_rto add_duration
get_rtt-measured m l f ds r a b c n h =
    let (v, j, q, low, high, few) =
      get_rtt_and_jitter-Within m l f (measured r ds) a b c
        (measured-Kept m l f r ds n (new-Kept m l f r h)) in
    (
      v,
      v + 4 * j,
      ap (λ t. t.0) q,
      ap (λ t. int64 (add_int t.0 (int64 (scale (λ n. 4 * n) t.1)))) q
          ∙ ap (λ t. int64 (add_int (pos v) t)) (int64-small (4 * j) (omega (arith, few)))
          ∙ int64-small (v + 4 * j) (omega (arith, few, high, c)),
      low,
      high,
      omega arith,
    )
