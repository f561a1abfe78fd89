-- ===== src/Database/Stream/Laws.antt =====
-- Reading back what was written.
use go_webtools.Base.{
  ℕ, zero, suc, ◌≡◌, refl, ◌∙◌, sym, ◌≤◌, ap, ap₂, [], ◌∷◌, ◌++◌, Bytes, length, length-drop, take,
  drop, append_assoc, length-take, take-append-drop, drop-append_length, arith,
}
use go_webtools.Database.Stream.{Result, ok, err, ◌>>=◌, filled, read}

pub filled-append : (bs rest : Bytes) → filled (length bs) (bs ++ rest) ≡ bs
unfolding filled
filled-append [] rest = refl
filled-append (b ∷ bs) rest = ap (λ t. b ∷ t) (filled-append bs rest)

pub length-filled : (n : ℕ) (r : Bytes) → length (filled n r) ≡ n
unfolding filled
length-filled zero r = refl
length-filled (suc n) [] = ap suc (length-filled n [])
length-filled (suc n) (x ∷ r) = ap suc (length-filled n r)

-- A read of as many bytes as were written gives them back, and leaves what follows.
pub read-length-append : (bs rest : Bytes) → read (length bs) (bs ++ rest) ≡ ok (bs, rest)
unfolding read
read-length-append [] rest = refl
read-length-append (b ∷ bs) rest =
    ap₂ (λ t u. ok (b ∷ t, u)) (filled-append bs rest) (drop-append_length bs rest)

pub read-append : (n : ℕ) (bs rest : Bytes) → length bs ≡ n → read n (bs ++ rest) ≡ ok (bs, rest)
read-append n bs rest e = rw (← e) (read-length-append bs rest)

-- A read of a prefix leaves the others in front of what follows.
pub read_prefix :
    (n : ℕ) (bs rest : Bytes)
    → n ≤ length bs
    → read n (bs ++ rest) ≡ ok (take n bs, drop n bs ++ rest)
read_prefix n bs rest h =
    rw split (read-append n (take n bs) (drop n bs ++ rest) (length-take n bs h))
  where
    split : bs ++ rest ≡ take n bs ++ (drop n bs ++ rest)
    split =
        ap (λ t. t ++ rest) (sym (take-append-drop n bs))
        ∙ append_assoc (take n bs) (drop n bs) rest

-- A read never leaves more than there was.
pub length-read : (n : ℕ) (r bs r' : Bytes) → read n r ≡ ok (bs, r') → length r' ≤ length r
unfolding read
length-read zero r bs r' e = ground arith
length-read (suc n) [] bs r' e = cc
length-read (suc n) (x ∷ r) bs r' e = ground (arith, length-drop n r)

-- Where a chain of two steps succeeds, its first step does, and its second on the value of that.
pub >>=-eq-ok {ℓ κ} :
    {X : Type ℓ} {Y : Type κ} {y : Y} (step : X → Result Y) (first : Result X)
    → (first >>= step) ≡ ok y
    → (x : X) × (first ≡ ok x) × (step x ≡ ok y)
>>=-eq-ok step (err e) h = cc
>>=-eq-ok step (ok x) h = (x, refl, h)
