-- ===== src/Proxy/Frames/Fuel.antt =====
-- The recursion of UnpackWebtoolsFrame, which is on shorter frames.
use go_webtools.Base.{
  ℕ, zero, suc, ◌+◌, ◌^◌, ◌≤◌, ◌<◌, ◌≡◌, ◌≢◌, refl, ap, [], ◌∷◌, Option, none, some, Bytes, ltb,
  leb, ◌==◌, length, drop, length-drop, arith, Bool-cases, inl, inr, if◌then◌else◌,
}
use go_webtools.Base.Decimal.{ℤ, pos, negsuc, atoi}
use go_webtools.Proxy.Frames.{
  UnpackedFrame, Unpacked, frames, panic, out_of_fuel, frame_separator_char, cut, in_front,
  decremented, take_data, take_number, take_length, take_id, unpack_fuel, unpack_webtools_frame,
}

length-cut_cons :
    (c : ℕ) (r a b : Bytes)
    → ((x y : Bytes) → cut r ≡ some (x, y) → length y < length r)
    → (p : Option (Bytes × Bytes)) → cut r ≡ p
    → cut (c ∷ r) ≡ some (a, b)
    → length b < suc (length r)
unfolding cut
length-cut_cons c r a b ih none q e = ground arith
length-cut_cons c r a b ih (some (x, y)) q e = ground (arith, ih x y)

length-cut : (r a b : Bytes) → cut r ≡ some (a, b) → length b < length r
length-cut [] a b e = unfold cut in cc
length-cut (c ∷ r) a b e = length-cut_cons c r a b (λ x y q. length-cut r x y q) (cut r) refl e

-- Two continuations that agree on every frame no longer than what is left agree.
module _ (again other : Bytes → Unpacked) (operation : ℕ) where
  abbrev pub Same : Bytes → Type 0
  Same r = (b : Bytes) → length b ≤ length r → again b ≡ other b

  pub take_data-Same :
      (id : Bytes) (i : ℕ) (n : ℤ) (tail : Bytes)
      → Same tail
      → take_data again operation id i n tail ≡ take_data other operation id i n tail
  unfolding take_data
  take_data-Same id i (pos n) tail h =
      rw (h (drop (n + 1) tail) (omega (arith, length-drop (n + 1) tail))) refl
  take_data-Same id i (negsuc zero) tail h = rw (h tail (omega arith)) refl
  take_data-Same id i (negsuc (suc n)) tail h = refl

  take_number-Same :
      (id : Bytes) (i : ℕ) (tail : Bytes) (n : Option ℤ)
      → Same tail
      → take_number again operation id i tail n ≡ take_number other operation id i tail n
  unfolding take_number
  take_number-Same id i tail none h = refl
  take_number-Same id i tail (some n) h = take_data-Same id i (decremented n) tail h

  take_length-Same :
      (id r : Bytes) (p : Option (Bytes × Bytes))
      → cut r ≡ p
      → Same r
      → take_length again operation id p ≡ take_length other operation id p
  unfolding take_length
  take_length-Same id r none e h = refl
  take_length-Same id r (some (text, tail)) e h =
      take_number-Same id (length id + length text + 3) tail (atoi text)
        (λ b k. h b (omega (arith, length-cut r text tail e)))

  take_id-Same :
      (r : Bytes) (p : Option (Bytes × Bytes))
      → cut r ≡ p
      → Same r
      → take_id again operation p ≡ take_id other operation p
  unfolding take_id
  take_id-Same r none e h = refl
  take_id-Same r (some (id, r')) e h =
      take_length-Same id r' (cut r') refl (λ b k. h b (omega (arith, length-cut r id r' e)))

-- Any fuel above the length of the frame gives the same result.
pub unpack_fuel-same :
    (f g : ℕ) (frame : Bytes)
    → length frame < f
    → length frame < g
    → unpack_fuel f frame ≡ unpack_fuel g frame
unfolding unpack_fuel
unpack_fuel-same zero g frame p q = absurd (omega arith)
unpack_fuel-same (suc f) zero frame p q = absurd (omega arith)
unpack_fuel-same (suc f) (suc g) [] p q = refl
unpack_fuel-same (suc f) (suc g) (operation ∷ []) p q = refl
unpack_fuel-same (suc f) (suc g) (operation ∷ s ∷ r) p q =
    ap (λ t. if s == frame_separator_char then t else frames [])
      (take_id-Same (λ b. unpack_fuel f b) (λ b. unpack_fuel g b) operation r (cut r) refl
        (λ b k. unpack_fuel-same f g b (omega arith) (omega arith)))

in_front-ends : (x : UnpackedFrame) (u : Unpacked) → u ≢ out_of_fuel → in_front x u ≢ out_of_fuel
in_front-ends x (frames fs) h e = cc
in_front-ends x panic h e = cc
in_front-ends x out_of_fuel h e = h refl

module _ (again : Bytes → Unpacked) (operation : ℕ) where
  abbrev Ends : Bytes → Type 0
  Ends r = (b : Bytes) → length b ≤ length r → again b ≢ out_of_fuel

  take_data-Ends :
      (id : Bytes) (i : ℕ) (n : ℤ) (tail : Bytes)
      → Ends tail
      → take_data again operation id i n tail ≢ out_of_fuel
  unfolding take_data
  take_data-Ends id i (pos n) tail h = elim (Bool-cases (ltb n (length tail))) [
    | inl enough ↦ rw enough (
        in_front-ends _ (again (drop (n + 1) tail))
          (h (drop (n + 1) tail) (omega (arith, length-drop (n + 1) tail))))
    | inr short ↦ rw short (elim (Bool-cases (leb (2 ^ 63) (i + n + 1))) [
      | inl wraps ↦ rw wraps (λ e. cc)
      | inr fits ↦ rw fits (λ e. cc)
    ])
  ]
  take_data-Ends id i (negsuc zero) tail h = in_front-ends _ (again tail) (h tail (omega arith))
  take_data-Ends id i (negsuc (suc n)) tail h = λ e. cc

  take_number-Ends :
      (id : Bytes) (i : ℕ) (tail : Bytes) (n : Option ℤ)
      → Ends tail
      → take_number again operation id i tail n ≢ out_of_fuel
  unfolding take_number
  take_number-Ends id i tail none h = λ e. cc
  take_number-Ends id i tail (some n) h = take_data-Ends id i (decremented n) tail h

  take_length-Ends :
      (id r : Bytes) (p : Option (Bytes × Bytes))
      → cut r ≡ p
      → Ends r
      → take_length again operation id p ≢ out_of_fuel
  unfolding take_length
  take_length-Ends id r none e h = λ q. cc
  take_length-Ends id r (some (text, tail)) e h =
      take_number-Ends id (length id + length text + 3) tail (atoi text)
        (λ b k. h b (omega (arith, length-cut r text tail e)))

  take_id-Ends :
      (r : Bytes) (p : Option (Bytes × Bytes))
      → cut r ≡ p
      → Ends r
      → take_id again operation p ≢ out_of_fuel
  unfolding take_id
  take_id-Ends r none e h = λ q. cc
  take_id-Ends r (some (id, r')) e h =
      take_length-Ends id r' (cut r') refl (λ b k. h b (omega (arith, length-cut r id r' e)))

unpack_fuel-ends : (f : ℕ) (frame : Bytes) → length frame < f → unpack_fuel f frame ≢ out_of_fuel
unfolding unpack_fuel
unpack_fuel-ends zero frame p = absurd (omega arith)
unpack_fuel-ends (suc f) [] p = λ e. cc
unpack_fuel-ends (suc f) (operation ∷ []) p = λ e. cc
unpack_fuel-ends (suc f) (operation ∷ s ∷ r) p = elim (Bool-cases (s == frame_separator_char)) [
  | inl sep ↦ rw sep (
      take_id-Ends (λ b. unpack_fuel f b) operation r (cut r) refl
        (λ b k. unpack_fuel-ends f b (omega arith)))
  | inr bad ↦ rw bad (λ e. cc)
]

-- UnpackWebtoolsFrame ends on every input, with frames or with a panic: its recursion is on shorter
-- frames, so that a round for each byte and one more are enough.
pub unpack_total : (frame : Bytes) → unpack_webtools_frame frame ≢ out_of_fuel
unfolding unpack_webtools_frame
unpack_total frame = unpack_fuel-ends (suc (length frame)) frame (omega arith)
