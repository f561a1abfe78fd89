-- ===== src/Proxy/Frames/RoundTrip.antt =====
-- UnpackWebtoolsFrame against PackWebtoolsFrame.
use go_webtools.Base.{
  ℕ, suc, ◌+◌, ◌-◌, ◌^◌, ◌≤◌, ◌<◌, ◌≡◌, ◌≢◌, ◌∙◌, refl, ap, true, List, [], ◌∷◌, ◌++◌, some, Bytes,
  length, length-append, take-append_length, drop-append_length, append_assoc, arith, ltb, lt→ltb,
}
use go_webtools.Base.Decimal.{pos, itoa, atoi-itoa, AllDigits, itoa-AllDigits}
use go_webtools.Proxy.Frames.{
  UnpackedFrame, Unpacked, frames, frame_separator_char, pack_webtools_frame, cut, in_front,
  take_data, take_number, take_length, take_id, unpack_fuel, unpack_webtools_frame,
}
use go_webtools.Proxy.Frames.Fuel.{take_data-Same, unpack_fuel-same}

-- no separator in an id
abbrev pub NoSeparator : Bytes → Type 0
NoSeparator [] = Unit {0}
NoSeparator (c ∷ cs) = (c ≢ frame_separator_char) × NoSeparator cs

digits-NoSeparator : (text : Bytes) → AllDigits text → NoSeparator text
digits-NoSeparator [] h = tt
digits-NoSeparator (c ∷ cs) h = (omega arith, digits-NoSeparator cs h.2)

cut-separator : (a t : Bytes) → NoSeparator a → cut (a ++ (frame_separator_char ∷ t)) ≡ some (a, t)
unfolding cut
cut-separator [] t h = refl
cut-separator (c ∷ a) t h = ground (arith, h.0, cut-separator a t h.1)

module _ (operation : ℕ) (id payload rest : Bytes) where
  digits : Bytes
  digits = itoa (length payload)

  regroup :
      (id ++ (frame_separator_char ∷ (digits ++ (frame_separator_char ∷ payload)))) ++ rest
      ≡ id ++ (frame_separator_char ∷ (digits ++ (frame_separator_char ∷ (payload ++ rest))))
  regroup = simp append_assoc

  -- the fields of a packed frame are found, whatever follows
  found :
      (again : Bytes → Unpacked)
      → NoSeparator id
      → length payload < 2 ^ 63
      → take_id again operation (
          cut
            ((id ++ (frame_separator_char ∷ (digits ++ (frame_separator_char ∷ payload)))) ++ rest))
        ≡ take_data again operation id
            (length id + length digits + 3)
            (pos (length payload - 1))
            (payload ++ rest)
  unfolding take_id take_length take_number digits
  found again h k =
      rw
        (
          regroup,
          cut-separator id (digits ++ (frame_separator_char ∷ (payload ++ rest))) h,
          take_id,
          cut-separator digits (payload ++ rest)
              (digits-NoSeparator digits (itoa-AllDigits (length payload))),
          atoi-itoa (length payload) k,
        )
        refl

  abbrev body : Bytes
  body = (id ++ (frame_separator_char ∷ (digits ++ (frame_separator_char ∷ payload)))) ++ rest

  length-body : length (payload ++ rest) ≤ length body
  length-body = omega (
    arith,
    ap length regroup,
    length-append id
        (frame_separator_char ∷ (digits ++ (frame_separator_char ∷ (payload ++ rest)))),
    length-append digits (frame_separator_char ∷ (payload ++ rest)),
  )

  unpack_packed :
      NoSeparator id
      → length payload < 2 ^ 63
      → unpack_webtools_frame (pack_webtools_frame operation id payload ++ rest)
        ≡ take_data unpack_webtools_frame operation id
            (length id + length digits + 3)
            (pos (length payload - 1))
            (payload ++ rest)
  unfolding unpack_webtools_frame pack_webtools_frame unpack_fuel digits
  unpack_packed h k =
      found (λ b. unpack_fuel (suc (suc (length body))) b) h k
      ∙ take_data-Same (λ b. unpack_fuel (suc (suc (length body))) b) unpack_webtools_frame
          operation id (length id + length digits + 3) (pos (length payload - 1)) (payload ++ rest)
          (λ b q.
            unpack_fuel-same (suc (suc (length body))) (suc (length b)) b
              (omega (arith, length-body)) (omega arith))

-- A packed frame with a separator-free id and with at least one and fewer than 2^63 bytes of
-- data is unpacked as it was packed, and what follows it is unpacked in turn.
pub unpack-pack :
    (operation : ℕ) (id payload rest : Bytes)
    → NoSeparator id
    → 0 < length payload
    → length payload < 2 ^ 63
    → unpack_webtools_frame (pack_webtools_frame operation id payload ++ rest)
      ≡ in_front
          (record { operation = operation; id = id; payload = payload })
          (unpack_webtools_frame rest)
unfolding digits
unpack-pack operation id payload rest h p k = unpack_packed operation id payload rest h k ∙ whole
  where
    all : length payload - 1 + 1 ≡ length payload
    all = omega arith

    enough : ltb (length payload - 1) (length (payload ++ rest)) ≡ true
    enough = lt→ltb _ _ (omega (arith, length-append payload rest))

    whole :
        take_data unpack_webtools_frame operation id
          (length id + length (itoa (length payload)) + 3)
          (pos (length payload - 1))
          (payload ++ rest)
        ≡ in_front
            (record { operation = operation; id = id; payload = payload })
            (unpack_webtools_frame rest)
    whole =
        unfold take_data in
        rw (enough, all, take-append_length payload rest, drop-append_length payload rest) refl

-- A packed frame with a separator-free id and without data takes the first byte of what follows
-- it for its data.
pub unpack-pack_empty :
    (operation : ℕ) (id rest : Bytes) (b : ℕ)
    → NoSeparator id
    → unpack_webtools_frame (pack_webtools_frame operation id [] ++ (b ∷ rest))
      ≡ in_front
          (record { operation = operation; id = id; payload = b ∷ [] })
          (unpack_webtools_frame rest)
unpack-pack_empty operation id rest b h =
    unpack_packed operation id [] (b ∷ rest) h (omega arith) ∙ (unfold take_data in ground arith)

-- A frame in a stream: what PackWebtoolsFrame is given.
abbrev pub IsPackable : UnpackedFrame → Type 0
IsPackable f = NoSeparator f.id × (0 < length f.payload) × (length f.payload < 2 ^ 63)

abbrev pub AllPackable : List UnpackedFrame → Type 0
AllPackable [] = Unit {0}
AllPackable (f ∷ fs) = IsPackable f × AllPackable fs

-- frames sent one after another
abbrev pub pack_all : List UnpackedFrame → Bytes
pack_all [] = []
pack_all (f ∷ fs) = pack_webtools_frame f.operation f.id f.payload ++ pack_all fs

-- Frames with separator-free ids and with at least one and fewer than 2^63 bytes of data, packed
-- one after another, are unpacked as the same frames in the same order.
pub unpack-pack_all :
    (fs : List UnpackedFrame) → AllPackable fs → unpack_webtools_frame (pack_all fs) ≡ frames fs
unpack-pack_all [] h = unfold unpack_webtools_frame unpack_fuel in refl
unpack-pack_all (f ∷ fs) h =
    unpack-pack f.operation f.id f.payload (pack_all fs) h.0.0 h.0.1 h.0.2
    ∙ ap (in_front f) (unpack-pack_all fs h.1)
