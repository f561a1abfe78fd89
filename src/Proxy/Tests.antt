-- ===== src/Proxy/Tests.antt =====
-- The frames at concrete inputs.
use go_webtools.Base.{◌-◌, ◌^◌, ◌≡◌, refl, [], ◌∷◌, ◌++◌, Bytes, arith, List}
use go_webtools.Proxy.Frames.{
  UnpackedFrame, frames, panic, pack_webtools_frame, unpack_webtools_frame, in_front,
  frame_type_data, frame_type_connect, frame_type_close,
}
use go_webtools.Proxy.Frames.Fuel.{unpack_total}
use go_webtools.Proxy.Frames.RoundTrip.{unpack-pack_empty, unpack-pack_all, pack_all}
use mathlib.Core.Logic.{◌≢◌}
use go_webtools.Base.Decimal.{itoa, atoi}
use go_webtools.Proxy.Frames.{out_of_fuel}

-- `3;ab;2;xy`
abbrev sample : Bytes
sample = 3 ∷ b';' ∷ b'a' ∷ b'b' ∷ b';' ∷ b'2' ∷ b';' ∷ b'x' ∷ b'y' ∷ []

pack_sample : pack_webtools_frame 3 (b'a' ∷ b'b' ∷ []) (b'x' ∷ b'y' ∷ []) ≡ sample
unfolding pack_webtools_frame itoa
pack_sample = refl

unpack_sample :
    unpack_webtools_frame sample
    ≡ frames (record { operation = 3; id = b'a' ∷ b'b' ∷ []; payload = b'x' ∷ b'y' ∷ [] } ∷ [])
unfolding unpack_webtools_frame atoi
unpack_sample = refl

-- a length field of -7 cuts a slice backwards
unpack_negative : unpack_webtools_frame (3 ∷ b';' ∷ b'a' ∷ b';' ∷ b'-' ∷ b'7' ∷ b';' ∷ []) ≡ panic
unfolding unpack_webtools_frame atoi
unpack_negative = refl

unpack_total_example : unpack_webtools_frame sample ≢ out_of_fuel
unpack_total_example = unpack_total sample

-- the operation byte of the second frame is lost to the first
unpack-pack_empty_example :
    unpack_webtools_frame (pack_webtools_frame frame_type_connect (b'a' ∷ []) [] ++ sample)
    ≡ in_front
        (record { operation = frame_type_connect; id = b'a' ∷ []; payload = 3 ∷ [] })
        (unpack_webtools_frame (b';' ∷ b'a' ∷ b'b' ∷ b';' ∷ b'2' ∷ b';' ∷ b'x' ∷ b'y' ∷ []))
unpack-pack_empty_example =
    unpack-pack_empty frame_type_connect (b'a' ∷ [])
      (b';' ∷ b'a' ∷ b'b' ∷ b';' ∷ b'2' ∷ b';' ∷ b'x' ∷ b'y' ∷ []) 3 (omega arith)

abbrev two_frames : List UnpackedFrame
two_frames =
    record { operation = frame_type_data; id = b'a' ∷ []; payload = 0 ∷ [] }
    ∷ record { operation = frame_type_close; id = b'b' ∷ []; payload = b';' ∷ 1 ∷ [] }
    ∷ []

unpack-pack_all_example : unpack_webtools_frame (pack_all two_frames) ≡ frames two_frames
unpack-pack_all_example = unpack-pack_all two_frames (omega arith)

-- `3;a;9223372036854775807;`, whose length field is the largest int
largest_length :
    unpack_webtools_frame
      ((frame_type_data ∷ b';' ∷ b'a' ∷ b';' ∷ []) ++ (itoa (2 ^ 63 - 1) ++ (b';' ∷ [])))
    ≡ panic
unfolding unpack_webtools_frame itoa atoi
largest_length = refl
