-- ===== src/Base/Words.antt =====
-- Machine words as native numbers: bytes of a number in either order.
use Prim.Native.Nat.{ℕ, zero, suc, ◌+◌, ◌*◌, ◌/◌, ◌%◌, ◌^◌, ◌<◌}
use mathlib.Core.Path.{◌≡◌, refl, ap, ◌∙◌}
use mathlib.Core.List.{[], ◌∷◌, reverse, reverse-reverse}
use native.Mathlib.Nat.{pow-suc}
use native.Mathlib.Omega.{arith}
use go_webtools.Base.Tests.{Bytes}
use go_webtools.Base.Lists.{length, length-reverse}

-- binary.LittleEndian.PutUintN on a buffer of `k` bytes
unfoldable pub le_bytes : ℕ → ℕ → Bytes
le_bytes zero x = []
le_bytes (suc k) x = (x % 256) ∷ le_bytes k (x / 256)

-- binary.LittleEndian.UintN
unfoldable pub of_le : Bytes → ℕ
of_le [] = 0
of_le (b ∷ bs) = b + 256 * of_le bs

unfoldable pub be_bytes : ℕ → ℕ → Bytes
unfolding le_bytes
be_bytes k x = reverse (le_bytes k x)

unfoldable pub of_be : Bytes → ℕ
unfolding of_le
of_be bs = of_le (reverse bs)

pub length-le_bytes : (k x : ℕ) → length (le_bytes k x) ≡ k
unfolding le_bytes
length-le_bytes zero x = refl
length-le_bytes (suc k) x = ap suc (length-le_bytes k (x / 256))

pub length-be_bytes : (k x : ℕ) → length (be_bytes k x) ≡ k
unfolding be_bytes
length-be_bytes k x = length-reverse (le_bytes k x) ∙ length-le_bytes k x

pub of_le-le_bytes : (k x : ℕ) → x < 256 ^ k → of_le (le_bytes k x) ≡ x
unfolding le_bytes of_le
of_le-le_bytes zero x h = omega arith
of_le-le_bytes (suc k) x h =
    let wide : 256 ^ suc k ≡ 256 ^ k * 256 = pow-suc 256 k in
    omega (arith, of_le-le_bytes k (x / 256) (omega arith))

pub of_be-be_bytes : (k x : ℕ) → x < 256 ^ k → of_be (be_bytes k x) ≡ x
unfolding be_bytes of_be
of_be-be_bytes k x h = ap of_le (reverse-reverse (le_bytes k x)) ∙ of_le-le_bytes k x h
