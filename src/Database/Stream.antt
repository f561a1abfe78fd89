-- ===== src/Database/Stream.antt =====
-- io.Reader and io.Writer as database/*.go uses them.
-- A reader is the bytes that are left; its Read is that of os.File: end of file where nothing is
-- left, otherwise as many bytes as there are. The code ignores the count, so what a short read
-- leaves of the fresh buffer stays zero. A write appends, and does not fail by itself.
pub mod Laws
use go_webtools.Base.{
  ℕ, zero, suc, ◌≡◌, List, [], ◌∷◌, ◌++◌, Option, none, some, Bytes, drop, length,
}

pub data Error : Type 0 where
  eof : Error
  -- os.ErrInvalid
  invalid : Error
  -- ErrValueTooLong
  too_long : Error
  -- a run-time panic
  panic : Error
  -- an error of a function that the caller supplies, or of the operating system
  other : ℕ → Error

pub data Result {ℓ} (V : Type ℓ) : Type ℓ where
  err : Error → Result V
  ok : V → Result V

infixl 5 ◌>>=◌
abbrev pub ◌>>=◌ {ℓ κ} : {X : Type ℓ} {Y : Type κ} → Result X → (X → Result Y) → Result Y
err x >>= next = err x
ok value >>= next = next value

-- What is read, with the rest of the stream.
abbrev pub Parser {ℓ} : Type ℓ → Type ℓ
Parser A = Bytes → Result (A × Bytes)

-- What a writing function has written when it returns, and the error that it returns.
abbrev pub Written : Type 0
Written = Bytes × Option Error

abbrev pub Writer {ℓ} : Type ℓ → Type ℓ
Writer A = A → Written

-- `err = f(w); if err != nil { return err }; g(w)`
infixl 6 ◌andthen◌
abbrev pub ◌andthen◌ : Written → Written → Written
(b, none) andthen (c, e) = (b ++ c, e)
(b, some e) andthen w = (b, some e)

-- a fresh buffer of `n` bytes, after the stream's bytes are copied to its front
unfoldable pub filled : ℕ → Bytes → Bytes
filled zero r = []
filled (suc n) [] = 0 ∷ filled n []
filled (suc n) (x ∷ r) = x ∷ filled n r

-- `data := make([]byte, n); _, err := reader.Read(data)`
unfoldable pub read : ℕ → Parser Bytes
unfolding filled
read zero r = ok ([], r)
read (suc n) [] = err eof
read (suc n) (x ∷ r) = ok (filled (suc n) (x ∷ r), drop (suc n) (x ∷ r))
