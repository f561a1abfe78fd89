-- ===== src/Filesystem/PathTools.antt =====
-- filesystem/PathTools.go: a path that is joined to a base and must stay below it.
pub mod Inside
use go_webtools.Base.{
  ℕ, Bool, true, false, not, ◌&&◌, ◌⊎◌, inl, inr, List, [], ◌∷◌, ◌++◌, Bytes, bytes_eq, ◌==◌,
}

-- What the code calls of the packages os and path/filepath. `E` is the type of their errors.
pub record PathCalls (E : Type 0) : Type 0 where
  pub abs : Bytes → E ⊎ Bytes
  pub join : Bytes → Bytes → Bytes
  pub clean : Bytes → Bytes
  pub eval_symlinks : Bytes → E ⊎ Bytes
  pub dir : Bytes → Bytes
  pub base : Bytes → Bytes
  -- os.PathSeparator
  pub path_separator : ℕ

-- the two results of JoinPathSecure: `invalid` is os.ErrInvalid
pub data Joined (E : Type 0) : Type 0 where
  failed : E → Joined E
  invalid : Joined E
  joined : Bytes → Joined E

-- strings.HasPrefix
abbrev pub has_prefix : Bytes → Bytes → Bool
has_prefix s [] = true
has_prefix [] (y ∷ prefix) = false
has_prefix (x ∷ s) (y ∷ prefix) = (x == y) && has_prefix s prefix

module _ {E : Type 0} (os : PathCalls E) where
  -- The joined path without symlinks. Where it does not exist, its parent without symlinks, and its
  -- last part.
  unfoldable pub joined_path_real : Bytes → E ⊎ Bytes
  joined_path_real path = elim (os.eval_symlinks path) [
    | inr real ↦ inr real
    | inl missing ↦ elim (os.eval_symlinks (os.dir path)) [
      | inl e ↦ inl e
      | inr parent ↦ inr (os.join parent (os.base path))
    ]
  ]

  -- the last test
  unfoldable pub check_escape : (base_real joined_real : Bytes) → Joined E
  check_escape base_real joined_real =
      elim (not (has_prefix joined_real (base_real ++ (os.path_separator ∷ [])))
        && not (bytes_eq.beq joined_real base_real)) [ true ↦ invalid | false ↦ joined joined_real ]

  unfoldable pub join_path_secure : (base_path added_path : Bytes) → Joined E
  unfolding joined_path_real check_escape
  join_path_secure base_path added_path = elim (os.abs base_path) [
    | inl e ↦ failed e
    | inr base ↦ elim (os.eval_symlinks base) [
      | inl e ↦ failed e
      | inr base_real ↦ elim (joined_path_real (os.clean (os.join base added_path))) [
        | inl e ↦ failed e
        | inr real ↦ check_escape base_real real
      ]
    ]
  ]
