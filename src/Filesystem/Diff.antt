-- ===== src/Filesystem/Diff.antt =====
-- filesystem/DiffTools.go: DiffTrim, DiffInStringLCS and PatchUsingChanges. `none` is the panic on
-- an index out of range. An `int` is a natural number here: a position is at most a length.
mod Walk
mod Detect
pub mod Common
mod Filled
pub mod Longest
pub mod RoundTrip
mod Runs
mod Script
pub mod Shortest
mod Sorting
mod Trim
use go_webtools.Base.{
  ℕ, zero, suc, ◌+◌, ◌-◌, max, Bool, true, false, ◌&&◌, ◌||◌, List, [], ◌∷◌, ◌++◌, reverse, Option,
  none, some, Eq, ltb, leb, ◌==◌, if◌then◌else◌, length, get_elem?, get_or, take, drop,
}
use go_webtools.Base.Decimal.{ℤ, pos}
use go_webtools.Helpers.SafeSlice.{insert_element_at_index, remove_element_at_index}

pub record DifferenceEntry {ℓ} (T : Type ℓ) : Type ℓ where
  pub position : ℕ
  pub character : T
  pub is_insertion : Bool

-- ThreeValuePair, of a letter and its places in the old and in the new sequence
pub record Linked {ℓ} (T : Type ℓ) : Type ℓ where
  pub letter : T
  pub in_old : ℕ
  pub in_new : ℕ

-- what the loop over the linked letters keeps
pub record Scan {ℓ} (T : Type ℓ) : Type ℓ where
  pub result : List (DifferenceEntry T)
  pub ok_old : ℕ
  pub ok_new : ℕ
  pub checked_last : Bool

-- the rows of the matrix, one for each element of the new sequence
abbrev pub Matrix : Type 0
Matrix = List (List ℕ)

-- the value at row `y` and column `x`, from the row above and the row so far
unfoldable pub cell : Bool → (y x : ℕ) → (above row : List ℕ) → ℕ
cell same y x above row =
    if same
    then (if ltb y 1 || ltb x 1 then 1 else get_or above (x - 1) 0 + 1)
    else max (if ltb 0 x then get_or row (x - 1) 0 else 0) (if ltb 0 y then get_or above x 0 else 0)

module _ {ℓ} {T : Type ℓ} where
  -- appendAtTop looks for the first entry of a smaller position, from the index `i` on
  unfoldable pub smaller_from_top : ℕ → List (DifferenceEntry T) → ℕ → Option ℕ
  smaller_from_top p [] i = none
  smaller_from_top p (e ∷ s) i = if ltb e.position p then some i else smaller_from_top p s (i + 1)

  unfoldable pub append_at_top :
      DifferenceEntry T → List (DifferenceEntry T) → DifferenceEntry T → List (DifferenceEntry T)
  unfolding smaller_from_top insert_element_at_index
  append_at_top zero_value slice item = elim (smaller_from_top item.position slice 0) [
    | some i ↦ insert_element_at_index zero_value slice (pos i) item
    | none ↦ slice ++ (item ∷ [])
  ]

  -- appendAtBottom looks for the last one, below the index `n`; the result is the index behind it
  unfoldable pub behind_smaller : ℕ → List (DifferenceEntry T) → ℕ → ℕ
  behind_smaller p slice zero = 0
  behind_smaller p slice (suc n) = elim (get_elem? slice n) [
    | some e ↦ if ltb e.position p then suc n else behind_smaller p slice n
    | none ↦ behind_smaller p slice n
  ]

  unfoldable pub append_at_bottom :
      DifferenceEntry T → List (DifferenceEntry T) → DifferenceEntry T → List (DifferenceEntry T)
  unfolding behind_smaller insert_element_at_index
  append_at_bottom zero_value slice item =
      insert_element_at_index zero_value slice
        (pos (behind_smaller item.position slice (length slice))) item

  -- the two sorted lists of PatchUsingChanges, deletions first
  unfoldable pub sort_changes :
      DifferenceEntry T
      → List (DifferenceEntry T) × List (DifferenceEntry T)
      → List (DifferenceEntry T)
      → List (DifferenceEntry T) × List (DifferenceEntry T)
  unfolding append_at_bottom append_at_top
  sort_changes zero_value s [] = s
  sort_changes zero_value s (v ∷ changes) =
      sort_changes zero_value
        (if v.is_insertion
          then (s.0, append_at_bottom zero_value s.1 v)
          else (append_at_top zero_value s.0 v, s.1))
        changes

  unfoldable pub delete_all : List T → List (DifferenceEntry T) → List T
  unfolding remove_element_at_index
  delete_all old [] = old
  delete_all old (v ∷ deletions) =
      delete_all (remove_element_at_index old (pos v.position)) deletions

  unfoldable pub insert_all : T → List T → List (DifferenceEntry T) → List T
  unfolding insert_element_at_index
  insert_all zero_value old [] = old
  insert_all zero_value old (v ∷ insertions) =
      insert_all zero_value (insert_element_at_index zero_value old (pos v.position) v.character)
        insertions

  unfoldable pub patch_using_changes : T → List T → List (DifferenceEntry T) → List T
  unfolding sort_changes delete_all insert_all
  patch_using_changes zero_value old changes =
      let no_entry : DifferenceEntry T = record {
        position = 0;
        character = zero_value;
        is_insertion = false;
      } in
      let sorted = sort_changes no_entry ([], []) changes in
      insert_all zero_value (delete_all old sorted.0) sorted.1

  -- the entries for the elements of a slice, which stand at `p`, `p + 1` and so on
  unfoldable pub entries : Bool → ℕ → List T → List (DifferenceEntry T)
  entries kind p [] = []
  entries kind p (c ∷ s) =
      record { position = p; character = c; is_insertion = kind } ∷ entries kind (p + 1) s

  -- the inner loops: the entries of the elements from `from` to `to`, which are inside the slice
  unfoldable pub run : Bool → ℕ → List T → (from to : ℕ) → List (DifferenceEntry T)
  unfolding entries
  run kind offset s from to = entries kind (from + offset) (take (to - from) (drop from s))

  unfoldable pub scan_linked : ℕ → (old new : List T) → Scan T → Linked T → Scan T
  unfolding run
  scan_linked offset old new s m =
      let deleted = if ltb s.ok_old m.in_old then run false offset old s.ok_old m.in_old else [] in
      let inserted = if ltb s.ok_new m.in_new then run true offset new s.ok_new m.in_new else [] in
      let next_new = m.in_new + 1 in
      record {
        result = s.result ++ deleted ++ inserted;
        ok_old = m.in_old + 1;
        ok_new = next_new;
        checked_last = (next_new == length new) || s.checked_last;
      }

  unfoldable pub scan_all : ℕ → (old new : List T) → Scan T → List (Linked T) → Scan T
  unfolding scan_linked
  scan_all offset old new s [] = s
  scan_all offset old new s (m ∷ ms) = scan_all offset old new (scan_linked offset old new s m) ms

  -- the last deletions, from the end down, and the last insertions
  unfoldable pub last_changes : ℕ → (old new : List T) → Scan T → List (DifferenceEntry T)
  unfolding entries run
  last_changes offset old new s =
      let start = s.ok_new + (if s.checked_last then 1 else 0) in
      s.result
      ++ reverse (run false offset old s.ok_old (length old))
      ++ run true offset new start (length new)

  unfoldable pub changes_of_linked :
      ℕ → (old new : List T) → List (Linked T) → List (DifferenceEntry T)
  unfolding scan_all last_changes
  changes_of_linked offset old new ms = last_changes offset old new (
      scan_all offset old new (record { result = []; ok_old = 0; ok_new = 0; checked_last = false })
        ms)

  module _ ⦃e : Eq T⦄ where
    unfoldable pub common_prefix : List T → List T → ℕ
    common_prefix [] new = 0
    common_prefix (x ∷ old) [] = 0
    common_prefix (x ∷ old) (y ∷ new) =
        let n = common_prefix old new in if e.beq x y then suc n else 0

    -- DiffTrim; the common suffix is the common prefix of what is left, read from the end
    unfoldable pub diff_trim : List T → List T → List T × List T × ℕ
    unfolding common_prefix
    diff_trim old new =
        let prefix_len = common_prefix old new in
        let suffix_len =
          common_prefix (reverse (drop prefix_len old)) (reverse (drop prefix_len new)) in
        (
          drop prefix_len (take (length old - suffix_len) old),
          drop prefix_len (take (length new - suffix_len) new),
          prefix_len,
        )

    unfoldable pub fill_row : ℕ → T → List ℕ → ℕ → List T → List ℕ → List ℕ
    unfolding cell
    fill_row y c above x [] row = row
    fill_row y c above x (o ∷ old) row =
        fill_row y c above (x + 1) old (row ++ (cell (e.beq o c) y x above row ∷ []))

    unfoldable pub fill_rows : List T → ℕ → List T → Matrix → Matrix
    unfolding fill_row
    fill_rows old y [] m = m
    fill_rows old y (c ∷ new) m =
        fill_rows old (y + 1) new (m ++ (fill_row y c (get_or m (y - 1) []) 0 old [] ∷ []))

    -- The matrix is walked from its last cell. The arguments are the elements up to the column and
    -- up to the row, the last one first: `x` and `y` are the lengths of their tails.
    unfoldable pub backtrack : Matrix → List T → List T → List (Linked T)
    backtrack m [] cs = []
    backtrack m (o ∷ os) [] = []
    backtrack m (o ∷ os) (c ∷ cs) =
        let x = length os in
        let y = length cs in
        elim (e.beq c o) [
          | true ↦ record { letter = o; in_old = x; in_new = y } ∷ backtrack m os cs
          | false ↦ elim (x == 0) [
            | true ↦ backtrack m (o ∷ os) cs
            | false ↦ elim (y == 0) [
              | true ↦ backtrack m os (c ∷ cs)
              | false ↦
                  elim (leb (get_or (get_or m y []) (x - 1) 0) (get_or (get_or m (y - 1) []) x 0)) [
                    | true ↦ backtrack m (o ∷ os) cs
                    | false ↦ backtrack m os (c ∷ cs)
                  ]
            ]
          ]
        ]

    -- DiffInStringLCS: the row of index -1 of an empty matrix is out of range
    unfoldable pub diff_in_string_lcs : List T → List T → Option (List (DifferenceEntry T))
    unfolding diff_trim fill_rows backtrack changes_of_linked
    diff_in_string_lcs old new =
        let trimmed = diff_trim old new in
        let (o, n, offset) = trimmed in
        let m = fill_rows o 0 n [] in
        if length o == 0 && length n == 0
        then some []
        else (if length m == 0
            then none
            else some
                (changes_of_linked offset o n (reverse (backtrack m (reverse o) (reverse n)))))
