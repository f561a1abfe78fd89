-- ===== src/Filesystem/Tests.antt =====
-- Runs of the definitions of Filesystem.
use go_webtools.Base.{
  List, true, false, reverse, ◌<◌, ◌≤◌, ◌+◌, ◌*◌, ◌⊎◌, length, ℕ, ◌≡◌, refl, [], ◌∷◌, Option, some,
  none, Bytes, nat_eq, bytes_eq, inr, ◌++◌, take, drop, if◌then◌else◌,
}
use go_webtools.Filesystem.Diff.Common.{lcs, sub_end, sub_take, sub_skip}
use go_webtools.Filesystem.Diff.Longest.{length-linked}
use go_webtools.Filesystem.Diff.RoundTrip.{patch-diff_in_string_lcs}
use go_webtools.Filesystem.Diff.Shortest.{length-diff_in_string_lcs}
use go_webtools.Filesystem.Diff.{
  DifferenceEntry, smaller_from_top, append_at_top, behind_smaller, append_at_bottom, sort_changes,
  delete_all, insert_all, patch_using_changes, entries, run, scan_linked, scan_all, last_changes,
  changes_of_linked, common_prefix, diff_trim, cell, fill_row, fill_rows, backtrack,
  diff_in_string_lcs,
}
use go_webtools.Filesystem.PathTools.{
  PathCalls, invalid, joined, joined_path_real, join_path_secure,
}
use go_webtools.Filesystem.PathTools.Inside.{Judged, join_path_secure_lem}
use go_webtools.Helpers.SafeSlice.{insert_element_at_index, remove_element_at_index}

-- the difference, applied
patched : Bytes → Bytes → Option Bytes
unfolding diff_in_string_lcs patch_using_changes
patched old new = elim (diff_in_string_lcs old new) [
  | none ↦ none
  | some d ↦ some (patch_using_changes {T = ℕ} 0 old d)
]

kitten_to_sitting :
    patched (1 ∷ 2 ∷ 3 ∷ 3 ∷ 4 ∷ 5 ∷ []) (6 ∷ 2 ∷ 3 ∷ 3 ∷ 2 ∷ 5 ∷ 7 ∷ [])
    ≡ some (6 ∷ 2 ∷ 3 ∷ 3 ∷ 2 ∷ 5 ∷ 7 ∷ [])
unfolding patched smaller_from_top append_at_top behind_smaller append_at_bottom sort_changes
    delete_all insert_all patch_using_changes entries run scan_linked scan_all last_changes
    changes_of_linked common_prefix diff_trim cell fill_row fill_rows backtrack diff_in_string_lcs
    insert_element_at_index remove_element_at_index
kitten_to_sitting = refl

-- a prefix that is deleted, and nothing inserted
deletion_panics : patched (1 ∷ 2 ∷ []) (2 ∷ []) ≡ none
unfolding patched common_prefix diff_trim cell fill_row fill_rows backtrack diff_in_string_lcs
deletion_panics = refl

abbrev old : Bytes
old = 1 ∷ 2 ∷ 3 ∷ []

abbrev new : Bytes
new = 1 ∷ 3 ∷ 4 ∷ []

patch-diff_in_string_lcs_example :
    let t = diff_trim old new in
    ((0 < length t.0) × (length t.1 ≡ 0) × (diff_in_string_lcs old new ≡ none))
    ⊎ ((d : List (DifferenceEntry ℕ)) × (diff_in_string_lcs old new ≡ some d)
        × (patch_using_changes {T = ℕ} 0 old d ≡ new))
patch-diff_in_string_lcs_example = patch-diff_in_string_lcs 0 old new

abbrev changes : List (DifferenceEntry ℕ)
changes =
    record { position = 1; character = 2; is_insertion = false }
    ∷ record { position = 2; character = 4; is_insertion = true }
    ∷ []

changes_are : diff_in_string_lcs old new ≡ some changes
unfolding diff_in_string_lcs entries run scan_linked scan_all last_changes changes_of_linked
    common_prefix diff_trim cell fill_row fill_rows backtrack
changes_are = refl

length-diff_in_string_lcs_example : length changes + 2 * 2 ≤ length old + length new
length-diff_in_string_lcs_example =
    length-diff_in_string_lcs 0 old new changes changes_are (1 ∷ 3 ∷ [])
      (sub_take 1 (sub_skip 2 (sub_take 3 sub_end))) (sub_take 1 (sub_take 3 sub_end))

length-linked_example :
    length (reverse (backtrack (fill_rows old 0 new []) (reverse old) (reverse new)))
    ≡ lcs (reverse old) (reverse new)
length-linked_example = length-linked old new

-- a disk on which `/a/b` is a link to `/c`, and no other path is one
abbrev disk : PathCalls ℕ
disk = record {
  abs = λ p. inr p;
  join = λ p q. p ++ (47 ∷ q);
  clean = λ p. p;
  eval_symlinks =
      λ p. if bytes_eq.beq p (47 ∷ 97 ∷ 47 ∷ 98 ∷ []) then inr (47 ∷ 99 ∷ []) else inr p;
  dir = λ p. take 2 p;
  base = λ p. drop 3 p;
  path_separator = 47;
}

-- `b` below `/a` leads out of it
join_path_secure_lem_example :
    Judged 47 (47 ∷ 97 ∷ []) (47 ∷ 99 ∷ []) (join_path_secure disk (47 ∷ 97 ∷ []) (98 ∷ []))
unfolding joined_path_real
join_path_secure_lem_example =
    join_path_secure_lem disk (47 ∷ 97 ∷ []) (98 ∷ []) (47 ∷ 97 ∷ []) (47 ∷ 97 ∷ []) (47 ∷ 99 ∷ [])
      refl refl refl

escape_is_refused : join_path_secure disk (47 ∷ 97 ∷ []) (98 ∷ []) ≡ invalid
unfolding join_path_secure
escape_is_refused = refl

below_is_joined : join_path_secure disk (47 ∷ 97 ∷ []) (100 ∷ []) ≡ joined (47 ∷ 97 ∷ 47 ∷ 100 ∷ [])
unfolding join_path_secure
below_is_joined = refl
