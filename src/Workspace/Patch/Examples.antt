-- ===== src/Workspace/Patch/Examples.antt =====
-- Runs of the patch parser.
use picot.Base.{
  ◌≡◌, refl, none, some, List, [], ◌∷◌, ◌++◌, map, nat_eq, option_eq, Text, codes, text_eq,
  strip_prefix, split,
}
use picot.Workspace.Patch.{
  Parser, File, empty_file, new_parser, parse_line, parse_lines, flush_pending_lines, match_hunk,
  match_hunk_at, digits, pair_up, body_line, context_line, removed_line, added_line, hunk_line,
  start_hunk, parse_unified_patch,
}
use picot.Workspace.Patch.Flat.{
  flatten_diff_lines, flatten_files, flatten_rows, flatten_row, unchanged, was_removed, was_added,
}
use picot.Workspace.Patch.Rows.{lefts, rights}
use picot.Workspace.Patch.Columns.{
  Edit, keeps, removes, adds, render, old_column, new_column, old_cells, new_cells, hunk_columns,
}

abbrev small_patch : Text
small_patch =
    codes "diff --git a/x b/x"
    ++ 10 ∷ codes "--- a/x"
    ++ 10 ∷ codes "+++ b/x"
    ++ 10 ∷ codes "@@ -3,2 +3,2 @@"
    ++ 10 ∷ codes " a"
    ++ 10 ∷ codes "-b"
    ++ 10 ∷ codes "+c"

small_patch_lines :
    flatten_diff_lines small_patch
    ≡ record { type = unchanged; text = codes "a"; old_line_no = some 3; new_line_no = some 3 }
      ∷ record { type = was_removed; text = codes "b"; old_line_no = some 4; new_line_no = none }
      ∷ record { type = was_added; text = codes "c"; old_line_no = none; new_line_no = some 4 }
      ∷ []
unfolding flatten_diff_lines flatten_files flatten_rows flatten_row parse_unified_patch parse_lines
    parse_line new_parser flush_pending_lines pair_up split strip_prefix hunk_line start_hunk
    match_hunk match_hunk_at digits body_line context_line removed_line added_line
small_patch_lines = refl

-- A parser that has read the header of one file.
abbrev in_file : Parser
in_file = record {
  closed = [];
  current_file = some empty_file;
  old_line_no = 0;
  new_line_no = 0;
  pending_removed = [];
  pending_added = [];
}

abbrev script : List Edit
script = keeps (codes "a") ∷ removes (codes "b") ∷ adds (codes "c") ∷ []

hunk_columns_example :
    (g : File) × ((flush_pending_lines
        (parse_lines (codes "@@ -3,2 +3,2 @@" ∷ map render script) in_file)).current_file
      ≡ some g)
    × (lefts g.rows ≡ old_cells empty_file in_file ++ old_column 3 script)
    × (rights g.rows ≡ new_cells empty_file in_file ++ new_column 3 script)
unfolding match_hunk match_hunk_at digits strip_prefix
hunk_columns_example =
    hunk_columns (codes "-3,2 +3,2 @@") 3 3 script in_file empty_file refl refl
      (tt, (refl, (refl, tt)))
