-- ===== src/Workspace/Patch/Flat.antt =====
-- `flattenDiffLines` of public/workspace/patch-utils.js: the rows of a split diff as one list of lines.
use picot.Base.{
  ℕ, ◌&&◌, Option, none, List, [], ◌∷◌, ◌++◌, if◌then◌else◌, nat_eq, option_eq, Text, text_eq,
}
use picot.Workspace.Patch.{
  context, removed, added, Row, hunk, line, File, parse_unified_patch, is_type,
}

pub data LineType : Type 0 where
  unchanged was_removed was_added : LineType

pub record DiffLine : Type 0 where
  pub type : LineType
  pub text : Text
  pub old_line_no : Option ℕ
  pub new_line_no : Option ℕ

unfoldable pub flatten_row : Row → List DiffLine
flatten_row (hunk h) = []
flatten_row (line left right) =
    if is_type context left.type && is_type context right.type
    then record {
      type = unchanged;
      text = right.text;
      old_line_no = left.line_no;
      new_line_no = right.line_no;
    }
      ∷ []
    else (if is_type removed left.type
        then record {
          type = was_removed;
          text = left.text;
          old_line_no = left.line_no;
          new_line_no = none;
        }
          ∷ []
        else [])
      ++ (if is_type added right.type
          then record {
            type = was_added;
            text = right.text;
            old_line_no = none;
            new_line_no = right.line_no;
          }
            ∷ []
          else [])

unfoldable pub flatten_rows : List Row → List DiffLine
flatten_rows [] = []
flatten_rows (r ∷ rs) = flatten_row r ++ flatten_rows rs

unfoldable pub flatten_files : List File → List DiffLine
flatten_files [] = []
flatten_files (f ∷ fs) = flatten_rows f.rows ++ flatten_files fs

unfoldable pub flatten_diff_lines : Text → List DiffLine
flatten_diff_lines patch = flatten_files (parse_unified_patch patch)
