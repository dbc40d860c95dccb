-- ===== src/Workspace/Patch.antt =====
-- The unified-diff parser behind the diff views: public/workspace/patch-utils.js.
-- `currentFile` is always the last of `files`, so the files before it are `closed`.
pub mod Flat
pub mod Rows
pub mod Columns
pub mod Examples
use picot.Base.{
  ℕ, suc, ◌+◌, ◌-◌, ◌*◌, Bool, true, false, ◌&&◌, Option, none, some, List, [], ◌∷◌, ◌++◌, leb,
  nat_beq, if◌then◌else◌, nat_eq, option_eq, Text, codes, text_eq, strip_prefix, starts_with, split,
  drop, or_default, is_some, truthy,
}

pub data CellType : Type 0 where
  context removed added empty : CellType

pub record Cell : Type 0 where
  pub type : CellType
  pub text : Text
  pub line_no : Option ℕ

pub data Row : Type 0 where
  hunk : Text → Row
  line : Cell → Cell → Row

pub record File : Type 0 where
  pub old_path : Text
  pub new_path : Text
  pub rows : List Row

pub record Parser : Type 0 where
  pub closed : List File
  pub current_file : Option File
  pub old_line_no : ℕ
  pub new_line_no : ℕ
  pub pending_removed : List Cell
  pub pending_added : List Cell

abbrev pub empty_cell : Cell
empty_cell = record { type = empty; text = []; line_no = none }

abbrev pub empty_file : File
empty_file = record { old_path = []; new_path = []; rows = [] }

-- The rows of the pending lines: as many as the longer list has, the shorter filled up.
unfoldable pub pair_up : List Cell → List Cell → List Row
pair_up [] [] = []
pair_up (l ∷ ls) [] = line l empty_cell ∷ pair_up ls []
pair_up [] (r ∷ rs) = line empty_cell r ∷ pair_up [] rs
pair_up (l ∷ ls) (r ∷ rs) = line l r ∷ pair_up ls rs

abbrev pub add_rows : List Row → File → File
add_rows rows f = record f { rows = f.rows ++ rows }

unfoldable pub flush_pending_lines : Parser → Parser
flush_pending_lines p = elim p.current_file [
  | none ↦ p
  | some f ↦ record p {
    current_file = some (add_rows (pair_up p.pending_removed p.pending_added) f);
    pending_removed = [];
    pending_added = [];
  }
]

abbrev pub close_current : Option File → List File → List File
close_current none fs = fs
close_current (some f) fs = fs ++ f ∷ []

abbrev pub open_file : Parser → Parser
open_file p = record p {
  closed = close_current p.current_file p.closed;
  current_file = some empty_file;
}

-- `text.replace(/^a\//, "")`
abbrev pub without : Text → Text → Text
without prefix t = or_default (strip_prefix prefix t) t

abbrev pub is_digit : ℕ → Bool
is_digit c = leb 48 c && leb c 57

-- `\d+`, greedily: the number and the rest. `seen` tells whether a digit stands before.
unfoldable pub digits : Bool → ℕ → Text → Option (ℕ × Text)
digits seen acc [] = if seen then some (acc, []) else none
digits seen acc (c ∷ s) =
    let more = digits true (acc * 10 + (c - 48)) s in
    if is_digit c then more else if seen then some (acc, c ∷ s) else none

-- `(?:,\d+)?`
abbrev pub skip_count : Text → Text
skip_count s = elim (strip_prefix (codes ",") s) [
  | none ↦ s
  | some r ↦ elim (digits false 0 r) [ none ↦ s | some (n, r') ↦ r' ]
]

infixl 5 ◌>>=◌
abbrev ◌>>=◌ {ℓ κ} : {A : Type ℓ} {B : Type κ} → Option A → (A → Option B) → Option B
none >>= f = none
some a >>= f = f a

-- The pattern of the hunk header at the start of the text.
unfoldable pub match_hunk_at : Text → Option (ℕ × ℕ)
match_hunk_at s = do
  a ← strip_prefix (codes "@@ -") s
  (old, b) ← digits false 0 a
  c ← strip_prefix (codes " +") (skip_count b)
  (new, d) ← digits false 0 c
  e ← strip_prefix (codes " @@") (skip_count d)
  some (old, new)

-- The first match anywhere in the line.
unfoldable pub match_hunk : Text → Option (ℕ × ℕ)
unfolding match_hunk_at
match_hunk [] = none
match_hunk (c ∷ s) =
    let later = match_hunk s in elim (match_hunk_at (c ∷ s)) [ none ↦ later | some m ↦ some m ]

abbrev pub ensure_file : Parser → Parser
ensure_file p = elim p.current_file [ none ↦ open_file p | some f ↦ p ]

abbrev pub map_file : (File → File) → Parser → Parser
map_file g p = elim p.current_file [ none ↦ p | some f ↦ record p { current_file = some (g f) } ]

abbrev pub numbered : CellType → Text → ℕ → Cell
numbered type text n = record { type = type; text = text; line_no = some n }

unfoldable pub context_line : Text → Parser → Parser
context_line text p =
    let q = flush_pending_lines p in
    map_file
      (add_rows
        (line (numbered context text q.old_line_no) (numbered context text q.new_line_no) ∷ []))
      (record q { old_line_no = suc q.old_line_no; new_line_no = suc q.new_line_no })

unfoldable pub removed_line : Text → Parser → Parser
removed_line text p = record p {
  pending_removed = p.pending_removed ++ numbered removed text p.old_line_no ∷ [];
  old_line_no = suc p.old_line_no;
}

unfoldable pub added_line : Text → Parser → Parser
added_line text p = record p {
  pending_added = p.pending_added ++ numbered added text p.new_line_no ∷ [];
  new_line_no = suc p.new_line_no;
}

-- The line once it is known to be in a file and no header.
unfoldable pub body_line : Text → Parser → Parser
unfolding context_line removed_line added_line
body_line [] p = context_line [] p
body_line (c ∷ s) p =
    if nat_beq c b'-'
    then removed_line s p
    else if nat_beq c b'+'
    then added_line s p
    else if nat_beq c b' '
    then context_line s p
    else p

-- The header's row, after the line numbers that it carries.
unfoldable pub start_hunk : Text → Option (ℕ × ℕ) → Parser → Parser
start_hunk s none p = map_file (add_rows (hunk s ∷ [])) p
start_hunk s (some (old, new)) p =
    map_file (add_rows (hunk s ∷ [])) (record p { old_line_no = old; new_line_no = new })

unfoldable pub hunk_line : Text → Parser → Parser
unfolding start_hunk
hunk_line s p = start_hunk s (match_hunk s) (flush_pending_lines p)

unfoldable pub parse_line : Text → Parser → Parser
parse_line s p =
    if starts_with (codes "diff ") s
    then open_file (flush_pending_lines p)
    else if starts_with (codes "--- ") s
    then map_file (λ f. record f { old_path = without (codes "a/") (drop 4 s) }) (ensure_file p)
    else if starts_with (codes "+++ ") s
    then map_file (λ f. record f { new_path = without (codes "b/") (drop 4 s) }) (ensure_file p)
    else if starts_with (codes "@@ ") s
    then hunk_line s p
    else if is_some p.current_file
    then body_line s p
    else p

unfoldable pub parse_lines : List Text → Parser → Parser
parse_lines [] p = p
parse_lines (s ∷ ss) p = parse_lines ss (parse_line s p)

unfoldable pub new_parser : Parser
new_parser = record {
  closed = [];
  current_file = none;
  old_line_no = 0;
  new_line_no = 0;
  pending_removed = [];
  pending_added = [];
}

unfoldable pub parse_unified_patch : Text → List File
parse_unified_patch text =
    let p = flush_pending_lines (parse_lines (split 10 text) new_parser) in
    if truthy text then close_current p.current_file p.closed else []

abbrev pub is_type : CellType → CellType → Bool
is_type context context = true
is_type removed removed = true
is_type added added = true
is_type empty empty = true
is_type _ _ = false
