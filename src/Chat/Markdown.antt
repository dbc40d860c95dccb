-- ===== src/Chat/Markdown.antt =====
-- `StreamingMarkdownRenderer` (extensions/chat-inbox/render/streaming-markdown.ts): what of a growing
-- markdown text may be shown. `remend`, which completes unfinished markdown, is a parameter. The two
-- patterns for table lines are written as the automata that they describe.
pub mod Renderer
pub mod Fences
pub mod Prefix
pub mod Tables
pub mod Examples
use Prim.Native.Nat.{◌%◌}
use mathlib.Core.List.{reverse}
use picot.Base.{
  ℕ, zero, suc, ◌+◌, ◌-◌, Bool, true, false, not, ◌&&◌, ◌||◌, Option, none, some, List, [], ◌∷◌,
  ◌++◌, ltb, leb, nat_beq, if◌then◌else◌, ◌==◌, nat_eq, option_eq, Text, codes, text_beq, text_eq,
  strip_prefix, starts_with, is_space, trim_start, trim, split, join, length, get_elem?, take, last,
  init, or_default, truthy,
}
use picot.Chat.Chunking.{newline}

unfoldable pub is_fence : Text → Bool
unfolding trim_start strip_prefix
is_fence line =
    starts_with (codes "```") (trim_start line) || starts_with (codes "~~~") (trim_start line)

unfoldable pub inside_after : Bool → List Text → Bool
unfolding is_fence
inside_after inside [] = inside
inside_after inside (l ∷ ls) = inside_after (if is_fence l then not inside else inside) ls

unfoldable pub is_inside_code_fence : Text → Bool
unfolding inside_after split
is_inside_code_fence text = inside_after false (split newline text)

abbrev pub pipe : ℕ
pipe = 124

-- `.` matches no line terminator.
abbrev pub is_line_end : ℕ → Bool
is_line_end c = nat_beq c 10 || nat_beq c 13 || nat_beq c 0x2028 || nat_beq c 0x2029

-- `.*\|$`
unfoldable pub ends_in_pipe : Text → Bool
ends_in_pipe [] = false
ends_in_pipe (c ∷ []) = nat_beq c pipe
ends_in_pipe (c ∷ d ∷ s) = not (is_line_end c) && ends_in_pipe (d ∷ s)

-- `TABLE_ROW_RE.test(line)`
unfoldable pub is_table_row : Text → Bool
unfolding ends_in_pipe
is_table_row [] = false
is_table_row (c ∷ s) = nat_beq c pipe && ends_in_pipe s

-- Where the reading of a separator line stands: before a cell's dashes, in them, after them, after
-- the `|` that ends a cell.
pub data CellState : Type 0 where
  before_dashes in_dashes after_dashes cell_end : CellState

abbrev pub is_filler : ℕ → Bool
is_filler c = is_space c || nat_beq c 58

unfoldable pub cell_next : CellState → ℕ → Option CellState
unfolding is_space
cell_next before_dashes c =
    if is_filler c then some before_dashes else if nat_beq c 45 then some in_dashes else none
cell_next in_dashes c =
    if nat_beq c 45
    then some in_dashes
    else if is_filler c
    then some after_dashes
    else if nat_beq c pipe
    then some cell_end
    else none
cell_next after_dashes c =
    if is_filler c then some after_dashes else if nat_beq c pipe then some cell_end else none
cell_next cell_end c =
    if is_filler c then some before_dashes else if nat_beq c 45 then some in_dashes else none

unfoldable pub cells : CellState → Text → Bool
unfolding cell_next
cells cell_end [] = true
cells before_dashes [] = false
cells in_dashes [] = false
cells after_dashes [] = false
cells st (c ∷ s) = elim (cell_next st c) [ none ↦ false | some next ↦ cells next s ]

-- `TABLE_SEPARATOR_RE.test(line)`
unfoldable pub is_table_separator : Text → Bool
unfolding cells
is_table_separator [] = false
is_table_separator (c ∷ s) = nat_beq c pipe && cells before_dashes s

abbrev pub ends_with_newline : Text → Bool
ends_with_newline text = last text == some newline

-- What a line, without the white space around it, is for the table that it may belong to.
pub data TableLine : Type 0 where
  separator_line row_line other_line : TableLine

unfoldable pub table_line : Text → TableLine
unfolding is_table_separator is_table_row
table_line trimmed =
    if not (truthy trimmed)
    then other_line
    else if is_table_separator trimmed
    then separator_line
    else if is_table_row trimmed
    then row_line
    else other_line

-- The lines, from the last one on, that may belong to a table, and whether its separator is there.
unfoldable pub count_held : ℕ → Bool → List Text → ℕ × Bool
unfolding table_line trim
count_held held separator [] = (held, separator)
count_held held separator (l ∷ ls) = elim (table_line (trim l)) [
  | separator_line ↦ count_held (suc held) true ls
  | row_line ↦ count_held (suc held) separator ls
  | other_line ↦ (held, separator)
]

abbrev pub complete_lines : Bool → List Text → List Text
complete_lines false lines = init lines
complete_lines true lines = if last lines == some [] then init lines else lines

abbrev pub terminated : List Text → Text
terminated [] = []
terminated (l ∷ ls) = join newline (l ∷ ls) ++ newline ∷ []

unfoldable pub get_committable_prefix : Text → Text
unfolding count_held split join text_beq
get_committable_prefix text =
    let lines = complete_lines (ends_with_newline text) (split newline text) in
    let held = count_held 0 false (reverse lines) in
    if nat_beq held.0 0
    then text
    else if not held.1
    then terminated (take (length lines - held.0) lines)
    else text

-- The lines written so far, and whether a table is open.
pub record Wrapping : Type 0 where
  pub out : List Text
  pub in_table : Bool

abbrev pub fence_line : Text
fence_line = codes "```"

unfoldable pub wrap_line : Wrapping → Text → Wrapping
unfolding is_table_row is_table_separator trim is_inside_code_fence join
wrap_line w line =
    if not w.in_table && is_table_row (trim line) && not (is_inside_code_fence (join newline w.out))
    then record { out = w.out ++ fence_line ∷ line ∷ []; in_table = true }
    else if w.in_table && not (is_table_row (trim line)) && not (is_table_separator (trim line))
    then record { out = w.out ++ fence_line ∷ line ∷ []; in_table = false }
    else record { out = w.out ++ line ∷ []; in_table = w.in_table }

unfoldable pub wrap_lines : Wrapping → List Text → Wrapping
unfolding wrap_line
wrap_lines w [] = w
wrap_lines w (l ∷ ls) = wrap_lines (wrap_line w l) ls

abbrev pub close_table : Bool → Wrapping → List Text
close_table close_fences w = if w.in_table && close_fences then w.out ++ fence_line ∷ [] else w.out

unfoldable pub wrap_tables_for_append : Text → Bool → Text
unfolding wrap_lines split join
wrap_tables_for_append text close_fences = join newline (
    close_table close_fences
      (wrap_lines (record { out = []; in_table = false }) (split newline text)))
