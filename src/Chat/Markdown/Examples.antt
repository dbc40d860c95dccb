-- ===== src/Chat/Markdown/Examples.antt =====
-- `StreamingMarkdownRenderer` (extensions/chat-inbox/render/streaming-markdown.ts) on small texts.
use picot.Base.{
  ◌≡◌, refl, true, false, List, [], ◌∷◌, ◌++◌, nat_beq, if◌then◌else◌, nat_eq, option_eq, Text,
  codes, text_beq, text_eq, strip_prefix, is_space, trim_start, trim_end, trim, split, join, any,
}
use picot.Chat.Markdown.{
  is_fence, inside_after, is_inside_code_fence, ends_in_pipe, is_table_row, cell_next, cells,
  is_table_separator, table_line, count_held, get_committable_prefix, wrap_line, wrap_lines,
  wrap_tables_for_append,
}
use picot.Chat.Markdown.Renderer.{
  new_renderer, count_fences, push, is_accumulated_inside_fence, clean_before, find_clean_prefix,
}
use picot.Chat.Markdown.Fences.{push_all, is_accumulated_inside_fence-push_all}
use picot.Chat.Markdown.Tables.{wrap_tables_for_append-balanced}

abbrev fenced_chunks : List Text
fenced_chunks = codes "see\n``" ∷ codes "`js\nlet" ∷ []

-- The fence came in two chunks.
fence_is_open : is_accumulated_inside_fence (push_all (new_renderer true) fenced_chunks) ≡ true
unfolding is_accumulated_inside_fence push_all push count_fences split is_fence trim_start is_space
    strip_prefix
fence_is_open = refl

separator_read : is_table_separator (codes "| :-- | --- |") ≡ true
unfolding is_table_separator cells cell_next is_space
separator_read = refl

separator_refused : is_table_separator (codes "| :-- | x |") ≡ false
unfolding is_table_separator cells cell_next is_space
separator_refused = refl

abbrev half_table : Text
half_table = codes "text\n|a|b|\n"

table_held : get_committable_prefix half_table ≡ codes "text\n"
unfolding get_committable_prefix count_held table_line split join text_beq is_table_separator cells
    cell_next is_table_row ends_in_pipe trim trim_start trim_end is_space
table_held = refl

abbrev strict_remend : Text → Text
strict_remend t = if any (λ c. nat_beq c 42) t then t ++ codes "*" else t

is_accumulated_inside_fence-push_all_example :
    is_accumulated_inside_fence (push_all (new_renderer true) fenced_chunks)
    ≡ is_inside_code_fence (push_all (new_renderer true) fenced_chunks).accumulated
is_accumulated_inside_fence-push_all_example =
    is_accumulated_inside_fence-push_all true fenced_chunks

emphasis_left_out : find_clean_prefix strict_remend (codes "a **b") ≡ codes "a "
unfolding find_clean_prefix clean_before
emphasis_left_out = refl

table_wrapped : wrap_tables_for_append (codes "|a|\nb") true ≡ codes "```\n|a|\n```\nb"
unfolding wrap_tables_for_append wrap_lines wrap_line split join is_table_separator cells cell_next
    is_table_row ends_in_pipe trim trim_start trim_end is_space is_inside_code_fence inside_after
    is_fence strip_prefix
table_wrapped = refl

wrap_tables_for_append-balanced_example :
    is_inside_code_fence (wrap_tables_for_append half_table true) ≡ is_inside_code_fence half_table
wrap_tables_for_append-balanced_example = wrap_tables_for_append-balanced half_table
