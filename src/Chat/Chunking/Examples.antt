-- ===== src/Chat/Chunking/Examples.antt =====
-- `chunkText` (extensions/chat-inbox/render/chunking.ts) on small texts.
use picot.Base.{
  ◌≡◌, refl, [], ◌∷◌, arith, nat_eq, option_eq, Text, codes, text_eq, is_space, trim_start,
  trim_end, trim, split, All,
}
use picot.Chat.Chunking.{
  last_space, split_at, split_line, add_line, add_lines, split_long_block, push_current, add_part,
  add_parts, add_paragraphs, chunk_text, normalize_newlines, split_paragraphs,
}
use picot.Chat.Chunking.Bounds.{chunk_text-Fits, Fits}
use picot.Chat.Chunking.Solid.{solid, all_solid}
use picot.Chat.Chunking.Kept.{chunk_text-solid}

abbrev two_lines : Text
two_lines = codes "ab cd ef\n\ngh"

two_lines_pieces : chunk_text two_lines 6 ≡ codes "ab cd" ∷ codes "ef\n\ngh" ∷ []
unfolding chunk_text normalize_newlines split_paragraphs add_paragraphs add_parts add_part
    push_current split_long_block add_lines add_line split_line split_at last_space split trim
    trim_start trim_end is_space
two_lines_pieces = refl

unbroken_pieces : chunk_text (codes "abcdefg") 3 ≡ codes "abc" ∷ codes "def" ∷ codes "g" ∷ []
unfolding chunk_text normalize_newlines split_paragraphs add_paragraphs add_parts add_part
    push_current split_long_block add_lines add_line split_line split_at last_space split trim
    trim_start trim_end is_space
unbroken_pieces = refl

chunk_text-Fits_example : All (Fits 6) (chunk_text two_lines 6)
chunk_text-Fits_example = chunk_text-Fits two_lines 6 (omega arith)

chunk_text-solid_example : all_solid (chunk_text two_lines 6) ≡ solid two_lines
chunk_text-solid_example = chunk_text-solid two_lines 6
