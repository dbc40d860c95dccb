-- ===== src/Workspace/Paths/Examples.antt =====
-- Local paths, normalized.
use picot.Base.{
  ◌≡◌, refl, true, [], nat_eq, option_eq, codes, text_beq, text_eq, strip_prefix, is_space,
  trim_start, trim_end, trim, split, join, truthy,
}
use picot.Workspace.Paths.{
  parse_root, add_part, add_parts, normalized_parts, normalize_local_path, join_root, is_drive,
  is_letter,
}
use picot.Workspace.Paths.Segments.{reduced, normalized_parts_lem}

posix_path : normalize_local_path (codes " /home//me/./work/../notes/ ") ≡ codes "/home/me/notes"
unfolding normalize_local_path normalized_parts parse_root add_parts add_part join_root is_drive
    is_letter split join strip_prefix text_beq trim trim_start trim_end is_space
posix_path = refl

drive_path : normalize_local_path (codes "C:\\work\\..\\..\\notes") ≡ codes "C:/notes"
unfolding normalize_local_path normalized_parts parse_root add_parts add_part join_root is_drive
    is_letter split join strip_prefix text_beq trim trim_start trim_end is_space
drive_path = refl

normalized_parts_lem_example :
    (reduced
        (truthy (normalized_parts (codes "../a/./b")).root)
        (normalized_parts (codes "../a/./b")).parts
      ≡ true)
    × (add_parts
          (truthy (normalized_parts (codes "../a/./b")).root)
          []
          (normalized_parts (codes "../a/./b")).parts
        ≡ (normalized_parts (codes "../a/./b")).parts)
normalized_parts_lem_example = normalized_parts_lem (codes "../a/./b")
