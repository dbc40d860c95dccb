-- ===== src/Workspace/Paths.antt =====
-- public/workspace/path-utils.js: local paths with POSIX, drive and UNC roots, normalized segment by
-- segment, and what the sidebar shows of them. A value that is not a string is the empty text.
pub mod Segments
pub mod Examples
use picot.Base.{
  ℕ, ◌+◌, Bool, false, not, ◌&&◌, ◌||◌, Option, none, some, List, [], ◌∷◌, ◌++◌, map, leb, nat_beq,
  if◌then◌else◌, ◌==◌, nat_eq, option_eq, Text, codes, text_eq, strip_prefix, starts_with, trim,
  split, join, length, take, drop, keep, last, init, or_default, truthy,
}

abbrev pub slash : ℕ
slash = 47

pub record Root : Type 0 where
  pub root : Text
  pub rest : List Text

unfoldable pub is_letter : ℕ → Bool
is_letter c = leb 65 c && leb c 90 || leb 97 c && leb c 122

-- `/^[A-Za-z]:\//`
unfoldable pub is_drive : Text → Bool
unfolding is_letter
is_drive (a ∷ b ∷ c ∷ s) = is_letter a && nat_beq b 58 && nat_beq c slash
is_drive s = false

abbrev pub non_empty : List Text → List Text
non_empty ps = keep truthy ps

abbrev pub unc_root : List Text → Root
unc_root [] = record { root = codes "//"; rest = [] }
unc_root (host ∷ []) = record { root = codes "//" ++ host; rest = [] }
unc_root (host ∷ share ∷ ps) = record { root = codes "//" ++ host ++ slash ∷ share; rest = ps }

unfoldable pub parse_root : Text → Root
unfolding split strip_prefix is_drive
parse_root value =
    if starts_with (codes "//") value
    then unc_root (non_empty (split slash (drop 2 value)))
    else if is_drive value
    then record { root = take 3 value; rest = split slash (drop 3 value) }
    else if starts_with (codes "/") value
    then record { root = codes "/"; rest = split slash (drop 1 value) }
    else record { root = []; rest = split slash value }

abbrev pub dot : Text
dot = codes "."

abbrev pub dots : Text
dots = codes ".."

-- `parts.at(-1) && parts.at(-1) !== ".."`
abbrev pub can_pop : Option Text → Bool
can_pop none = false
can_pop (some p) = truthy p && not (p == dots)

-- One round of the loop of `normalizedParts`.
unfoldable pub add_part : Bool → List Text → Text → List Text
add_part rooted parts part =
    if not (truthy part) || part == dot
    then parts
    else if part == dots && can_pop (last parts)
    then init parts
    else if not (part == dots) || not rooted
    then parts ++ part ∷ []
    else parts

unfoldable pub add_parts : Bool → List Text → List Text → List Text
unfolding add_part
add_parts rooted parts [] = parts
add_parts rooted parts (p ∷ ps) = add_parts rooted (add_part rooted parts p) ps

-- `value.replaceAll("\\", "/")`
abbrev pub slashes : Text → Text
slashes value = map (λ c. if nat_beq c 92 then slash else c) value

pub record Parts : Type 0 where
  pub root : Text
  pub parts : List Text

unfoldable pub normalized_parts : Text → Parts
unfolding parse_root add_parts
normalized_parts value =
    let r = parse_root (slashes value) in
    record { root = r.root; parts = add_parts (truthy r.root) [] r.rest }

unfoldable pub join_root : Text → List Text → Text
unfolding join
join_root root parts =
    let body = join slash parts in
    if root == codes "/"
    then (if truthy body then slash ∷ body else codes "/")
    else if last root == some slash
    then (if truthy body then root ++ body else root)
    else if truthy root
    then (if truthy body then root ++ slash ∷ body else root)
    else body

unfoldable pub normalize_local_path : Text → Text
unfolding normalized_parts join_root trim
normalize_local_path value = let p = normalized_parts (trim value) in join_root p.root p.parts

unfoldable pub display_local_path : Text → Text
unfolding normalize_local_path is_drive strip_prefix
display_local_path value =
    let normalized = normalize_local_path value in
    if not (truthy normalized) || starts_with (codes "/") normalized || is_drive normalized
    then normalized
    else slash ∷ normalized

-- `/^[A-Za-z]:\/$/`
abbrev pub is_drive_root : Text → Bool
is_drive_root s = is_drive s && length s == 3

-- `/^\/\/[^/]+\/[^/]+$/`, by the pieces between the slashes.
abbrev pub is_unc_pieces : List Text → Bool
is_unc_pieces (a ∷ b ∷ host ∷ share ∷ []) =
    not (truthy a) && not (truthy b) && truthy host && truthy share
is_unc_pieces ps = false

abbrev pub is_whole_root : Text → Bool
is_whole_root s = not (truthy s) || s == codes "/" || is_drive_root s

unfoldable pub basename_local_path : Text → Text
unfolding normalize_local_path split is_drive
basename_local_path value =
    let normalized = normalize_local_path value in
    if is_whole_root normalized || is_unc_pieces (split slash normalized)
    then normalized
    else or_default (last (split slash normalized)) []

unfoldable pub compact_workspace_label : Text → Text
unfolding basename_local_path display_local_path
compact_workspace_label value =
    let base = basename_local_path value in if truthy base then base else display_local_path value

unfoldable pub parent_local_path : Text → Text
unfolding normalize_local_path normalized_parts join_root is_drive
parent_local_path value =
    let normalized = normalize_local_path value in
    let p = normalized_parts normalized in
    if is_whole_root normalized
    then normalized
    else if length p.parts == 0
    then p.root
    else join_root p.root (init p.parts)
