-- ===== src/Chat/Chunking.antt =====
-- `chunkText` of extensions/chat-inbox/render/chunking.ts: a text in pieces that a service accepts.
-- The length of a text is its number of code units. The `while` over a long line runs on fuel, its
-- length, which is enough for every limit of at least 1; for the limit 0 the source does not return,
-- and what the model gives then is the state at the end of the fuel. `Math.floor(limit * 0.6)` is
-- written over the natural numbers.
pub mod Bounds
pub mod Solid
pub mod Kept
pub mod Examples
use Prim.Native.Nat.{◌/◌}
use picot.Base.{
  ℕ, zero, suc, ◌+◌, ◌*◌, Bool, true, false, ◌&&◌, Option, none, some, List, [], ◌∷◌, ◌++◌, ltb,
  leb, nat_beq, if◌then◌else◌, nat_eq, option_eq, Text, text_eq, trim_start, trim, split, cons_head,
  length, take, drop, truthy,
}

abbrev pub newline : ℕ
newline = 10

abbrev pub starts_with_unit : ℕ → Text → Bool
starts_with_unit d [] = false
starts_with_unit d (c ∷ s) = nat_beq c d

-- `text.replace(/\r\n/g, "\n")`
unfoldable pub normalize_newlines : Text → Text
normalize_newlines [] = []
normalize_newlines (c ∷ s) =
    let rest = normalize_newlines s in
    if nat_beq c 13 && starts_with_unit newline s then rest else c ∷ rest

-- `normalized.split(/\n\n+/)`; `inside` tells that a separator has begun.
unfoldable pub split_paragraphs : Bool → Text → List Text
split_paragraphs inside [] = [] ∷ []
split_paragraphs true (c ∷ s) =
    let skipped = split_paragraphs true s in
    let kept = cons_head c (split_paragraphs false s) in if nat_beq c newline then skipped else kept
split_paragraphs false (c ∷ s) =
    let cut = [] ∷ split_paragraphs true s in
    let kept = cons_head c (split_paragraphs false s) in
    if nat_beq c newline && starts_with_unit newline s then cut else kept

-- `remaining.lastIndexOf(" ", limit)`
unfoldable pub last_space : ℕ → Text → Option ℕ
last_space limit [] = none
last_space zero (c ∷ s) = if nat_beq c 32 then some 0 else none
last_space (suc n) (c ∷ s) = elim (last_space n s) [
  | none ↦ if nat_beq c 32 then some 0 else none
  | some i ↦ some (suc i)
]

abbrev pub split_index : ℕ → Option ℕ → ℕ
split_index limit none = limit
split_index limit (some i) = if ltb i (limit * 6 / 10) then limit else i

unfoldable pub split_at : ℕ → Text → ℕ
unfolding last_space
split_at limit remaining = split_index limit (last_space limit remaining)

-- The pieces of a long line, and what remains of it.
unfoldable pub split_line : ℕ → ℕ → Text → List Text × Text
unfolding split_at trim_start
split_line zero limit remaining = ([], remaining)
split_line (suc fuel) limit remaining =
    let at = split_at limit remaining in
    let rest = split_line fuel limit (trim_start (drop at remaining)) in
    if ltb limit (length remaining) then (take at remaining ∷ rest.0, rest.1) else ([], remaining)

-- `current.length === 0 ? part : current + separator + part`
abbrev pub joined : Text → Text → Text → Text
joined [] separator part = part
joined (c ∷ s) separator part = (c ∷ s) ++ separator ++ part

-- The chunks so far and the one that is being filled.
pub record Filling : Type 0 where
  pub chunks : List Text
  pub current : Text

abbrev pub push_line : Filling → List Text
push_line f = if truthy f.current then f.chunks ++ f.current ∷ [] else f.chunks

unfoldable pub add_line : ℕ → Filling → Text → Filling
unfolding split_line
add_line limit f line =
    let candidate = joined f.current (newline ∷ []) line in
    let pieces = split_line (length line) limit line in
    if leb (length candidate) limit
    then record f { current = candidate }
    else if leb (length line) limit
    then record { chunks = push_line f; current = line }
    else record { chunks = push_line f ++ pieces.0; current = pieces.1 }

unfoldable pub add_lines : ℕ → Filling → List Text → Filling
unfolding add_line
add_lines limit f [] = f
add_lines limit f (l ∷ ls) = add_lines limit (add_line limit f l) ls

abbrev pub nothing_yet : Filling
nothing_yet = record { chunks = []; current = [] }

unfoldable pub split_long_block : ℕ → Text → List Text
unfolding add_lines split
split_long_block limit block =
    if leb (length block) limit
    then block ∷ []
    else push_line (add_lines limit nothing_yet (split newline block))

-- `pushCurrent`: a chunk of white space is dropped.
unfoldable pub push_current : Filling → List Text
unfolding trim
push_current f = if truthy (trim f.current) then f.chunks ++ f.current ∷ [] else f.chunks

unfoldable pub add_part : ℕ → Filling → Text → Filling
unfolding push_current
add_part limit f part =
    let candidate = joined f.current (newline ∷ newline ∷ []) part in
    if leb (length candidate) limit
    then record f { current = candidate }
    else record { chunks = push_current f; current = part }

unfoldable pub add_parts : ℕ → Filling → List Text → Filling
unfolding add_part
add_parts limit f [] = f
add_parts limit f (p ∷ ps) = add_parts limit (add_part limit f p) ps

unfoldable pub add_paragraphs : ℕ → Filling → List Text → Filling
unfolding add_parts split_long_block
add_paragraphs limit f [] = f
add_paragraphs limit f (p ∷ ps) =
    add_paragraphs limit (if truthy p then add_parts limit f (split_long_block limit p) else f) ps

abbrev pub or_whole : ℕ → Text → List Text → List Text
or_whole limit normalized [] = take limit normalized ∷ []
or_whole limit normalized (c ∷ cs) = c ∷ cs

unfoldable pub chunk_text : Text → ℕ → List Text
unfolding normalize_newlines split_paragraphs add_paragraphs push_current
chunk_text text limit =
    let normalized = normalize_newlines text in
    let filled = add_paragraphs limit nothing_yet (split_paragraphs false normalized) in
    if leb (length text) limit then text ∷ [] else or_whole limit normalized (push_current filled)
