-- ===== src/Chat/Chunking/Bounds.antt =====
-- Every piece of `chunkText` (extensions/chat-inbox/render/chunking.ts) fits the limit, and the loop
-- over a long line ends.
use picot.Base.{
  ℕ, zero, suc, ◌+◌, ◌≤◌, ◌<◌, ◌≡◌, refl, inl, inr, false, some, List, [], ◌∷◌, ◌++◌, arith, ltb,
  if◌then◌else◌, nat_eq, Bool-cases, Option-cases, if-both, option_eq, Text, text_eq, is_space,
  trim_start, trim, split, length, take, drop, All, length-append, length-drop, All-append, truthy,
}
use picot.Chat.Chunking.{
  newline, last_space, split_at, split_line, joined, Filling, push_line, add_line, add_lines,
  nothing_yet, split_long_block, push_current, add_part, add_parts, add_paragraphs, or_whole,
  chunk_text, normalize_newlines, split_paragraphs,
}

length-take-le : (n : ℕ) (s : Text) → length (take n s) ≤ n
length-take-le zero s = omega arith
length-take-le (suc n) [] = omega arith
length-take-le (suc n) (c ∷ s) = omega (arith, length-take-le n s)

length-trim_start-le : (s : Text) → length (trim_start s) ≤ length s
unfolding trim_start
length-trim_start-le [] = omega arith
length-trim_start-le (c ∷ s) =
    if-both (λ t. length t ≤ suc (length s)) (is_space c) (trim_start s) (c ∷ s)
      (omega (arith, length-trim_start-le s)) (omega arith)

last_space-le : (n : ℕ) (s : Text) (i : ℕ) → last_space n s ≡ some i → i ≤ n
unfolding last_space
last_space-le n [] i h = ground (arith, h)
last_space-le zero (c ∷ s) i h = ground (arith, h)
last_space-le (suc n) (c ∷ s) i h = elim (Option-cases (last_space n s)) [
  | inl absent ↦ ground (arith, absent, h)
  | inr (j, found) ↦ ground (arith, found, h, last_space-le n s j found)
]

split_at-le : (limit : ℕ) (s : Text) → split_at limit s ≤ limit
unfolding split_at
split_at-le limit s = elim (Option-cases (last_space limit s)) [
  | inl absent ↦ ground (arith, absent)
  | inr (i, found) ↦ ground (arith, found, last_space-le limit s i found)
]

-- A split at the very start is a split at a space there.
last_space-zero : (n : ℕ) (c : ℕ) (s : Text) → last_space n (c ∷ s) ≡ some 0 → c ≡ 32
unfolding last_space
last_space-zero zero c s h = ground (arith, h)
last_space-zero (suc n) c s h = elim (Option-cases (last_space n s)) [
  | inl absent ↦ ground (arith, absent, h)
  | inr (j, found) ↦ ground (arith, found, h)
]

drops_space : (s : Text) → length (trim_start (32 ∷ s)) ≤ length s
unfolding trim_start is_space
drops_space s = length-trim_start-le s

progress_at :
    (at : ℕ) (s : Text) → 1 ≤ at → 1 ≤ length s → length (trim_start (drop at s)) < length s
progress_at at s a l = omega (arith, length-trim_start-le (drop at s), length-drop at s)

progress :
    (limit : ℕ) (s : Text)
    → 1 ≤ limit
    → limit < length s
    → length (trim_start (drop (split_at limit s) s)) < length s
unfolding split_at
progress limit [] l h = omega (arith, h)
progress limit (c ∷ s) l h = elim (Option-cases (last_space limit (c ∷ s))) [
  | inl absent ↦ ground (arith, absent, progress_at limit (c ∷ s))
  | inr (zero, found) ↦
      ground
        (arith, found, progress_at limit (c ∷ s), last_space-zero limit c s found, drops_space s)
  | inr (suc i, found) ↦
      ground (arith, found, progress_at limit (c ∷ s), progress_at (suc i) (c ∷ s))
]

abbrev pub Fits : ℕ → Text → Type 0
Fits limit t = length t ≤ limit

split_line-Fits :
    (fuel limit : ℕ) (s : Text)
    → 1 ≤ limit
    → length s ≤ fuel
    → All (Fits limit) (split_line fuel limit s).0 × Fits limit (split_line fuel limit s).1
unfolding split_line
split_line-Fits zero limit s l h = ground (arith, l, h)
split_line-Fits (suc fuel) limit s l h = elim (Bool-cases (ltb limit (length s))) [
  | inl long ↦
      let rest = trim_start (drop (split_at limit s) s) in
      ground (
        arith,
        long,
        progress limit s l,
        length-take-le (split_at limit s) s,
        split_at-le limit s,
        split_line-Fits fuel limit rest l,
      )
  | inr short ↦ ground (arith, short)
]

length-joined :
    (current separator part : Text)
    → length (joined current separator part) ≤ length current + length separator + length part
length-joined [] separator part = omega arith
length-joined (c ∷ s) separator part =
    omega (arith, length-append (s ++ separator) part, length-append s separator)

-- What is filled fits.
abbrev pub FillingFits : ℕ → Filling → Type 0
FillingFits limit f = All (Fits limit) f.chunks × Fits limit f.current

push_line-Fits : (limit : ℕ) (f : Filling) → FillingFits limit f → All (Fits limit) (push_line f)
push_line-Fits limit f (a, b) =
    if-both (All (Fits limit)) (truthy f.current) (f.chunks ++ f.current ∷ []) f.chunks
      (All-append (Fits limit) f.chunks (f.current ∷ []) a (b, tt)) a

push_current-Fits :
    (limit : ℕ) (f : Filling) → FillingFits limit f → All (Fits limit) (push_current f)
unfolding push_current
push_current-Fits limit f (a, b) =
    if-both (All (Fits limit)) (truthy (trim f.current)) (f.chunks ++ f.current ∷ []) f.chunks
      (All-append (Fits limit) f.chunks (f.current ∷ []) a (b, tt)) a

add_line-Fits :
    (limit : ℕ) (f : Filling) (line : Text)
    → 1 ≤ limit
    → FillingFits limit f
    → FillingFits limit (add_line limit f line)
unfolding add_line
add_line-Fits limit f line l h =
    let pieces = split_line (length line) limit line in
    let fit = split_line-Fits (length line) limit line l (omega arith) in
    let pushed = push_line-Fits limit f h in
    let both = All-append (Fits limit) (push_line f) pieces.0 pushed fit.0 in
    ground (arith, h, fit, pushed, both)

add_lines-Fits :
    (limit : ℕ) (f : Filling) (ls : List Text)
    → 1 ≤ limit
    → FillingFits limit f
    → FillingFits limit (add_lines limit f ls)
unfolding add_lines
add_lines-Fits limit f [] l h = h
add_lines-Fits limit f (x ∷ ls) l h =
    add_lines-Fits limit (add_line limit f x) ls l (add_line-Fits limit f x l h)

split_long_block-Fits :
    (limit : ℕ) (block : Text) → 1 ≤ limit → All (Fits limit) (split_long_block limit block)
unfolding split_long_block
split_long_block-Fits limit block l =
    let fit =
      push_line-Fits limit (add_lines limit nothing_yet (split newline block))
        (add_lines-Fits limit nothing_yet (split newline block) l (tt, omega arith)) in
    ground (arith, fit)

add_part-Fits :
    (limit : ℕ) (f : Filling) (part : Text)
    → Fits limit part
    → FillingFits limit f
    → FillingFits limit (add_part limit f part)
unfolding add_part
add_part-Fits limit f part p h =
    let pushed = push_current-Fits limit f h in ground (arith, p, h, pushed)

add_parts-Fits :
    (limit : ℕ) (f : Filling) (ps : List Text)
    → All (Fits limit) ps
    → FillingFits limit f
    → FillingFits limit (add_parts limit f ps)
unfolding add_parts
add_parts-Fits limit f [] a h = h
add_parts-Fits limit f (p ∷ ps) (b, a) h =
    add_parts-Fits limit (add_part limit f p) ps a (add_part-Fits limit f p b h)

add_paragraphs-Fits :
    (limit : ℕ) (f : Filling) (ps : List Text)
    → 1 ≤ limit
    → FillingFits limit f
    → FillingFits limit (add_paragraphs limit f ps)
unfolding add_paragraphs
add_paragraphs-Fits limit f [] l h = h
add_paragraphs-Fits limit f (p ∷ ps) l h =
    add_paragraphs-Fits limit (if truthy p then add_parts limit f (split_long_block limit p) else f)
      ps l
      (if-both (FillingFits limit) (truthy p) (add_parts limit f (split_long_block limit p)) f
        (add_parts-Fits limit f (split_long_block limit p) (split_long_block-Fits limit p l) h) h)

or_whole-Fits :
    (limit : ℕ) (t : Text) (cs : List Text)
    → All (Fits limit) cs
    → All (Fits limit) (or_whole limit t cs)
or_whole-Fits limit t [] a = (length-take-le limit t, tt)
or_whole-Fits limit t (c ∷ cs) a = a

-- For every text and every limit of at least 1: each piece that `chunkText` returns is no longer than
-- the limit.
pub chunk_text-Fits :
    (text : Text) (limit : ℕ) → 1 ≤ limit → All (Fits limit) (chunk_text text limit)
unfolding chunk_text
chunk_text-Fits text limit l =
    let normalized = normalize_newlines text in
    let filled = add_paragraphs limit nothing_yet (split_paragraphs false normalized) in
    let fit =
      add_paragraphs-Fits limit nothing_yet (split_paragraphs false normalized) l
        (tt, omega arith) in
    let whole =
      or_whole-Fits limit normalized (push_current filled) (push_current-Fits limit filled fit) in
    ground (arith, whole)

split_line-stable :
    (fuel fuel' limit : ℕ) (s : Text)
    → 1 ≤ limit
    → length s ≤ fuel
    → length s ≤ fuel'
    → split_line fuel limit s ≡ split_line fuel' limit s
unfolding split_line
split_line-stable zero zero limit s l h k = refl
split_line-stable zero (suc fuel') limit s l h k = ground (arith, h)
split_line-stable (suc fuel) zero limit s l h k = ground (arith, k)
split_line-stable (suc fuel) (suc fuel') limit s l h k = elim (Bool-cases (ltb limit (length s))) [
  | inl long ↦
      let rest = trim_start (drop (split_at limit s) s) in
      ground (arith, long, progress limit s l, split_line-stable fuel fuel' limit rest l)
  | inr short ↦ ground (arith, short)
]

-- For every line and every limit of at least 1, the loop that cuts the line ends by its own test, with
-- a rest that fits the limit, within as many rounds as the line is long: any larger number of rounds
-- gives the same pieces and the same rest.
pub split_line_ends :
    (fuel limit : ℕ) (line : Text)
    → 1 ≤ limit
    → length line ≤ fuel
    → (split_line fuel limit line ≡ split_line (length line) limit line)
      × (length (split_line (length line) limit line).1 ≤ limit)
split_line_ends fuel limit line l h = (
  split_line-stable fuel (length line) limit line l h (omega arith),
  (split_line-Fits (length line) limit line l (omega arith)).1,
)
