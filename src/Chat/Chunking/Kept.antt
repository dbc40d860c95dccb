-- ===== src/Chat/Chunking/Kept.antt =====
-- `chunkText` (extensions/chat-inbox/render/chunking.ts) drops nothing but white space.
use picot.Base.{
  ℕ, zero, suc, ◌≡◌, refl, sym, ap, ◌∙◌, false, not, List, [], ◌∷◌, ◌++◌, append_assoc, append-nil,
  arith, ltb, leb, if◌then◌else◌, nat_eq, if-both, if-cases, option_eq, Text, text_eq, is_space,
  trim_start, trim, split, length, take, drop, keep, truthy,
}
use picot.Chat.Chunking.{
  newline, split_at, split_line, joined, Filling, push_line, add_line, add_lines, nothing_yet,
  split_long_block, push_current, add_part, add_parts, add_paragraphs, or_whole, chunk_text,
  normalize_newlines, split_paragraphs,
}
use picot.Chat.Chunking.Solid.{
  all_solid, solid, solid-append, all_solid-append, solid-trim_start, solid-trim, solid-take,
  solid-normalize_newlines, all_solid-split, all_solid-split_paragraphs,
}

solid-joined :
    (current separator part : Text)
    → solid separator ≡ []
    → solid (joined current separator part) ≡ solid current ++ solid part
solid-joined [] separator part h = unfold solid in refl
solid-joined (c ∷ s) separator part h =
    solid-append ((c ∷ s) ++ separator) part
    ∙ ap (λ x. x ++ solid part) (solid-append (c ∷ s) separator)
    ∙ ap (λ x. solid (c ∷ s) ++ x ++ solid part) h
    ∙ ap (λ x. x ++ solid part) (append-nil (solid (c ∷ s)))

all_solid-one : (t : Text) → all_solid (t ∷ []) ≡ solid t
unfolding all_solid
all_solid-one t = append-nil (solid t)

-- What is filled, without its white space.
abbrev filled_solid : Filling → Text
filled_solid f = all_solid f.chunks ++ solid f.current

filled-nothing : (t : Text) → filled_solid nothing_yet ++ t ≡ t
unfolding all_solid solid
filled-nothing t = refl

solid-push : (f : Filling) → all_solid (f.chunks ++ f.current ∷ []) ≡ filled_solid f
solid-push f =
    all_solid-append f.chunks (f.current ∷ [])
    ∙ ap (◌++◌ (all_solid f.chunks)) (all_solid-one f.current)

-- A current chunk without solid units may be left out.
solid-leave : (f : Filling) → solid f.current ≡ [] → all_solid f.chunks ≡ filled_solid f
solid-leave f h = sym (ap (◌++◌ (all_solid f.chunks)) h ∙ append-nil (all_solid f.chunks))

truthy-nil : (t : Text) → truthy t ≡ false → t ≡ []
truthy-nil [] h = refl
truthy-nil (c ∷ t) h = ground (arith, h)

solid-nil : (t : Text) → t ≡ [] → solid t ≡ []
unfolding solid
solid-nil t h = ap (keep (λ c. not (is_space c))) h

solid-push_line : (f : Filling) → all_solid (push_line f) ≡ filled_solid f
solid-push_line f =
    if-cases (λ cs. all_solid cs ≡ filled_solid f) (truthy f.current) (f.chunks ++ f.current ∷ [])
      f.chunks (λ full. solid-push f)
      (λ empty. solid-leave f (solid-nil f.current (truthy-nil f.current empty)))

solid-push_current : (f : Filling) → all_solid (push_current f) ≡ filled_solid f
unfolding push_current
solid-push_current f =
    if-cases (λ cs. all_solid cs ≡ filled_solid f) (truthy (trim f.current))
      (f.chunks ++ f.current ∷ []) f.chunks (λ full. solid-push f)
      (λ blank. solid-leave f (
        sym (solid-trim f.current)
        ∙ solid-nil (trim f.current) (truthy-nil (trim f.current) blank)))

-- Pieces and the rest of a line, without their white space.
abbrev pieces_solid : List Text × Text → Text
pieces_solid (ts, t) = all_solid ts ++ solid t

solid-piece :
    (at : ℕ) (s : Text) (pieces : List Text × Text)
    → pieces_solid pieces ≡ solid (trim_start (drop at s))
    → pieces_solid (take at s ∷ pieces.0, pieces.1) ≡ solid s
unfolding all_solid
solid-piece at s (ts, t) h =
    append_assoc (solid (take at s)) (all_solid ts) (solid t)
    ∙ ap (◌++◌ (solid (take at s))) (h ∙ solid-trim_start (drop at s))
    ∙ solid-take at s

solid-split_line : (fuel limit : ℕ) (s : Text) → pieces_solid (split_line fuel limit s) ≡ solid s
unfolding split_line
solid-split_line zero limit s = unfold all_solid in refl
solid-split_line (suc fuel) limit s =
    let at = split_at limit s in
    let pieces = split_line fuel limit (trim_start (drop at s)) in
    if-cases (λ r. pieces_solid r ≡ solid s) (ltb limit (length s)) (take at s ∷ pieces.0, pieces.1)
      ([], s)
      (λ long. solid-piece at s pieces (solid-split_line fuel limit (trim_start (drop at s))))
      (λ short. unfold all_solid in refl)

line_break : solid (newline ∷ []) ≡ []
unfolding solid is_space
line_break = refl

blank_line : solid (newline ∷ newline ∷ []) ≡ []
unfolding solid is_space
blank_line = refl

-- The current chunk, extended by a part.
solid-extend :
    (f : Filling) (separator part : Text)
    → solid separator ≡ []
    → filled_solid (record f { current = joined f.current separator part })
      ≡ filled_solid f ++ solid part
solid-extend f separator part h =
    ap (◌++◌ (all_solid f.chunks)) (solid-joined f.current separator part h)
    ∙ sym (append_assoc (all_solid f.chunks) (solid f.current) (solid part))

solid-add_line :
    (limit : ℕ) (f : Filling) (line : Text)
    → filled_solid (add_line limit f line) ≡ filled_solid f ++ solid line
unfolding add_line
solid-add_line limit f line =
    let pieces = split_line (length line) limit line in
    if-both (λ r. filled_solid r ≡ filled_solid f ++ solid line)
      (leb (length (joined f.current (newline ∷ []) line)) limit)
      (record f { current = joined f.current (newline ∷ []) line })
      (if leb (length line) limit
        then record { chunks = push_line f; current = line }
        else record { chunks = push_line f ++ pieces.0; current = pieces.1 })
      (solid-extend f (newline ∷ []) line line_break)
      (if-both (λ r. filled_solid r ≡ filled_solid f ++ solid line) (leb (length line) limit)
        (record { chunks = push_line f; current = line })
        (record { chunks = push_line f ++ pieces.0; current = pieces.1 })
        (ap (λ x. x ++ solid line) (solid-push_line f))
        (ap (λ x. x ++ solid pieces.1) (all_solid-append (push_line f) pieces.0)
          ∙ append_assoc (all_solid (push_line f)) (all_solid pieces.0) (solid pieces.1)
          ∙ ap (◌++◌ (all_solid (push_line f))) (solid-split_line (length line) limit line)
          ∙ ap (λ x. x ++ solid line) (solid-push_line f)))

solid-add_lines :
    (limit : ℕ) (f : Filling) (ls : List Text)
    → filled_solid (add_lines limit f ls) ≡ filled_solid f ++ all_solid ls
unfolding add_lines
solid-add_lines limit f [] = unfold all_solid in sym (append-nil (filled_solid f))
solid-add_lines limit f (l ∷ ls) =
    solid-add_lines limit (add_line limit f l) ls
    ∙ ap (λ x. x ++ all_solid ls) (solid-add_line limit f l)
    ∙ (unfold all_solid in append_assoc (filled_solid f) (solid l) (all_solid ls))

solid-split_long_block :
    (limit : ℕ) (block : Text) → all_solid (split_long_block limit block) ≡ solid block
unfolding split_long_block
solid-split_long_block limit block =
    let f = add_lines limit nothing_yet (split newline block) in
    if-both (λ ts. all_solid ts ≡ solid block) (leb (length block) limit) (block ∷ []) (push_line f)
      (all_solid-one block)
      (solid-push_line f
        ∙ solid-add_lines limit nothing_yet (split newline block)
        ∙ filled-nothing (all_solid (split newline block))
        ∙ all_solid-split block)

solid-add_part :
    (limit : ℕ) (f : Filling) (part : Text)
    → filled_solid (add_part limit f part) ≡ filled_solid f ++ solid part
unfolding add_part
solid-add_part limit f part =
    if-both (λ r. filled_solid r ≡ filled_solid f ++ solid part)
      (leb (length (joined f.current (newline ∷ newline ∷ []) part)) limit)
      (record f { current = joined f.current (newline ∷ newline ∷ []) part })
      (record { chunks = push_current f; current = part })
      (solid-extend f (newline ∷ newline ∷ []) part blank_line)
      (ap (λ x. x ++ solid part) (solid-push_current f))

solid-add_parts :
    (limit : ℕ) (f : Filling) (ps : List Text)
    → filled_solid (add_parts limit f ps) ≡ filled_solid f ++ all_solid ps
unfolding add_parts
solid-add_parts limit f [] = unfold all_solid in sym (append-nil (filled_solid f))
solid-add_parts limit f (p ∷ ps) =
    solid-add_parts limit (add_part limit f p) ps
    ∙ ap (λ x. x ++ all_solid ps) (solid-add_part limit f p)
    ∙ (unfold all_solid in append_assoc (filled_solid f) (solid p) (all_solid ps))

-- A paragraph, which is skipped when it is empty.
solid-paragraph :
    (limit : ℕ) (f : Filling) (p : Text)
    → filled_solid (if truthy p then add_parts limit f (split_long_block limit p) else f)
      ≡ filled_solid f ++ solid p
solid-paragraph limit f [] = unfold solid in sym (append-nil (filled_solid f))
solid-paragraph limit f (c ∷ p) =
    solid-add_parts limit f (split_long_block limit (c ∷ p))
    ∙ ap (◌++◌ (filled_solid f)) (solid-split_long_block limit (c ∷ p))

solid-add_paragraphs :
    (limit : ℕ) (f : Filling) (ps : List Text)
    → filled_solid (add_paragraphs limit f ps) ≡ filled_solid f ++ all_solid ps
unfolding add_paragraphs
solid-add_paragraphs limit f [] = unfold all_solid in sym (append-nil (filled_solid f))
solid-add_paragraphs limit f (p ∷ ps) =
    let g = if truthy p then add_parts limit f (split_long_block limit p) else f in
    solid-add_paragraphs limit g ps
    ∙ ap (λ x. x ++ all_solid ps) (solid-paragraph limit f p)
    ∙ (unfold all_solid in append_assoc (filled_solid f) (solid p) (all_solid ps))

append-empty : (s t : Text) → s ++ t ≡ [] → s ≡ []
append-empty [] t h = refl
append-empty (c ∷ s) t h = ground (arith, h)

-- With no chunk at all the text has no solid unit, and neither has its beginning.
solid-or_whole :
    (limit : ℕ) (t : Text) (cs : List Text)
    → all_solid cs ≡ solid t
    → all_solid (or_whole limit t cs) ≡ solid t
solid-or_whole limit t [] h =
    let none_solid : solid t ≡ [] = sym h ∙ (unfold all_solid in refl) in
    all_solid-one (take limit t)
    ∙ append-empty (solid (take limit t)) (solid (drop limit t)) (solid-take limit t ∙ none_solid)
    ∙ sym none_solid
solid-or_whole limit t (c ∷ cs) h = h

-- For every text and every limit: the pieces that `chunkText` returns, joined and without their white
-- space, are the text without its white space. So only white space is added or left out. (For the
-- limit 0 and a long line the source does not return, so the statement says nothing of it there.)
pub chunk_text-solid : (text : Text) (limit : ℕ) → all_solid (chunk_text text limit) ≡ solid text
unfolding chunk_text
chunk_text-solid text limit =
    let normalized = normalize_newlines text in
    let parts = split_paragraphs false normalized in
    let filled = add_paragraphs limit nothing_yet parts in
    let e : all_solid (push_current filled) ≡ solid normalized =
      solid-push_current filled
      ∙ solid-add_paragraphs limit nothing_yet parts
      ∙ filled-nothing (all_solid parts)
      ∙ all_solid-split_paragraphs false normalized in
    if-both (λ ts. all_solid ts ≡ solid text) (leb (length text) limit) (text ∷ [])
      (or_whole limit normalized (push_current filled)) (all_solid-one text)
      (solid-or_whole limit normalized (push_current filled) e ∙ solid-normalize_newlines text)
