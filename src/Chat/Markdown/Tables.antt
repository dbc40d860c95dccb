-- ===== src/Chat/Markdown/Tables.antt =====
-- `wrapTablesForAppend` (extensions/chat-inbox/render/streaming-markdown.ts) opens and closes the fences
-- that it adds.
use picot.Base.{
  ℕ, ◌≡◌, refl, sym, ap, subst, ◌∙◌, Bool, true, false, not, ◌&&◌, ◌||◌, List, [], ◌∷◌, ◌++◌,
  append_assoc, append-nil, arith, if◌then◌else◌, nat_eq, if-cases, option_eq, Text, codes, text_eq,
  strip_prefix, starts_with, is_space, trim_start, trim_end, cons_trimmed, trim, split, join, Lacks,
  split-join, last, init, All, All-append, or_default,
}
use picot.Chat.Chunking.{newline, starts_with_unit}
use picot.Chat.Markdown.Fences.{inside_after-append, split-Parted}
use picot.Chat.Markdown.{
  pipe, is_fence, inside_after, is_inside_code_fence, is_table_row, is_table_separator, Wrapping,
  fence_line, wrap_line, wrap_lines, close_table, wrap_tables_for_append,
}

All-Lacks :
    (ps : List Text)
    → All (Lacks newline) (init ps)
    → Lacks newline (or_default (last ps) [])
    → All (Lacks newline) ps
All-Lacks [] a h = tt
All-Lacks (p ∷ []) a h = (h, tt)
All-Lacks (p ∷ p' ∷ ps) a h = (a.0, All-Lacks (p' ∷ ps) a.1 h)

split-Lacks : (x : Text) → All (Lacks newline) (split newline x)
split-Lacks x = let p = split-Parted x in All-Lacks (split newline x) p.done_lack p.last_lacks

is_table_row-pipe : (t : Text) → is_table_row t ≡ true → starts_with_unit pipe t ≡ true
unfolding is_table_row
is_table_row-pipe [] h = ground (arith, h)
is_table_row-pipe (c ∷ t) h = ground (arith, h)

is_table_separator-pipe : (t : Text) → is_table_separator t ≡ true → starts_with_unit pipe t ≡ true
unfolding is_table_separator
is_table_separator-pipe [] h = ground (arith, h)
is_table_separator-pipe (c ∷ t) h = ground (arith, h)

fence_marks : Text → Bool
fence_marks t = starts_with (codes "```") t || starts_with (codes "~~~") t

pipe_marks : (c : ℕ) (t : Text) → c ≡ pipe → fence_marks (c ∷ t) ≡ false
unfolding fence_marks strip_prefix
pipe_marks c t h = ap (λ d. fence_marks (d ∷ t)) h

pipe_trimmed :
    (b : Bool) (c : ℕ) (t : Text) → starts_with_unit pipe (cons_trimmed b c t) ≡ true → c ≡ pipe
pipe_trimmed true c [] h = ground (arith, h)
pipe_trimmed false c [] h = ground (arith, h)
pipe_trimmed b c (d ∷ t) h = ground (arith, h)

pipe-trim_end : (t : Text) → starts_with_unit pipe (trim_end t) ≡ true → fence_marks t ≡ false
unfolding trim_end
pipe-trim_end [] h = ground (arith, h)
pipe-trim_end (c ∷ t) h = pipe_marks c t (pipe_trimmed (is_space c) c (trim_end t) h)

-- A line of a table is no fence.
no_fence : (line : Text) → starts_with_unit pipe (trim line) ≡ true → is_fence line ≡ false
unfolding is_fence trim fence_marks
no_fence line h = pipe-trim_end (trim_start line) h

-- `out` holds the lines `seen` and the fences added, with one open when a table is.
record Wrapped (w : Wrapping) (seen : List Text) : Type 0 where
  complete : All (Lacks newline) w.out
  fences : inside_after false w.out ≡ w.in_table || inside_after false seen
  outside : w.in_table && inside_after false seen ≡ false

step : Bool → Text → Bool
step b line = if is_fence line then not b else b

inside-snoc :
    (b : Bool) (ls : List Text) (line : Text)
    → inside_after b (ls ++ line ∷ []) ≡ step (inside_after b ls) line
unfolding inside_after step
inside-snoc b ls line = inside_after-append b ls (line ∷ [])

inside-fence_snoc :
    (b : Bool) (ls : List Text) (line : Text)
    → inside_after b (ls ++ fence_line ∷ line ∷ []) ≡ step (not (inside_after b ls)) line
unfolding inside_after step is_fence trim_start is_space strip_prefix
inside-fence_snoc b ls line = inside_after-append b ls (fence_line ∷ line ∷ [])

fence_line-Lacks : Lacks newline fence_line
fence_line-Lacks = (refl, (refl, (refl, tt)))

append-Lacks :
    (ls ms : List Text)
    → All (Lacks newline) ls
    → All (Lacks newline) ms
    → All (Lacks newline) (ls ++ ms)
append-Lacks ls ms h k = All-append (Lacks newline) ls ms h k

step_plain : (b : Bool) (line : Text) → is_fence line ≡ false → step b line ≡ b
unfolding step
step_plain b line h = ground (arith, h)

Wrapped-open :
    (w : Wrapping) (seen : List Text) (line : Text)
    → Wrapped w seen
    → Lacks newline line
    → w.in_table ≡ false
    → inside_after false w.out ≡ false
    → is_fence line ≡ false
    → Wrapped
        (record { out = w.out ++ fence_line ∷ line ∷ []; in_table = true })
        (seen ++ line ∷ [])
Wrapped-open w seen line h l closed out plain =
    let before : inside_after false seen ≡ false = ground (arith, h.fences, closed, out) in
    record {
      complete = append-Lacks w.out (fence_line ∷ line ∷ []) h.complete (fence_line-Lacks, (l, tt));
      fences =
          inside-fence_snoc false w.out line
          ∙ step_plain (not (inside_after false w.out)) line plain
          ∙ ap not out;
      outside =
          inside-snoc false seen line ∙ step_plain (inside_after false seen) line plain ∙ before;
    }

Wrapped-close :
    (w : Wrapping) (seen : List Text) (line : Text)
    → Wrapped w seen
    → Lacks newline line
    → w.in_table ≡ true
    → Wrapped
        (record { out = w.out ++ fence_line ∷ line ∷ []; in_table = false })
        (seen ++ line ∷ [])
Wrapped-close w seen line h l opened =
    let same : not (inside_after false w.out) ≡ inside_after false seen =
      ground (arith, h.fences, h.outside, opened) in
    record {
      complete = append-Lacks w.out (fence_line ∷ line ∷ []) h.complete (fence_line-Lacks, (l, tt));
      fences =
          inside-fence_snoc false w.out line
          ∙ ap (λ b. step b line) same
          ∙ sym (inside-snoc false seen line);
      outside = refl;
    }

Wrapped-keep :
    (w : Wrapping) (seen : List Text) (line : Text)
    → Wrapped w seen
    → Lacks newline line
    → w.in_table && is_fence line ≡ false
    → Wrapped (record { out = w.out ++ line ∷ []; in_table = w.in_table }) (seen ++ line ∷ [])
unfolding step
Wrapped-keep w seen line h l plain =
    let out = inside-snoc false w.out line in
    let before = inside-snoc false seen line in
    record {
      complete = append-Lacks w.out (line ∷ []) h.complete (l, tt);
      fences = ground (arith, h.fences, h.outside, out, before, plain);
      outside = ground (arith, h.outside, before, plain);
    }

joined_inside :
    (ls : List Text)
    → All (Lacks newline) ls
    → is_inside_code_fence (join newline ls) ≡ inside_after false ls
unfolding is_inside_code_fence
joined_inside [] h = unfold join split inside_after is_fence trim_start strip_prefix in refl
joined_inside (l ∷ ls) h = ap (inside_after false) (split-join newline l ls h)

kept_plain :
    (in_table row separator fence : Bool)
    → in_table && not row && not separator ≡ false
    → (row ≡ true → fence ≡ false)
    → (separator ≡ true → fence ≡ false)
    → in_table && fence ≡ false
kept_plain false row separator fence e f g = refl
kept_plain true true separator fence e f g = f refl
kept_plain true false true fence e f g = g refl
kept_plain true false false fence e f g = ground (arith, e)

wrap_line-Wrapped :
    (w : Wrapping) (seen : List Text) (line : Text)
    → Wrapped w seen
    → Lacks newline line
    → Wrapped (wrap_line w line) (seen ++ line ∷ [])
unfolding wrap_line
wrap_line-Wrapped w seen line h l =
    let P : Wrapping → Type 0 = λ v. Wrapped v (seen ++ line ∷ []) in
    let row = is_table_row (trim line) in
    let separator = is_table_separator (trim line) in
    let inside = joined_inside w.out h.complete in
    let row_plain : row ≡ true → is_fence line ≡ false =
      λ e. no_fence line (is_table_row-pipe (trim line) e) in
    let separator_plain : separator ≡ true → is_fence line ≡ false =
      λ e. no_fence line (is_table_separator-pipe (trim line) e) in
    if-cases P (not w.in_table && row && not (is_inside_code_fence (join newline w.out)))
      (record { out = w.out ++ fence_line ∷ line ∷ []; in_table = true })
      (if w.in_table && not row && not separator
        then record { out = w.out ++ fence_line ∷ line ∷ []; in_table = false }
        else record { out = w.out ++ line ∷ []; in_table = w.in_table })
      (λ e.
        Wrapped-open w seen line h l (ground (arith, e)) (ground (arith, e, inside))
          (row_plain (ground (arith, e))))
      (λ not_opened.
        if-cases P (w.in_table && not row && not separator)
          (record { out = w.out ++ fence_line ∷ line ∷ []; in_table = false })
          (record { out = w.out ++ line ∷ []; in_table = w.in_table })
          (λ e. Wrapped-close w seen line h l (ground (arith, e)))
          (λ e.
            Wrapped-keep w seen line h l
              (kept_plain w.in_table row separator (is_fence line) e row_plain separator_plain)))

wrap_lines-Wrapped :
    (w : Wrapping) (seen ls : List Text)
    → Wrapped w seen
    → All (Lacks newline) ls
    → Wrapped (wrap_lines w ls) (seen ++ ls)
unfolding wrap_lines
wrap_lines-Wrapped w seen [] h a = subst (Wrapped w) (sym (append-nil seen)) h
wrap_lines-Wrapped w seen (l ∷ ls) h a =
    subst (Wrapped (wrap_lines (wrap_line w l) ls)) (append_assoc seen (l ∷ []) ls) (
      wrap_lines-Wrapped (wrap_line w l) (seen ++ l ∷ []) ls (wrap_line-Wrapped w seen l h a.0) a.1)

close_table-inside :
    (w : Wrapping) (seen : List Text)
    → Wrapped w seen
    → (is_inside_code_fence (join newline (close_table true w)) ≡ inside_after false seen)
unfolding step
close_table-inside w seen h =
    let shut : inside_after false (w.out ++ fence_line ∷ []) ≡ not (inside_after false w.out) =
      unfold is_fence trim_start is_space strip_prefix inside_after in
      inside-snoc false w.out fence_line in
    if-cases (λ ls. is_inside_code_fence (join newline ls) ≡ inside_after false seen)
      (w.in_table && true) (w.out ++ fence_line ∷ []) w.out
      (λ opened.
        joined_inside (w.out ++ fence_line ∷ [])
          (append-Lacks w.out (fence_line ∷ []) h.complete (fence_line-Lacks, tt))
        ∙ shut
        ∙ ground (arith, opened, h.fences, h.outside))
      (λ closed. joined_inside w.out h.complete ∙ ground (arith, closed, h.fences))

-- For every text: with the fences that `wrapTablesForAppend` puts around its tables, the last one closed,
-- the end of the text is inside a code fence exactly when it was without them.
pub wrap_tables_for_append-balanced :
    (text : Text)
    → is_inside_code_fence (wrap_tables_for_append text true) ≡ is_inside_code_fence text
unfolding wrap_tables_for_append
wrap_tables_for_append-balanced text =
    let start : Wrapped (record { out = []; in_table = false }) [] =
      unfold inside_after in record { complete = tt; fences = refl; outside = refl } in
    let lines = split newline text in
    close_table-inside (wrap_lines (record { out = []; in_table = false }) lines) lines
      (wrap_lines-Wrapped (record { out = []; in_table = false }) [] lines start (split-Lacks text))
    ∙ (unfold is_inside_code_fence in refl)
