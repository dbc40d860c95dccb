-- ===== src/Workspace/Patch/Columns.antt =====
-- The two columns of a parsed hunk: public/workspace/patch-utils.js (parseUnifiedPatch).
use picot.Base.{
  ℕ, suc, ◌≡◌, refl, sym, ap, subst, ◌∙◌, false, not, some, List, [], ◌∷◌, ◌++◌, map, append_assoc,
  append-nil, arith, nat_eq, option_eq, Text, codes, text_eq, strip_prefix, starts_with, All,
  keep-append,
}
use picot.Workspace.Patch.{
  context, removed, added, empty, Cell, hunk, line, File, Parser, pair_up, add_rows,
  flush_pending_lines, numbered, context_line, removed_line, added_line, body_line, hunk_line,
  start_hunk, without, match_hunk, parse_line, parse_lines, is_type,
}
use picot.Workspace.Patch.Rows.{
  visible, lefts, rights, lefts-append, rights-append, lefts-pair_up, rights-pair_up,
}

-- A hunk as the edit that it describes.
pub data Edit : Type 0 where
  keeps removes adds : Text → Edit

abbrev pub render : Edit → Text
render (keeps t) = b' ' ∷ t
render (removes t) = b'-' ∷ t
render (adds t) = b'+' ∷ t

-- The line of the edit does not read as the header of a file.
abbrev pub IsBody : Edit → Type 0
IsBody (keeps t) = Unit
IsBody (removes t) = starts_with (codes "-- ") t ≡ false
IsBody (adds t) = starts_with (codes "++ ") t ≡ false

-- The lines of the old text, numbered from `n`.
pub old_column : ℕ → List Edit → List Cell
old_column n [] = []
old_column n (keeps t ∷ es) = numbered context t n ∷ old_column (suc n) es
old_column n (removes t ∷ es) = numbered removed t n ∷ old_column (suc n) es
old_column n (adds t ∷ es) = old_column n es

-- The lines of the new text, numbered from `n`.
pub new_column : ℕ → List Edit → List Cell
new_column n [] = []
new_column n (keeps t ∷ es) = numbered context t n ∷ new_column (suc n) es
new_column n (removes t ∷ es) = new_column n es
new_column n (adds t ∷ es) = numbered added t n ∷ new_column (suc n) es

parse_body :
    (e : Edit) (p : Parser) (f : File)
    → IsBody e
    → p.current_file ≡ some f
    → parse_line (render e) p ≡ body_line (render e) p
unfolding parse_line strip_prefix
parse_body (keeps t) p f h c = rw c refl
parse_body (removes t) p f h c = rw (h, c) refl
parse_body (adds t) p f h c = rw (h, c) refl

-- The cells of the parser's file and those that are still pending.
abbrev pub old_cells : File → Parser → List Cell
old_cells f p = lefts f.rows ++ visible p.pending_removed

abbrev pub new_cells : File → Parser → List Cell
new_cells f p = rights f.rows ++ visible p.pending_added

flush_cells :
    (p : Parser) (f : File)
    → p.current_file ≡ some f
    → let g = add_rows (pair_up p.pending_removed p.pending_added) f in
      (flush_pending_lines p
        ≡ record p { current_file = some g; pending_removed = []; pending_added = [] })
      × (lefts g.rows ≡ old_cells f p)
      × (rights g.rows ≡ new_cells f p)
unfolding flush_pending_lines
flush_cells p f c = (
  ground arith,
  lefts-append f.rows (pair_up p.pending_removed p.pending_added)
      ∙ ap (◌++◌ (lefts f.rows)) (lefts-pair_up p.pending_removed p.pending_added),
  rights-append f.rows (pair_up p.pending_removed p.pending_added)
      ∙ ap (◌++◌ (rights f.rows)) (rights-pair_up p.pending_removed p.pending_added),
)

visible-append : (cs ds : List Cell) → visible (cs ++ ds) ≡ visible cs ++ visible ds
visible-append cs ds = keep-append (λ c. not (is_type empty c.type)) cs ds

-- The parser `q` has the file `g`, and its columns are those of `f` and `p` with the edits' after.
record Grows (f : File) (p : Parser) (es : List Edit) (g : File) (q : Parser) : Type 0 where
  current : q.current_file ≡ some g
  old : old_cells g q ≡ old_cells f p ++ old_column p.old_line_no es
  new : new_cells g q ≡ new_cells f p ++ new_column p.new_line_no es

abbrev next_old : Edit → ℕ → ℕ
next_old (keeps t) n = suc n
next_old (removes t) n = suc n
next_old (adds t) n = n

abbrev next_new : Edit → ℕ → ℕ
next_new (keeps t) n = suc n
next_new (removes t) n = n
next_new (adds t) n = suc n

Steps : Edit → File → Parser → Parser → Type 0
Steps e f p q =
    (g : File) × Grows f p (e ∷ []) g q
    × (q.old_line_no ≡ next_old e p.old_line_no)
    × (q.new_line_no ≡ next_new e p.new_line_no)

context_Steps :
    (t : Text) (p : Parser) (f : File)
    → p.current_file ≡ some f
    → Steps (keeps t) f p (context_line t p)
unfolding Steps context_line old_column new_column
context_Steps t p f c =
    let (flushed, l, r) = flush_cells p f c in
    let g = add_rows (pair_up p.pending_removed p.pending_added) f in
    let row = line (numbered context t p.old_line_no) (numbered context t p.new_line_no) in
    rw flushed (
      add_rows (row ∷ []) g,
      record {
        current = refl;
        old =
            append-nil (lefts (g.rows ++ row ∷ []))
            ∙ lefts-append g.rows (row ∷ [])
            ∙ unfold lefts in ap (λ x. x ++ numbered context t p.old_line_no ∷ []) l;
        new =
            append-nil (rights (g.rows ++ row ∷ []))
            ∙ rights-append g.rows (row ∷ [])
            ∙ unfold rights in ap (λ x. x ++ numbered context t p.new_line_no ∷ []) r;
      },
      refl,
      refl,
    )

body_Steps :
    (e : Edit) (p : Parser) (f : File)
    → p.current_file ≡ some f
    → Steps e f p (body_line (render e) p)
unfolding Steps body_line removed_line added_line old_column new_column
body_Steps (keeps t) p f c = context_Steps t p f c
body_Steps (removes t) p f c =
    let cell = numbered removed t p.old_line_no in
    (
      f,
      record {
        current = c;
        old =
            ap (◌++◌ (lefts f.rows)) (visible-append p.pending_removed (cell ∷ []))
            ∙ sym (append_assoc (lefts f.rows) (visible p.pending_removed) (cell ∷ []));
        new = sym (append-nil (new_cells f p));
      },
      refl,
      refl,
    )
body_Steps (adds t) p f c =
    let cell = numbered added t p.new_line_no in
    (
      f,
      record {
        current = c;
        old = sym (append-nil (old_cells f p));
        new =
            ap (◌++◌ (rights f.rows)) (visible-append p.pending_added (cell ∷ []))
            ∙ sym (append_assoc (rights f.rows) (visible p.pending_added) (cell ∷ []));
      },
      refl,
      refl,
    )

old_column-cons :
    (e : Edit) (es : List Edit) (n : ℕ)
    → old_column n (e ∷ es) ≡ old_column n (e ∷ []) ++ old_column (next_old e n) es
unfolding old_column
old_column-cons (keeps t) es n = refl
old_column-cons (removes t) es n = refl
old_column-cons (adds t) es n = refl

new_column-cons :
    (e : Edit) (es : List Edit) (n : ℕ)
    → new_column n (e ∷ es) ≡ new_column n (e ∷ []) ++ new_column (next_new e n) es
unfolding new_column
new_column-cons (keeps t) es n = refl
new_column-cons (removes t) es n = refl
new_column-cons (adds t) es n = refl

body_Grows :
    (es : List Edit) (p : Parser) (f : File)
    → All IsBody es
    → p.current_file ≡ some f
    → (g : File) × Grows f p es g (parse_lines (map render es) p)
unfolding parse_lines Steps
body_Grows [] p f h c = (
  f,
  unfold old_column new_column in
      record {
        current = c;
        old = sym (append-nil (old_cells f p));
        new = sym (append-nil (new_cells f p));
      },
)
body_Grows (e ∷ es) p f h c =
    let q = body_line (render e) p in
    let (g, grown, o, n) = body_Steps e p f c in
    let (g', later) = body_Grows es q g h.1 grown.current in
    subst (λ x. (g : File) × Grows f p (e ∷ es) g (parse_lines (map render es) x))
      (sym (parse_body e p f h.0 c))
      (
        g',
        record {
          current = later.current;
          old =
              later.old
              ∙ ap (λ x. x ++ old_column q.old_line_no es) grown.old
              ∙ append_assoc (old_cells f p) (old_column p.old_line_no (e ∷ []))
                  (old_column q.old_line_no es)
              ∙ ap (λ k. old_cells f p ++ (old_column p.old_line_no (e ∷ []) ++ old_column k es)) o
              ∙ ap (◌++◌ (old_cells f p)) (sym (old_column-cons e es p.old_line_no));
          new =
              later.new
              ∙ ap (λ x. x ++ new_column q.new_line_no es) grown.new
              ∙ append_assoc (new_cells f p) (new_column p.new_line_no (e ∷ []))
                  (new_column q.new_line_no es)
              ∙ ap (λ k. new_cells f p ++ (new_column p.new_line_no (e ∷ []) ++ new_column k es)) n
              ∙ ap (◌++◌ (new_cells f p)) (sym (new_column-cons e es p.new_line_no));
        },
      )

header_cells :
    (t : Text) (o n : ℕ) (p : Parser) (f : File)
    → p.current_file ≡ some f
    → match_hunk (codes "@@ " ++ t) ≡ some (o, n)
    → let g = add_rows (pair_up p.pending_removed p.pending_added) f in
      parse_line (codes "@@ " ++ t) p ≡ record p {
        current_file = some (add_rows (hunk (codes "@@ " ++ t) ∷ []) g);
        pending_removed = [];
        pending_added = [];
        old_line_no = o;
        new_line_no = n;
      }
unfolding parse_line hunk_line strip_prefix
header_cells t o n p f c m =
    let q = record p {
      current_file = some (add_rows (pair_up p.pending_removed p.pending_added) f);
      pending_removed = [];
      pending_added = [];
    } in
    ap (start_hunk (codes "@@ " ++ t) (match_hunk (codes "@@ " ++ t))) (flush_cells p f c).0
    ∙ ap (λ k. start_hunk (codes "@@ " ++ t) k q) m

-- In a file of the patch, a hunk header with the old and the new line number, followed by the lines
-- of an edit script none of which reads as a file header, adds exactly the script's two texts to the
-- file's columns: on the left the kept and removed lines, numbered from the old number without a
-- gap, on the right the kept and added lines, numbered from the new number; what stood before in
-- the columns, or was still pending, comes first and is unchanged.
pub hunk_columns :
    (t : Text) (o n : ℕ) (es : List Edit) (p : Parser) (f : File)
    → p.current_file ≡ some f
    → match_hunk (codes "@@ " ++ t) ≡ some (o, n)
    → All IsBody es
    → let q = flush_pending_lines (parse_lines ((codes "@@ " ++ t) ∷ map render es) p) in
      (g : File) × (q.current_file ≡ some g)
      × (lefts g.rows ≡ old_cells f p ++ old_column o es)
      × (rights g.rows ≡ new_cells f p ++ new_column n es)
unfolding parse_lines
hunk_columns t o n es p f c m h =
    let (flushed, l, r) = flush_cells p f c in
    let g = add_rows (pair_up p.pending_removed p.pending_added) f in
    let g1 = add_rows (hunk (codes "@@ " ++ t) ∷ []) g in
    let p1 : Parser = record p {
      current_file = some g1;
      pending_removed = [];
      pending_added = [];
      old_line_no = o;
      new_line_no = n;
    } in
    let (g2, grown) = body_Grows es p1 g1 h refl in
    let q1 = parse_lines (map render es) p1 in
    let (flushed', l', r') = flush_cells q1 g2 grown.current in
    let l1 : lefts g1.rows ++ [] ≡ old_cells f p =
      append-nil (lefts g1.rows)
      ∙ lefts-append g.rows (hunk (codes "@@ " ++ t) ∷ [])
      ∙ unfold lefts in append-nil (lefts g.rows) ∙ l in
    let r1 : rights g1.rows ++ [] ≡ new_cells f p =
      append-nil (rights g1.rows)
      ∙ rights-append g.rows (hunk (codes "@@ " ++ t) ∷ [])
      ∙ unfold rights in append-nil (rights g.rows) ∙ r in
    let whole =
      ap (λ x. flush_pending_lines (parse_lines (map render es) x)) (header_cells t o n p f c m)
      ∙ flushed' in
    (
      add_rows (pair_up q1.pending_removed q1.pending_added) g2,
      ap (λ x. x.current_file) whole,
      l' ∙ grown.old ∙ ap (λ x. x ++ old_column o es) l1,
      r' ∙ grown.new ∙ ap (λ x. x ++ new_column n es) r1,
    )

-- A removed line whose text begins with two dashes and a space is not kept as removed: it reads as
-- the header of the old file, so it renames the file and leaves rows, pending lines and line numbers
-- as they are.
pub dashes_lost :
    (t : Text) (p : Parser) (f : File)
    → p.current_file ≡ some f
    → parse_line (render (removes (codes "-- " ++ t))) p
      ≡ record p { current_file = some (record f { old_path = without (codes "a/") t }) }
unfolding parse_line strip_prefix
dashes_lost t p f c = rw c refl
