-- ===== src/Session/Stream/Cells.antt =====
-- Every cell of the streamed answer is assembled from its own deltas alone
-- (public/native/session/assistant-message-stream.js).
use picot.Base.{
  ℕ, zero, suc, ◌≡◌, refl, ap, ◌∙◌, ◌⊎◌, inl, inr, Bool, false, Option, none, some, List, [], ◌∷◌,
  ◌++◌, append_assoc, append-nil, arith, nat_beq, if◌then◌else◌, nat_eq, Option-cases, option_eq,
  Text, text_eq, All, or_default, or_option,
}
use picot.Session.Stream.{
  Block, text, Message, Delta, text_start, text_delta, text_end, Update, cell, set_cell, apply_cell,
  write, apply_delta, update, update_all, empty_message, text_of,
}

cell-set_cell :
    (i j : ℕ) (b : Block) (cs : List (Option Block))
    → cell j (set_cell i b cs) ≡ (if nat_beq i j then some b else cell j cs)
unfolding cell set_cell
cell-set_cell zero zero b [] = refl
cell-set_cell zero (suc j) b [] = ground arith
cell-set_cell (suc i) zero b [] = ground arith
cell-set_cell (suc i) (suc j) b [] = ground (arith, cell-set_cell i j b [])
cell-set_cell zero zero b (c ∷ cs) = refl
cell-set_cell zero (suc j) b (c ∷ cs) = ground arith
cell-set_cell (suc i) zero b (c ∷ cs) = ground arith
cell-set_cell (suc i) (suc j) b (c ∷ cs) = ground (arith, cell-set_cell i j b cs)

-- One event on one cell.
pub step_cell : ℕ → Update → Option Block → Option Block
step_cell j u c = elim u.delta [
  | none ↦ c
  | some (i, d) ↦ if nat_beq i j then or_option (apply_cell d c) c else c
]

pub fold_cell : ℕ → List Update → Option Block → Option Block
fold_cell j [] c = c
fold_cell j (u ∷ us) c = fold_cell j us (step_cell j u c)

cell-write :
    (i j : ℕ) (b : Option Block) (cs : List (Option Block))
    → cell j (write i b cs) ≡ (if nat_beq i j then or_option b (cell i cs) else cell j cs)
cell-write i j none cs = ground arith
cell-write i j (some b) cs = cell-set_cell i j b cs

cell-apply_delta :
    (j : ℕ) (m : Message) (u : Update)
    → cell j (apply_delta m u).content ≡ step_cell j u (cell j m.content)
unfolding apply_delta step_cell
cell-apply_delta j m u = elim (Option-cases u.delta) [
  | inl silent ↦ ground (arith, silent)
  | inr ((i, d), e) ↦ ground (arith, e, cell-write i j (apply_cell d (cell i m.content)) m.content)
]

-- After any events, each cell of the streamed message is what its own events make of it: events of
-- other cells, whatever their order between them, do not reach it.
pub update_all-cell :
    (us : List Update) (m : Message) (j : ℕ)
    → let r = or_default (update_all us (some m)) empty_message in
      cell j r.content ≡ fold_cell j us (cell j m.content)
unfolding update_all update fold_cell
update_all-cell [] m j = refl
update_all-cell (u ∷ us) m j =
    update_all-cell us (apply_delta m u) j ∙ ap (fold_cell j us) (cell-apply_delta j m u)

-- Whether the event touches cell `j`.
abbrev touches : ℕ → Update → Bool
touches j u = elim u.delta [ none ↦ false | some (i, d) ↦ nat_beq i j ]

-- The event is of another cell, or a piece of text for cell `j`.
abbrev pub IsPiece : ℕ → Update → Type 0
IsPiece j u = (touches j u ≡ false) ⊎ ((t : Option Text) × (u.delta ≡ some (j, text_delta t)))

abbrev pub piece : Option (ℕ × Delta) → Text
piece (some (i, text_delta t)) = or_default t []
piece _ = []

-- The pieces for cell `j`, joined.
pub pieces : ℕ → List Update → Text
pieces j [] = []
pieces j (u ∷ us) = (if touches j u then piece u.delta else []) ++ pieces j us

fold_cell-pieces :
    (j : ℕ) (us : List Update) (t : Text)
    → All (IsPiece j) us
    → fold_cell j us (some (text t)) ≡ some (text (t ++ pieces j us))
unfolding fold_cell pieces step_cell apply_cell
fold_cell-pieces j [] t h = ground (arith, append-nil t)
fold_cell-pieces j (u ∷ us) t h = elim h.0 [
  | inl away ↦ ground (arith, away, fold_cell-pieces j us t h.1)
  | inr (d, e) ↦ ground (
    arith,
    e,
    fold_cell-pieces j us (t ++ or_default d []) h.1,
    append_assoc t (or_default d []) (pieces j us),
  )
]

fold_cell-append :
    (j : ℕ) (us vs : List Update) (c : Option Block)
    → fold_cell j (us ++ vs) c ≡ fold_cell j vs (fold_cell j us c)
unfolding fold_cell
fold_cell-append j [] vs c = refl
fold_cell-append j (u ∷ us) vs c = fold_cell-append j us vs (step_cell j u c)

abbrev pub at : ℕ → Delta → Update
at j d = record { delta = some (j, d); usage = none }

-- A text that is announced and then streamed in pieces, with events of other cells between them, is
-- the pieces joined in their order, after what the cell held if that was a text already; the text
-- that the end event carries replaces it.
pub streamed_text :
    (j : ℕ) (us : List Update) (m : Message) (final : Option Text)
    → All (IsPiece j) us
    → let joined = text_of (cell j m.content) ++ pieces j us in
      let r = or_default (update_all (at j text_start ∷ us) (some m)) empty_message in
      let r' =
        or_default
          (update_all (at j text_start ∷ us ++ at j (text_end final) ∷ []) (some m))
          empty_message in
      (cell j r.content ≡ some (text joined))
      × (cell j r'.content ≡ some (text (or_default final joined)))
unfolding fold_cell step_cell apply_cell
streamed_text j us m final h =
    let pieced = fold_cell-pieces j us (text_of (cell j m.content)) h in
    let last = at j (text_end final) in
    (
      ground (arith, pieced, update_all-cell (at j text_start ∷ us) m j),
      ground (
        arith,
        pieced,
        update_all-cell (at j text_start ∷ us ++ last ∷ []) m j,
        fold_cell-append j us (last ∷ []) (some (text (text_of (cell j m.content)))),
      ),
    )
