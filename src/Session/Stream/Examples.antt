-- ===== src/Session/Stream/Examples.antt =====
-- Runs of the stream of an assistant message.
use picot.Base.{
  ◌≡◌, refl, inl, inr, true, none, some, List, [], ◌∷◌, ◌++◌, nat_eq, option_eq, codes, text_eq,
  or_default,
}
use picot.Session.Stream.{
  text, thinking, Message, Update, text_start, text_delta, text_end, thinking_delta, cell, set_cell,
  apply_cell, apply_delta, empty_message, update, update_all, text_of,
}
use picot.Session.Stream.Cells.{fold_cell, at, pieces, update_all-cell, streamed_text}

abbrev blank : Message
blank = record { assistant = true; content = []; usage = none; rest = [] }

-- Two pieces of text in cell 0, with a thought in cell 1 between them.
abbrev interleaved : List Update
interleaved =
    at 0 (text_delta (some (codes "Hel")))
    ∷ at 1 (thinking_delta (some (codes "hm")))
    ∷ at 0 (text_delta (some (codes "lo")))
    ∷ []

interleaved_run :
    update_all interleaved (some blank)
    ≡ some
        (record blank { content = some (text (codes "Hello")) ∷ some (thinking (codes "hm")) ∷ [] })
unfolding update_all update apply_delta apply_cell cell set_cell
interleaved_run = refl

update_all-cell_example :
    cell 1 (or_default (update_all interleaved (some blank)) empty_message).content
    ≡ fold_cell 1 interleaved (cell 1 [])
update_all-cell_example = update_all-cell interleaved blank 1

streamed_text_example :
    (cell 0
        (or_default (update_all (at 0 text_start ∷ interleaved) (some blank)) empty_message).content
      ≡ some (text (text_of (cell 0 []) ++ pieces 0 interleaved)))
    × (cell 0
          (or_default
            (update_all (at 0 text_start ∷ interleaved ++ at 0 (text_end none) ∷ []) (some blank))
            empty_message).content
        ≡ some (text (or_default none (text_of (cell 0 []) ++ pieces 0 interleaved))))
streamed_text_example =
    streamed_text 0 interleaved blank none
      (inr (some (codes "Hel"), refl), (inl refl, (inr (some (codes "lo"), refl), tt)))
