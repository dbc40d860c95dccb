-- ===== src/Chat/Preview/Update.antt =====
-- `StreamingPreview.update` (extensions/chat-inbox/render/streaming.ts) as a whole, against the list of
-- texts that it has to show.
use picot.Base.{
  ℕ, ◌≡◌, refl, ap, ◌∙◌, Bool, true, false, Option, none, some, List, [], ◌∷◌, map, arith, nat_beq,
  if◌then◌else◌, nat_eq, if-both, if-cases, option_elim, option_eq, Text, codes, text_beq,
  text_beq_iff, text_eq, starts_with, trim_start, trim_end, trim, length, keep, or_text,
}
use picot.Chat.Preview.Mirror.{Service, Reliable, Mirrors, sync_parts-Mirrors}
use picot.Chat.Preview.{
  Transport, PreviewChunk, Preview, Rendered, Synced, reset, ids, non_blank, touch, sync_parts,
  take_in, parts_of, update,
}
use picot.Chat.Chunking.{chunk_text}

-- The parts, in place of the texts that stand at their positions.
unfoldable pub overlay : List Text → List Text → List Text
overlay [] old = old
overlay (p ∷ ps) [] = p ∷ overlay ps []
overlay (p ∷ ps) (o ∷ old) = p ∷ overlay ps old

abbrev pub texts : List PreviewChunk → List Text
texts cs = map (λ c. c.text) cs

abbrev or_space : Text → Text
or_space p = or_text (some p) (codes " ")

-- Every kept text is one that the test accepts.
kept_non_blank : (ps : List Text) → map or_space (keep non_blank ps) ≡ keep non_blank ps
unfolding trim trim_start trim_end
kept_non_blank [] = refl
kept_non_blank ([] ∷ ps) = kept_non_blank ps
kept_non_blank ((c ∷ p) ∷ ps) =
    if-both (λ qs. map or_space qs ≡ qs) (non_blank (c ∷ p)) ((c ∷ p) ∷ keep non_blank ps)
      (keep non_blank ps) (ap (◌∷◌ (c ∷ p)) (kept_non_blank ps)) (kept_non_blank ps)

parts_of-or_space : (limit : ℕ) (r : Rendered) → map or_space (parts_of limit r) ≡ parts_of limit r
unfolding parts_of
parts_of-or_space limit r =
    if-both (λ qs. map or_space qs ≡ qs) (non_blank r.text)
      (keep non_blank (chunk_text r.text limit)) [] (kept_non_blank (chunk_text r.text limit)) refl

overlay_none : (parts old : List Text) → nat_beq (length parts) 0 ≡ true → old ≡ overlay parts old
unfolding overlay
overlay_none [] old h = refl
overlay_none (p ∷ parts) old h = absurd (ground (arith, h))

module _ {W : Type 0} (t : Transport W) where
  -- With every call answered, the run succeeds and the texts are overlaid.
  abbrev Overlaid : List Text → W × Synced → Type 0
  Overlaid ts r = (r.1.1 ≡ true) × (texts r.1.0 ≡ ts)

  touch_answered :
      (reliable : Reliable t) (w : W) (c : PreviewChunk) (text : Text) (mode : Option Text)
      → (d : PreviewChunk) × (((touch t w c text mode).1 ≡ some d) × (d.text ≡ text))
  unfolding touch
  touch_answered reliable w c text mode =
      let answer = t.edit w c.id text mode in
      let P : W × Option PreviewChunk → Type 0 =
        λ r. (d : PreviewChunk) × ((r.1 ≡ some d) × (d.text ≡ text)) in
      if-cases P (text_beq c.text text) (w, some c)
        (if answer.1 then (answer.0, some (record c { text = text })) else (answer.0, none))
        (λ same. (c, (refl, (text_beq_iff c.text text).0 same)))
        (λ differs.
          if-cases P answer.1 (answer.0, some (record c { text = text })) (answer.0, none)
            (λ done. (record c { text = text }, (refl, refl)))
            (λ failed. absurd (ground (arith, failed, reliable.edits w c.id text mode))))

  sync_parts-overlay :
      (reliable : Reliable t) (w : W) (mode reply : Option Text) (empty : Bool)
      (cs : List PreviewChunk) (ps : List Text)
      → Overlaid (overlay (map or_space ps) (texts cs)) (sync_parts t w mode reply empty cs ps)
  unfolding sync_parts overlay
  sync_parts-overlay reliable w mode reply empty cs [] = (refl, refl)
  sync_parts-overlay reliable w mode reply empty [] (p ∷ ps) =
      let text = or_space p in
      let first = if empty then reply else none in
      let made = t.create w text mode first in
      let (given, e) = reliable.creates w text mode first in
      option_elim {B = W × Synced} (Overlaid (overlay (map or_space (p ∷ ps)) [])) made.1
        (made.0, ([], false))
        (λ id.
          let rest = sync_parts t made.0 mode reply false [] ps in
          (rest.0, (record { id = id; text = text } ∷ rest.1.0, rest.1.1)))
        (λ missing. absurd (ground (arith, missing, e)))
        (λ id found.
          let rest = sync_parts-overlay reliable made.0 mode reply false [] ps in
          (rest.0, ap (◌∷◌ text) rest.1))
  sync_parts-overlay reliable w mode reply empty (c ∷ cs) (p ∷ ps) =
      let text = or_space p in
      let touched = touch t w c text mode in
      let (given, (e, same)) = touch_answered reliable w c text mode in
      option_elim {B = W × Synced} (Overlaid (overlay (map or_space (p ∷ ps)) (texts (c ∷ cs))))
        touched.1 (touched.0, (c ∷ cs, false))
        (λ d.
          let rest = sync_parts t touched.0 mode reply false cs ps in
          (rest.0, (d ∷ rest.1.0, rest.1.1)))
        (λ missing. absurd (ground (arith, missing, e)))
        (λ d found.
          let rest = sync_parts-overlay reliable touched.0 mode reply false cs ps in
          let text_of : d.text ≡ text = ground (arith, found, e, same) in
          (
            rest.0,
            ap (λ x. x ∷ texts (sync_parts t touched.0 mode reply false cs ps).1.0) text_of
                ∙ ap (◌∷◌ text) rest.1,
          ))

  module _ (remend : Text → Text) (format : Text → Rendered) (limit : ℕ) where
    -- For every preview, text and flag, when the service answers every call: `update` returns the ids of the
    -- chunks that it leaves, and their texts are the non-blank parts of the rendered text, laid over the
    -- texts of the chunks that it had kept. A chunk beyond the parts keeps its text.
    pub update-overlay :
        (reliable : Reliable t) (w : W) (p : Preview) (raw : Text) (finished : Bool)
        → let taken = take_in remend p raw finished in
          let parts = parts_of limit (format taken.1) in
          let after = update t remend format limit w p raw finished in
          (after.1.1 ≡ some (ids after.1.0.chunks))
          × (texts after.1.0.chunks ≡ overlay parts (texts taken.0.chunks))
    unfolding update overlay
    update-overlay reliable w p raw finished =
        let taken = take_in remend p raw finished in
        let rendered = format taken.1 in
        let parts = parts_of limit rendered in
        let empty = nat_beq (length taken.0.chunks) 0 in
        let run = sync_parts t w rendered.parse_mode taken.0.reply_to empty taken.0.chunks parts in
        let P : W × (Preview × Option (List Text)) → Type 0 = λ after.
          (after.1.1 ≡ some (ids after.1.0.chunks))
          × (texts after.1.0.chunks ≡ overlay parts (texts taken.0.chunks)) in
        let done =
          sync_parts-overlay reliable w rendered.parse_mode taken.0.reply_to empty taken.0.chunks
            parts in
        if-cases P (nat_beq (length parts) 0) (w, (taken.0, some (ids taken.0.chunks)))
          (
            run.0,
            (record taken.0 { chunks = run.1.0 }, if run.1.1 then some (ids run.1.0) else none),
          )
          (λ nothing. (refl, overlay_none parts (texts taken.0.chunks) nothing))
          (λ parted. (
            ap (λ b. if b then some (ids run.1.0) else none) done.0,
            done.1
                ∙ ap (λ ps. overlay ps (texts taken.0.chunks)) (parts_of-or_space limit rendered),
          ))

    take_in-Mirrors :
        (shown : W → Text → Option Text) (w : W) (p : Preview) (raw : Text) (finished : Bool)
        → Mirrors t shown w p.chunks
        → Mirrors t shown w (take_in remend p raw finished).0.chunks
    unfolding take_in reset
    take_in-Mirrors shown w p raw finished h =
        if-both (λ (q : Preview). Mirrors t shown w q.chunks) (starts_with p.raw_text raw) p
          (reset p) h tt

    -- For every service that keeps its promises, and whether calls are rejected or not: when each chunk of the
    -- preview is shown by the service with its text, under an id of its own, the same is true of the
    -- chunks that `update` leaves.
    pub update-Mirrors :
        (shown : W → Text → Option Text) (laws : Service t shown) (w : W) (p : Preview) (raw : Text)
        (finished : Bool)
        → Mirrors t shown w p.chunks
        → let after = update t remend format limit w p raw finished in
          Mirrors t shown after.0 after.1.0.chunks
    unfolding update
    update-Mirrors shown laws w p raw finished h =
        let taken = take_in remend p raw finished in
        let rendered = format taken.1 in
        let parts = parts_of limit rendered in
        let empty = nat_beq (length taken.0.chunks) 0 in
        let run = sync_parts t w rendered.parse_mode taken.0.reply_to empty taken.0.chunks parts in
        let before = take_in-Mirrors shown w p raw finished h in
        if-both
          (λ (after : W × (Preview × Option (List Text))). Mirrors t shown after.0 after.1.0.chunks)
          (nat_beq (length parts) 0) (w, (taken.0, some (ids taken.0.chunks)))
          (
            run.0,
            (record taken.0 { chunks = run.1.0 }, if run.1.1 then some (ids run.1.0) else none),
          )
          before
          (sync_parts-Mirrors t shown laws w rendered.parse_mode taken.0.reply_to empty
            taken.0.chunks parts before)
