-- ===== src/Chat/Preview.antt =====
-- `StreamingPreview` (extensions/chat-inbox/render/streaming.ts): a growing answer in messages of a chat
-- service. The transport is an interface over the service's state; a rejected promise is an absent or
-- false answer. The formatting for a service and its message length are arguments of `update`.
pub mod Mirror
pub mod Update
pub mod Examples
use picot.Base.{
  ℕ, Bool, true, false, Option, none, some, List, [], ◌∷◌, map, ltb, nat_beq, if◌then◌else◌, nat_eq,
  option_eq, Text, codes, text_beq, text_eq, strip_prefix, starts_with, trim, length, drop, keep,
  or_text,
}
use picot.Chat.Chunking.{chunk_text}
use picot.Chat.Markdown.Renderer.{Renderer, new_renderer, push, render, finish}

-- `PreviewTransport`: the state after the call, and its answer.
pub record Transport (W : Type 0) : Type 0 where
  pub create : W → Text → Option Text → Option Text → W × Option Text
  pub edit : W → Text → Text → Option Text → W × Bool
  pub delete : W → Text → W × Bool

pub record PreviewChunk : Type 0 where
  pub id : Text
  pub text : Text

pub record Preview : Type 0 where
  pub renderer : Renderer
  pub raw_text : Text
  pub chunks : List PreviewChunk
  pub reply_to : Option Text

-- `RenderedChunkPayload`
pub record Rendered : Type 0 where
  pub text : Text
  pub parse_mode : Option Text

unfoldable pub reset : Preview → Preview
reset p = record p { raw_text = []; chunks = []; renderer = new_renderer true }

abbrev pub set_reply_to : Preview → Option Text → Preview
set_reply_to p message_id = record p { reply_to = message_id }

abbrev pub ids : List PreviewChunk → List Text
ids cs = map (λ c. c.id) cs

abbrev pub non_blank : Text → Bool
non_blank t = ltb 0 (length (trim t))

-- The preview that has taken in the text, and the markdown to show.
unfoldable pub take_in : (Text → Text) → Preview → Text → Bool → Preview × Text
unfolding reset push finish render strip_prefix
take_in remend p raw finished =
    let kept = if starts_with p.raw_text raw then p else reset p in
    let delta = drop (length kept.raw_text) raw in
    let renderer = if ltb 0 (length delta) then push kept.renderer delta else kept.renderer in
    let shown = if finished then finish remend renderer else render remend renderer in
    (record kept { renderer = shown.0; raw_text = raw }, shown.1)

unfoldable pub parts_of : ℕ → Rendered → List Text
unfolding chunk_text trim
parts_of limit rendered =
    if non_blank rendered.text then keep non_blank (chunk_text rendered.text limit) else []

-- The chunks after a run of the loop, and whether no call was rejected.
abbrev pub Synced : Type 0
Synced = List PreviewChunk × Bool

module _ {W : Type 0} (transport : Transport W) where
  -- One message, brought to the text.
  unfoldable pub touch : W → PreviewChunk → Text → Option Text → W × Option PreviewChunk
  unfolding text_beq
  touch w c text mode =
      let answer = transport.edit w c.id text mode in
      if text_beq c.text text
      then (w, some c)
      else if answer.1
      then (answer.0, some (record c { text = text }))
      else (answer.0, none)

  -- The loop over the parts from one index on, with the chunks from there on; `empty` tells that there
  -- is no chunk at all yet.
  unfoldable pub sync_parts :
      W → Option Text → Option Text → Bool → List PreviewChunk → List Text → W × Synced
  unfolding touch
  sync_parts w mode reply empty cs [] = (w, (cs, true))
  sync_parts w mode reply empty [] (p ∷ ps) =
      let text = or_text (some p) (codes " ") in
      let made = transport.create w text mode (if empty then reply else none) in
      elim made.1 [
        | none ↦ (made.0, ([], false))
        | some id ↦
            let rest = sync_parts made.0 mode reply false [] ps in
            (rest.0, (record { id = id; text = text } ∷ rest.1.0, rest.1.1))
      ]
  sync_parts w mode reply empty (c ∷ cs) (p ∷ ps) =
      let touched = touch w c (or_text (some p) (codes " ")) mode in
      elim touched.1 [
        | none ↦ (touched.0, (c ∷ cs, false))
        | some d ↦
            let rest = sync_parts touched.0 mode reply false cs ps in
            (rest.0, (d ∷ rest.1.0, rest.1.1))
      ]

  unfoldable pub delete_chunks : W → List PreviewChunk → W
  delete_chunks w [] = w
  delete_chunks w (c ∷ cs) = delete_chunks (transport.delete w c.id).0 cs

  unfoldable pub clear : W → Preview → W × Preview
  unfolding delete_chunks reset
  clear w p = (delete_chunks w p.chunks, reset p)

  module _ (remend : Text → Text) (format : Text → Rendered) (limit : ℕ) where
    -- The service and the preview after `update`, and the ids that it returns if nothing is rejected.
    unfoldable pub update : W → Preview → Text → Bool → W × (Preview × Option (List Text))
    unfolding take_in parts_of sync_parts
    update w p raw finished =
        let taken = take_in remend p raw finished in
        let rendered = format taken.1 in
        let parts = parts_of limit rendered in
        let empty = nat_beq (length taken.0.chunks) 0 in
        let run = sync_parts w rendered.parse_mode taken.0.reply_to empty taken.0.chunks parts in
        if nat_beq (length parts) 0 then (w, (taken.0, some (ids taken.0.chunks))) else (
          run.0,
          (record taken.0 { chunks = run.1.0 }, if run.1.1 then some (ids run.1.0) else none),
        )
