-- ===== src/Chat/Preview/Mirror.antt =====
-- What the service shows of a `StreamingPreview` (extensions/chat-inbox/render/streaming.ts).
use picot.Base.{
  ◌≡◌, sym, ap, subst, ◌∙◌, ◌≢◌, ◌⊎◌, inl, inr, Bool, true, false, Option, none, some, List, [],
  ◌∷◌, arith, if◌then◌else◌, nat_eq, if-both, if-cases, option_elim, option_eq, Text, codes,
  text_beq, text_beq_iff, text_eq, All, or_text,
}
use picot.Chat.Preview.{Transport, PreviewChunk, Synced, touch, sync_parts}

-- What a chat service promises: `shown w id` is the text of the message `id`.
pub record Service {W : Type 0} (t : Transport W) (shown : W → Text → Option Text) : Type 0 where
  pub create_fresh :
      (w : W) (text : Text) (mode reply : Option Text) (id : Text)
      → (t.create w text mode reply).1 ≡ some id
      → shown w id ≡ none
  pub create_shows :
      (w : W) (text : Text) (mode reply : Option Text) (id : Text)
      → (t.create w text mode reply).1 ≡ some id
      → shown (t.create w text mode reply).0 id ≡ some text
  pub create_keeps :
      (w : W) (text : Text) (mode reply : Option Text) (j old : Text)
      → shown w j ≡ some old
      → shown (t.create w text mode reply).0 j ≡ some old
  pub edit_shows :
      (w : W) (id text : Text) (mode : Option Text)
      → (t.edit w id text mode).1 ≡ true
      → shown (t.edit w id text mode).0 id ≡ some text
  pub edit_keeps :
      (w : W) (id text : Text) (mode : Option Text) (j old : Text)
      → (j ≢ id) ⊎ ((t.edit w id text mode).1 ≡ false)
      → shown w j ≡ some old
      → shown (t.edit w id text mode).0 j ≡ some old

-- Every call is answered.
pub record Reliable {W : Type 0} (t : Transport W) : Type 0 where
  pub creates :
      (w : W) (text : Text) (mode reply : Option Text)
      → (id : Text) × ((t.create w text mode reply).1 ≡ some id)
  pub edits : (w : W) (id text : Text) (mode : Option Text) → (t.edit w id text mode).1 ≡ true

module _ {W : Type 0} (t : Transport W) (shown : W → Text → Option Text) where
  -- Each chunk is shown as its text, and the ids differ.
  abbrev pub Mirrors : W → List PreviewChunk → Type 0
  Mirrors w [] = Unit
  Mirrors w (c ∷ cs) = (shown w c.id ≡ some c.text) × (All (λ d. c.id ≢ d.id) cs × Mirrors w cs)

  module _ (laws : Service t shown) where
    -- A message that is not among the chunks stays, and no chunk takes its id.
    abbrev Kept : Text → Text → W × Synced → Type 0
    Kept j old r = (shown r.0 j ≡ some old) × All (λ d. j ≢ d.id) r.1.0

    touch_keeps :
        (w : W) (c : PreviewChunk) (text : Text) (mode : Option Text) (j old : Text)
        → j ≢ c.id
        → shown w j ≡ some old
        → (shown (touch t w c text mode).0 j ≡ some old)
          × ((d : PreviewChunk) → (touch t w c text mode).1 ≡ some d → d.id ≡ c.id)
    unfolding touch
    touch_keeps w c text mode j old n h =
        let answer = t.edit w c.id text mode in
        let P : W × Option PreviewChunk → Type 0 =
          λ r. (shown r.0 j ≡ some old) × ((d : PreviewChunk) → r.1 ≡ some d → d.id ≡ c.id) in
        let kept = laws.edit_keeps w c.id text mode j old (inl n) h in
        if-both P (text_beq c.text text) (w, some c)
          (if answer.1 then (answer.0, some (record c { text = text })) else (answer.0, none))
          (h, λ d e. ground (arith, e))
          (if-both P answer.1 (answer.0, some (record c { text = text })) (answer.0, none)
            (kept, λ d e. ground (arith, e)) (kept, λ d e. ground (arith, e)))

    sync_parts_keeps :
        (w : W) (mode reply : Option Text) (empty : Bool) (cs : List PreviewChunk) (ps : List Text)
        (j old : Text)
        → shown w j ≡ some old
        → All (λ d. j ≢ d.id) cs
        → Kept j old (sync_parts t w mode reply empty cs ps)
    unfolding sync_parts
    sync_parts_keeps w mode reply empty cs [] j old h a = (h, a)
    sync_parts_keeps w mode reply empty [] (p ∷ ps) j old h a =
        let text = or_text (some p) (codes " ") in
        let first = if empty then reply else none in
        let made = t.create w text mode first in
        let kept = laws.create_keeps w text mode first j old h in
        option_elim (Kept j old) made.1 (made.0, ([], false))
          (λ id.
            let rest = sync_parts t made.0 mode reply false [] ps in
            (rest.0, (record { id = id; text = text } ∷ rest.1.0, rest.1.1)))
          (λ e. (kept, tt))
          (λ id e.
            let rest = sync_parts_keeps made.0 mode reply false [] ps j old kept tt in
            let fresh : j ≢ id = λ same.
              let clash : some old ≡ none =
                sym h ∙ ap (shown w) same ∙ laws.create_fresh w text mode first id e in
              cc in
            (rest.0, (fresh, rest.1)))
    sync_parts_keeps w mode reply empty (c ∷ cs) (p ∷ ps) j old h a =
        let text = or_text (some p) (codes " ") in
        let touched = touch t w c text mode in
        let kept = touch_keeps w c text mode j old a.0 h in
        option_elim (Kept j old) touched.1 (touched.0, (c ∷ cs, false))
          (λ d.
            let rest = sync_parts t touched.0 mode reply false cs ps in
            (rest.0, (d ∷ rest.1.0, rest.1.1)))
          (λ e. (kept.0, a))
          (λ d e.
            let rest = sync_parts_keeps touched.0 mode reply false cs ps j old kept.0 a.1 in
            let other : j ≢ d.id = λ same. a.0 (same ∙ kept.1 d e) in (rest.0, (other, rest.1)))

    pub touch-shows :
        (w : W) (c : PreviewChunk) (text : Text) (mode : Option Text) (d : PreviewChunk)
        → shown w c.id ≡ some c.text
        → (touch t w c text mode).1 ≡ some d
        → (shown (touch t w c text mode).0 d.id ≡ some d.text) × ((d.id ≡ c.id) × (d.text ≡ text))
    unfolding touch
    touch-shows w c text mode d h =
        let answer = t.edit w c.id text mode in
        let P : W × Option PreviewChunk → Type 0 =
          λ r. r.1 ≡ some d → (shown r.0 d.id ≡ some d.text) × ((d.id ≡ c.id) × (d.text ≡ text)) in
        if-cases P (text_beq c.text text) (w, some c)
          (if answer.1 then (answer.0, some (record c { text = text })) else (answer.0, none))
          (λ same e. ground (arith, e, h, (text_beq_iff c.text text).0 same))
          (λ differs.
            if-cases P answer.1 (answer.0, some (record c { text = text })) (answer.0, none)
              (λ done e. ground (arith, e, laws.edit_shows w c.id text mode done))
              (λ failed e. ground (arith, e)))

    -- A rejected edit leaves the message as it was.
    touch_fails :
        (w : W) (c : PreviewChunk) (text : Text) (mode : Option Text) (j old : Text)
        → (touch t w c text mode).1 ≡ none
        → shown w j ≡ some old
        → shown (touch t w c text mode).0 j ≡ some old
    unfolding touch
    touch_fails w c text mode j old =
        let answer = t.edit w c.id text mode in
        let P : W × Option PreviewChunk → Type 0 =
          λ r. r.1 ≡ none → shown w j ≡ some old → shown r.0 j ≡ some old in
        if-both P (text_beq c.text text) (w, some c)
          (if answer.1 then (answer.0, some (record c { text = text })) else (answer.0, none))
          (λ e h. h)
          (if-cases P answer.1 (answer.0, some (record c { text = text })) (answer.0, none)
            (λ done e h. ground (arith, e))
            (λ failed e h. laws.edit_keeps w c.id text mode j old (inr failed) h))

    Mirrors-keep :
        (w w' : W) (cs : List PreviewChunk)
        → ((j old : Text) → shown w j ≡ some old → shown w' j ≡ some old)
        → Mirrors w cs
        → Mirrors w' cs
    Mirrors-keep w w' [] k h = tt
    Mirrors-keep w w' (c ∷ cs) k h = (k c.id c.text h.0, (h.1.0, Mirrors-keep w w' cs k h.1.1))

    -- Another message's edit leaves the chunks mirrored.
    Mirrors-touch :
        (w : W) (c : PreviewChunk) (text : Text) (mode : Option Text) (cs : List PreviewChunk)
        → All (λ d. c.id ≢ d.id) cs
        → Mirrors w cs
        → Mirrors (touch t w c text mode).0 cs
    Mirrors-touch w c text mode [] a h = tt
    Mirrors-touch w c text mode (d ∷ ds) a h = (
      (touch_keeps w c text mode d.id d.text (λ e. a.0 (sym e)) h.0).0,
      (h.1.0, Mirrors-touch w c text mode ds a.1 h.1.1),
    )

    pub sync_parts-Mirrors :
        (w : W) (mode reply : Option Text) (empty : Bool) (cs : List PreviewChunk) (ps : List Text)
        → Mirrors w cs
        → Mirrors
            (sync_parts t w mode reply empty cs ps).0
            (sync_parts t w mode reply empty cs ps).1.0
    unfolding sync_parts
    sync_parts-Mirrors w mode reply empty cs [] h = h
    sync_parts-Mirrors w mode reply empty [] (p ∷ ps) h =
        let text = or_text (some p) (codes " ") in
        let first = if empty then reply else none in
        let made = t.create w text mode first in
        option_elim ((λ (r : W × Synced). Mirrors r.0 r.1.0)) made.1 (made.0, ([], false))
          (λ id.
            let rest = sync_parts t made.0 mode reply false [] ps in
            (rest.0, (record { id = id; text = text } ∷ rest.1.0, rest.1.1)))
          (λ e. tt)
          (λ id e.
            let kept =
              sync_parts_keeps made.0 mode reply false [] ps id text
                (laws.create_shows w text mode first id e) tt in
            (kept.0, (kept.1, sync_parts-Mirrors made.0 mode reply false [] ps tt)))
    sync_parts-Mirrors w mode reply empty (c ∷ cs) (p ∷ ps) h =
        let text = or_text (some p) (codes " ") in
        let touched = touch t w c text mode in
        option_elim (λ (r : W × Synced). Mirrors r.0 r.1.0) touched.1 (touched.0, (c ∷ cs, false))
          (λ d.
            let rest = sync_parts t touched.0 mode reply false cs ps in
            (rest.0, (d ∷ rest.1.0, rest.1.1)))
          (λ e.
            Mirrors-keep w touched.0 (c ∷ cs) (λ j old k. touch_fails w c text mode j old e k) h)
          (λ d e.
            let now = touch-shows w c text mode d h.0 e in
            let others : All (λ x. d.id ≢ x.id) cs =
              subst (λ i. All (λ x. i ≢ x.id) cs) (sym now.1.0) h.1.0 in
            let kept = sync_parts_keeps touched.0 mode reply false cs ps d.id d.text now.0 others in
            let tail = Mirrors-touch w c text mode cs h.1.0 h.1.1 in
            (kept.0, (kept.1, sync_parts-Mirrors touched.0 mode reply false cs ps tail)))
