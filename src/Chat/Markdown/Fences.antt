-- ===== src/Chat/Markdown/Fences.antt =====
-- The fences that `StreamingMarkdownRenderer.push` counts while the text grows
-- (extensions/chat-inbox/render/streaming-markdown.ts), against those of the whole text.
use Prim.Native.Nat.{◌%◌}
use picot.Base.{
  ℕ, suc, ◌≡◌, refl, sym, ap, ◌∙◌, ◌≢◌, Bool, true, false, not, List, [], ◌∷◌, ◌++◌, append_assoc,
  arith, nat_beq, nat_beq_iff, if◌then◌else◌, nat_eq, if-both, if-cases, option_eq, Text, text_eq,
  split, join, Lacks, cons_head, split-join, split-append, last, init, All, All-append, or_default,
}
use picot.Chat.Chunking.{newline}
use picot.Chat.Markdown.{is_fence, inside_after, is_inside_code_fence}
use picot.Chat.Markdown.Renderer.{
  Renderer, new_renderer, count_fences, push, is_accumulated_inside_fence,
}

-- The lines `ps`, each with its line break, and `x` after them.
abbrev pub lines_before : List Text → Text → Text
lines_before [] x = x
lines_before (p ∷ ps) x = p ++ newline ∷ lines_before ps x

pub lines_before-append :
    (ps qs : List Text) (x : Text) → lines_before (ps ++ qs) x ≡ lines_before ps (lines_before qs x)
lines_before-append [] qs x = refl
lines_before-append (p ∷ ps) qs x = ap (λ t. p ++ newline ∷ t) (lines_before-append ps qs x)

pub lines_before-more :
    (ps : List Text) (x y : Text) → lines_before ps x ++ y ≡ lines_before ps (x ++ y)
lines_before-more [] x y = refl
lines_before-more (p ∷ ps) x y =
    append_assoc p (newline ∷ lines_before ps x) y
    ∙ ap (λ t. p ++ newline ∷ t) (lines_before-more ps x y)

pub split-lines_before :
    (ps : List Text) (x : Text)
    → All (Lacks newline) ps
    → split newline (lines_before ps x) ≡ ps ++ split newline x
split-lines_before [] x h = refl
split-lines_before (p ∷ ps) x h =
    split-append newline p (lines_before ps x) h.0 ∙ ap (◌∷◌ p) (split-lines_before ps x h.1)

-- The parts of a split text, but for the last one, stand before it.
pub record Parted (ps : List Text) (x : Text) : Type 0 where
  pub whole : lines_before (init ps) (or_default (last ps) []) ≡ x
  pub done_lack : All (Lacks newline) (init ps)
  pub last_lacks : Lacks newline (or_default (last ps) [])

Parted-cons_head :
    (c : ℕ) (ps : List Text) (x : Text)
    → nat_beq c newline ≡ false
    → Parted ps x
    → Parted (cons_head c ps) (c ∷ x)
Parted-cons_head c [] x h p = record {
  whole = ap (◌∷◌ c) p.whole;
  done_lack = tt;
  last_lacks = (h, tt);
}
Parted-cons_head c (t ∷ []) x h p = record {
  whole = ap (◌∷◌ c) p.whole;
  done_lack = tt;
  last_lacks = (h, p.last_lacks);
}
Parted-cons_head c (t ∷ t' ∷ ts) x h p = record {
  whole = ap (◌∷◌ c) p.whole;
  done_lack = ((h, p.done_lack.0), p.done_lack.1);
  last_lacks = p.last_lacks;
}

Parted-nil :
    (c : ℕ) (ps : List Text) (x : Text)
    → ps ≢ []
    → nat_beq c newline ≡ true
    → Parted ps x
    → Parted ([] ∷ ps) (c ∷ x)
Parted-nil c [] x n h p = absurd (n refl)
Parted-nil c (t ∷ ts) x n h p = record {
  whole = ap (◌∷◌ newline) p.whole ∙ ap (λ d. d ∷ x) (sym ((nat_beq_iff c newline).0 h));
  done_lack = (tt, p.done_lack);
  last_lacks = p.last_lacks;
}

cons_head-full : (c : ℕ) (ps : List Text) → cons_head c ps ≢ []
cons_head-full c [] h = cc
cons_head-full c (p ∷ ps) h = cc

split-full : (s : Text) → split newline s ≢ []
unfolding split
split-full [] = λ h. cc
split-full (c ∷ s) =
    if-both (λ ps. ps ≢ []) (nat_beq c newline) ([] ∷ split newline s)
      (cons_head c (split newline s)) (λ h. cc) (cons_head-full c (split newline s))

pub split-Parted : (x : Text) → Parted (split newline x) x
unfolding split
split-Parted [] = record { whole = refl; done_lack = tt; last_lacks = tt }
split-Parted (c ∷ s) =
    if-cases (λ ps. Parted ps (c ∷ s)) (nat_beq c newline) ([] ∷ split newline s)
      (cons_head c (split newline s))
      (λ hit. Parted-nil c (split newline s) s (split-full s) hit (split-Parted s))
      (λ miss. Parted-cons_head c (split newline s) s miss (split-Parted s))

-- A renderer whose counts agree with its text: `done` are the complete lines.
record Counted (r : Renderer) (done : List Text) : Type 0 where
  text : r.accumulated ≡ lines_before done r.incomplete_line
  complete : All (Lacks newline) done
  open_line : Lacks newline r.incomplete_line
  toggles : r.fence_toggles ≡ count_fences 0 done

count_fences-append :
    (n : ℕ) (ps qs : List Text) → count_fences n (ps ++ qs) ≡ count_fences (count_fences n ps) qs
unfolding count_fences
count_fences-append n [] qs = refl
count_fences-append n (p ∷ ps) qs = count_fences-append (if is_fence p then suc n else n) ps qs

push-Counted :
    (r : Renderer) (done : List Text) (chunk : Text)
    → Counted r done
    → Counted (push r chunk) (done ++ init (split newline (r.incomplete_line ++ chunk)))
unfolding push
push-Counted r done chunk h =
    let x = r.incomplete_line ++ chunk in
    let p = split-Parted x in
    record {
      text =
          ap (λ t. t ++ chunk) h.text
          ∙ lines_before-more done r.incomplete_line chunk
          ∙ ap (lines_before done) (sym p.whole)
          ∙ sym (
              lines_before-append done (init (split newline x))
                (or_default (last (split newline x)) []));
      complete = All-append (Lacks newline) done (init (split newline x)) h.complete p.done_lack;
      open_line = p.last_lacks;
      toggles =
          ap (λ n. count_fences n (init (split newline x))) h.toggles
          ∙ sym (count_fences-append 0 done (init (split newline x)));
    }

unfoldable pub push_all : Renderer → List Text → Renderer
unfolding push
push_all r [] = r
push_all r (c ∷ cs) = push_all (push r c) cs

push_all-Counted :
    (r : Renderer) (done : List Text) (chunks : List Text)
    → Counted r done
    → (done' : List Text) × Counted (push_all r chunks) done'
unfolding push_all
push_all-Counted r done [] h = (done, h)
push_all-Counted r done (c ∷ cs) h =
    push_all-Counted (push r c) (done ++ init (split newline (r.incomplete_line ++ c))) cs
      (push-Counted r done c h)

-- An odd number of fences is the inside of one.
abbrev odd : ℕ → Bool
odd n = nat_beq (n % 2) 1

odd-suc : (n : ℕ) → odd (suc n) ≡ not (odd n)
odd-suc n = ground arith

toggled : (b : Bool) (n : ℕ) → (if b then not (odd n) else odd n) ≡ odd (if b then suc n else n)
toggled true n = sym (odd-suc n)
toggled false n = refl

inside_after-count : (n : ℕ) (ls : List Text) → inside_after (odd n) ls ≡ odd (count_fences n ls)
unfolding inside_after count_fences
inside_after-count n [] = refl
inside_after-count n (l ∷ ls) =
    ap (λ b. inside_after b ls) (toggled (is_fence l) n)
    ∙ inside_after-count (if is_fence l then suc n else n) ls

pub inside_after-append :
    (b : Bool) (ps qs : List Text) → inside_after b (ps ++ qs) ≡ inside_after (inside_after b ps) qs
unfolding inside_after
inside_after-append b [] qs = refl
inside_after-append b (p ∷ ps) qs = inside_after-append (if is_fence p then not b else b) ps qs

pub split_open : (x : Text) → Lacks newline x → split newline x ≡ x ∷ []
unfolding join
split_open x h = split-join newline x [] (h, tt)

inside-Counted :
    (r : Renderer) (done : List Text)
    → Counted r done
    → is_accumulated_inside_fence r ≡ is_inside_code_fence r.accumulated
unfolding is_accumulated_inside_fence is_inside_code_fence inside_after
inside-Counted r done h =
    let closed : Bool → Bool = λ b. if is_fence r.incomplete_line then not b else b in
    let parts : split newline r.accumulated ≡ done ++ r.incomplete_line ∷ [] =
      ap (split newline) h.text
      ∙ split-lines_before done r.incomplete_line h.complete
      ∙ ap (◌++◌ done) (split_open r.incomplete_line h.open_line) in
    let before : inside_after false done ≡ odd r.fence_toggles =
      inside_after-count 0 done ∙ ap odd (sym h.toggles) in
    sym (
      ap (inside_after false) parts
      ∙ inside_after-append false done (r.incomplete_line ∷ [])
      ∙ ap closed before)

-- For every list of chunks that a new renderer is given by `push`, one after the other: the state that
-- `isAccumulatedInsideFence` keeps from chunk to chunk (fence lines counted, the line that is not
-- complete) tells the same as `isInsideCodeFence` on the whole text received.
pub is_accumulated_inside_fence-push_all :
    (wrap : Bool) (chunks : List Text)
    → is_accumulated_inside_fence (push_all (new_renderer wrap) chunks)
      ≡ is_inside_code_fence (push_all (new_renderer wrap) chunks).accumulated
is_accumulated_inside_fence-push_all wrap chunks =
    let start : Counted (new_renderer wrap) [] =
      unfold count_fences in
      record { text = refl; complete = tt; open_line = tt; toggles = refl } in
    let counted = push_all-Counted (new_renderer wrap) [] chunks start in
    inside-Counted (push_all (new_renderer wrap) chunks) counted.0 counted.1
