-- ===== src/Chat/Markdown/Renderer.antt =====
-- The class `StreamingMarkdownRenderer` (extensions/chat-inbox/render/streaming-markdown.ts).
use Prim.Native.Nat.{◌%◌}
use picot.Base.{
  ℕ, zero, suc, ◌-◌, Bool, true, false, not, ◌&&◌, ◌||◌, none, some, List, [], ◌∷◌, ◌++◌, ltb, leb,
  nat_beq, if◌then◌else◌, ◌==◌, nat_eq, option_eq, Text, text_eq, split, length, get_elem?, take,
  last, init, or_default, truthy,
}
use picot.Chat.Chunking.{newline}
use picot.Chat.Markdown.{
  is_fence, is_inside_code_fence, ends_with_newline, get_committable_prefix, wrap_tables_for_append,
}

-- The renderer's state.
pub record Renderer : Type 0 where
  pub accumulated : Text
  pub dirty : Bool
  pub cached_render : Text
  pub finished : Bool
  pub fence_toggles : ℕ
  pub incomplete_line : Text
  pub wrap_tables : Bool

abbrev pub new_renderer : Bool → Renderer
new_renderer wrap = record {
  accumulated = [];
  dirty = true;
  cached_render = [];
  finished = false;
  fence_toggles = 0;
  incomplete_line = [];
  wrap_tables = wrap;
}

unfoldable pub count_fences : ℕ → List Text → ℕ
unfolding is_fence
count_fences toggles [] = toggles
count_fences toggles (l ∷ ls) = count_fences (if is_fence l then suc toggles else toggles) ls

unfoldable pub push : Renderer → Text → Renderer
unfolding count_fences split
push r chunk =
    let parts = split newline (r.incomplete_line ++ chunk) in
    record r {
      accumulated = r.accumulated ++ chunk;
      dirty = true;
      incomplete_line = or_default (last parts) [];
      fence_toggles = count_fences r.fence_toggles (init parts);
    }

unfoldable pub is_accumulated_inside_fence : Renderer → Bool
unfolding is_fence
is_accumulated_inside_fence r =
    let inside = nat_beq (r.fence_toggles % 2) 1 in
    if is_fence r.incomplete_line then not inside else inside

unfoldable pub format_append_only_text : Renderer → Text → Bool → Text
unfolding wrap_tables_for_append
format_append_only_text r text close_fences =
    if not r.wrap_tables then text else wrap_tables_for_append text close_fences

-- `text.slice(0, text.lastIndexOf("\n") + 1)`, empty when there is no line break
unfoldable pub through_last_newline : Text → Text
through_last_newline [] = []
through_last_newline (c ∷ s) =
    let rest = through_last_newline s in
    if truthy rest then c ∷ rest else if nat_beq c newline then c ∷ [] else []

unfoldable pub committable_source : Text → Text
unfolding through_last_newline is_inside_code_fence
committable_source text =
    if truthy text && not (ends_with_newline text)
    then (if is_inside_code_fence (through_last_newline text)
        then text
        else through_last_newline text)
    else text

module _ (remend : Text → Text) where
  abbrev pub is_clean : Text → Bool
  is_clean text = leb (length (remend text)) (length text)

  abbrev pub is_marker : ℕ → Bool
  is_marker c = nat_beq c 42 || nat_beq c 126 || nat_beq c 96 || nat_beq c 91

  -- The loop over the positions below the first argument, downwards. The inner `while` goes to the
  -- start of a run of one marker: a position whose neighbour on the left is the same is passed.
  unfoldable pub clean_before : ℕ → Text → Text
  clean_before zero text = []
  clean_before (suc i) text =
      let rest = clean_before i text in
      let unit = get_elem? text i in
      let run_goes_on = ltb 0 i && (get_elem? text (i - 1) == unit) in
      if not (elim unit [ none ↦ false | some c ↦ is_marker c ])
      then rest
      else if run_goes_on
      then rest
      else if is_clean (take i text)
      then take i text
      else rest

  unfoldable pub find_clean_prefix : Text → Text
  unfolding clean_before
  find_clean_prefix text =
      if nat_beq (length text) 0 || is_clean text then text else clean_before (length text) text

  unfoldable pub render : Renderer → Renderer × Text
  unfolding get_committable_prefix is_accumulated_inside_fence
  render r =
      let whole = remend r.accumulated in
      let committable = remend (get_committable_prefix r.accumulated) in
      let rendered =
        if r.finished
        then whole
        else if is_accumulated_inside_fence r
        then whole
        else committable in
      if not r.dirty
      then (r, r.cached_render)
      else (record r { dirty = false; cached_render = rendered }, rendered)

  unfoldable pub finish : Renderer → Renderer × Text
  unfolding render
  finish r = render (record r { finished = true; dirty = true })

  unfoldable pub get_committable_text : Renderer → Text
  unfolding format_append_only_text committable_source get_committable_prefix find_clean_prefix
  get_committable_text r =
      let text = committable_source r.accumulated in
      let wrapped = format_append_only_text r (get_committable_prefix text) false in
      if r.finished
      then format_append_only_text r r.accumulated true
      else if is_inside_code_fence text
      then format_append_only_text r text false
      else if is_inside_code_fence wrapped
      then wrapped
      else find_clean_prefix wrapped
