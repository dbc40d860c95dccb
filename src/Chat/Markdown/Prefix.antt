-- ===== src/Chat/Markdown/Prefix.antt =====
-- What `getCommittablePrefix` and `getCommittableText` leave out
-- (extensions/chat-inbox/render/streaming-markdown.ts).
use mathlib.Core.List.{reverse}
use picot.Base.{
  ℕ, zero, suc, ◌-◌, ◌≤◌, ◌<◌, ◌≡◌, refl, sym, ap, subst, ◌∙◌, ◌⊎◌, inl, inr, Bool, true, false,
  not, ◌&&◌, ◌||◌, none, some, List, [], ◌∷◌, ◌++◌, append_assoc, append-nil, arith, ltb, nat_beq,
  if◌then◌else◌, ◌==◌, nat_eq, if-both, if-cases, option_eq, Text, text_eq, split, join, join-split,
  length, get_elem?, take, last, init, truthy,
}
use picot.Chat.Chunking.{newline}
use picot.Chat.Markdown.Fences.{lines_before, lines_before-more}
use picot.Chat.Markdown.{
  complete_lines, terminated, count_held, ends_with_newline, get_committable_prefix,
  is_inside_code_fence,
}
use picot.Chat.Markdown.Renderer.{
  is_clean, clean_before, find_clean_prefix, through_last_newline, committable_source,
  format_append_only_text, get_committable_text, Renderer,
}

-- The text begins with `p`.
abbrev pub Begins : Text → Text → Type 0
Begins p s = (rest : Text) × (p ++ rest ≡ s)

Begins-refl : (s : Text) → Begins s s
Begins-refl s = ([], append-nil s)

Begins-trans : (p s t : Text) → Begins p s → Begins s t → Begins p t
Begins-trans p s t (q, h) (r, k) = (q ++ r, sym (append_assoc p q r) ∙ ap (λ x. x ++ r) h ∙ k)

Begins-cons : (c : ℕ) (p s : Text) → Begins p s → Begins (c ∷ p) (c ∷ s)
Begins-cons c p s (q, h) = (q, ap (◌∷◌ c) h)

Begins-take : (n : ℕ) (s : Text) → Begins (take n s) s
Begins-take zero s = (s, refl)
Begins-take (suc n) [] = ([], refl)
Begins-take (suc n) (c ∷ s) = Begins-cons c (take n s) s (Begins-take n s)

-- The first `ps` of the lines, and a line after them.
abbrev Before : List Text → List Text → Type 0
Before ps ls = (q : Text) × (qs : List Text) × (ps ++ q ∷ qs ≡ ls)

Before-take : (n : ℕ) (ls : List Text) → n < length ls → Before (take n ls) ls
Before-take n [] h = absurd (omega (arith, h))
Before-take zero (l ∷ ls) h = (l, ls, refl)
Before-take (suc n) (l ∷ ls) h =
    let (q, qs, e) = Before-take n ls (omega (arith, h)) in (q, qs, ap (◌∷◌ l) e)

join-before :
    (ps : List Text) (q : Text) (qs : List Text)
    → join newline (ps ++ q ∷ qs) ≡ lines_before ps (join newline (q ∷ qs))
unfolding join
join-before [] q qs = refl
join-before (p ∷ []) q qs = refl
join-before (p ∷ p' ∷ ps) q qs = ap (λ t. p ++ newline ∷ t) (join-before (p' ∷ ps) q qs)

terminated-lines_before : (ps : List Text) → terminated ps ≡ lines_before ps []
unfolding join
terminated-lines_before [] = refl
terminated-lines_before (p ∷ []) = refl
terminated-lines_before (p ∷ p' ∷ ps) =
    append_assoc p (newline ∷ join newline (p' ∷ ps)) (newline ∷ [])
    ∙ ap (λ t. p ++ newline ∷ t) (terminated-lines_before (p' ∷ ps))

Begins-terminated : (ps ls : List Text) → Before ps ls → Begins (terminated ps) (join newline ls)
Begins-terminated ps ls (q, qs, e) = (
  join newline (q ∷ qs),
  ap (λ t. t ++ join newline (q ∷ qs)) (terminated-lines_before ps)
      ∙ lines_before-more ps [] (join newline (q ∷ qs))
      ∙ sym (join-before ps q qs)
      ∙ ap (join newline) e,
)

init_part : (ls : List Text) → (rest : List Text) × (init ls ++ rest ≡ ls)
init_part [] = ([], refl)
init_part (l ∷ []) = (l ∷ [], refl)
init_part (l ∷ l' ∷ ls) = let (rest, e) = init_part (l' ∷ ls) in (rest, ap (◌∷◌ l) e)

complete_lines_part :
    (b : Bool) (ls : List Text) → (rest : List Text) × (complete_lines b ls ++ rest ≡ ls)
complete_lines_part false ls = init_part ls
complete_lines_part true ls =
    if-both (λ t. (rest : List Text) × (t ++ rest ≡ ls)) (last ls == some []) (init ls) ls
      (init_part ls) ([], append-nil ls)

Before-part : (ps ls ms rest : List Text) → Before ps ls → ls ++ rest ≡ ms → Before ps ms
Before-part ps ls ms rest (q, qs, e) h =
    (q, qs ++ rest, sym (append_assoc ps (q ∷ qs) rest) ∙ ap (λ t. t ++ rest) e ∙ h)

held_some : (ls : List Text) → nat_beq (count_held 0 false (reverse ls)).0 0 ≡ false → 1 ≤ length ls
unfolding count_held
held_some [] h = ground (arith, h)
held_some (l ∷ ls) h = omega arith

held_lines_begin :
    (text : Text)
    → let lines = complete_lines (ends_with_newline text) (split newline text) in
      let held = count_held 0 false (reverse lines) in
      nat_beq held.0 0 ≡ false → Begins (terminated (take (length lines - held.0) lines)) text
held_lines_begin text h =
    let lines = complete_lines (ends_with_newline text) (split newline text) in
    let held = count_held 0 false (reverse lines) in
    let n = length lines - held.0 in
    let (rest, e) = complete_lines_part (ends_with_newline text) (split newline text) in
    let some_line = held_some lines h in
    let fewer : n < length lines = ground (arith, h, some_line) in
    subst (Begins (terminated (take n lines))) (join-split newline text) (
      Begins-terminated (take n lines) (split newline text)
        (Before-part (take n lines) lines (split newline text) rest (Before-take n lines fewer) e))

pub get_committable_prefix-Begins : (text : Text) → Begins (get_committable_prefix text) text
unfolding get_committable_prefix
get_committable_prefix-Begins text =
    let lines = complete_lines (ends_with_newline text) (split newline text) in
    let held = count_held 0 false (reverse lines) in
    let safe = terminated (take (length lines - held.0) lines) in
    if-cases (λ t. Begins t text) (nat_beq held.0 0) text (if not held.1 then safe else text)
      (λ nothing. Begins-refl text)
      (λ h.
        if-both (λ t. Begins t text) (not held.1) safe text (held_lines_begin text h)
          (Begins-refl text))

-- Empty, or complete markdown.
abbrev pub Shown : (Text → Text) → Text → Type 0
Shown remend t = (t ≡ []) ⊎ (is_clean remend t ≡ true)

clean_before-Shown :
    (remend : Text → Text) (i : ℕ) (t : Text)
    → Begins (clean_before remend i t) t × Shown remend (clean_before remend i t)
unfolding clean_before
clean_before-Shown remend zero t = ((t, refl), inl refl)
clean_before-Shown remend (suc i) t =
    let P : Text → Type 0 = λ s. Begins s t × Shown remend s in
    let rest = clean_before remend i t in
    let unit = get_elem? t i in
    let h : P rest = clean_before-Shown remend i t in
    if-both P
      (not (elim unit [
        | none ↦ false
        | some c ↦ nat_beq c 42 || nat_beq c 126 || nat_beq c 96 || nat_beq c 91
      ]))
      rest
      (if ltb 0 i && (get_elem? t (i - 1) == unit)
        then rest
        else if is_clean remend (take i t)
        then take i t
        else rest)
      h
      (if-both P (ltb 0 i && (get_elem? t (i - 1) == unit)) rest
        (if is_clean remend (take i t) then take i t else rest) h
        (if-cases P (is_clean remend (take i t)) (take i t) rest
          (λ clean. (Begins-take i t, inr clean)) (λ dirty. h)))

-- For every completion function and every text: `findCleanPrefix` returns a beginning of the text, which
-- is empty or is left as long as it is by the completion.
pub find_clean_prefix-Shown :
    (remend : Text → Text) (t : Text)
    → Begins (find_clean_prefix remend t) t × Shown remend (find_clean_prefix remend t)
unfolding find_clean_prefix
find_clean_prefix-Shown remend [] = (Begins-refl [], inl refl)
find_clean_prefix-Shown remend (c ∷ s) =
    let P : Text → Type 0 = λ x. Begins x (c ∷ s) × Shown remend x in
    let n = length (c ∷ s) in
    if-cases P (nat_beq n 0 || is_clean remend (c ∷ s)) (c ∷ s) (clean_before remend n (c ∷ s))
      (λ whole. (Begins-refl (c ∷ s), inr (ground (arith, whole))))
      (λ unfinished. clean_before-Shown remend n (c ∷ s))

through_last_newline-Begins : (t : Text) → Begins (through_last_newline t) t
unfolding through_last_newline
through_last_newline-Begins [] = Begins-refl []
through_last_newline-Begins (c ∷ s) =
    let rest = through_last_newline s in
    if-both (λ t. Begins t (c ∷ s)) (truthy rest) (c ∷ rest)
      (if nat_beq c newline then c ∷ [] else [])
      (Begins-cons c rest s (through_last_newline-Begins s))
      (if-both (λ t. Begins t (c ∷ s)) (nat_beq c newline) (c ∷ []) [] (s, refl) (c ∷ s, refl))

committable_source-Begins : (t : Text) → Begins (committable_source t) t
unfolding committable_source
committable_source-Begins t =
    let cut = through_last_newline t in
    if-both (λ x. Begins x t) (truthy t && not (ends_with_newline t))
      (if is_inside_code_fence cut then t else cut) t
      (if-both (λ x. Begins x t) (is_inside_code_fence cut) t cut (Begins-refl t)
        (through_last_newline-Begins t))
      (Begins-refl t)

-- For every renderer that does not wrap tables: what `getCommittableText` returns is a beginning of the
-- text received, so nothing that it returns was added to it.
pub get_committable_text-Begins :
    (remend : Text → Text) (r : Renderer)
    → r.wrap_tables ≡ false
    → Begins (get_committable_text remend r) r.accumulated
unfolding get_committable_text format_append_only_text
get_committable_text-Begins remend r h =
    let P : Text → Type 0 = λ x. Begins x r.accumulated in
    let text = committable_source r.accumulated in
    let prefix = get_committable_prefix text in
    let plain : (b : Bool) (x : Text) → format_append_only_text r x b ≡ x =
      λ b x. ground (arith, h) in
    let source : P text = committable_source-Begins r.accumulated in
    let shorter : P prefix =
      Begins-trans prefix text r.accumulated (get_committable_prefix-Begins text) source in
    let wrapped = format_append_only_text r prefix false in
    let same : P wrapped = subst P (sym (plain false prefix)) shorter in
    if-both P r.finished (format_append_only_text r r.accumulated true)
      (if is_inside_code_fence text
        then format_append_only_text r text false
        else if is_inside_code_fence wrapped
        then wrapped
        else find_clean_prefix remend wrapped)
      (subst P (sym (plain true r.accumulated)) (Begins-refl r.accumulated))
      (if-both P (is_inside_code_fence text) (format_append_only_text r text false)
        (if is_inside_code_fence wrapped then wrapped else find_clean_prefix remend wrapped)
        (subst P (sym (plain false text)) source)
        (if-both P (is_inside_code_fence wrapped) wrapped (find_clean_prefix remend wrapped) same (
          Begins-trans (find_clean_prefix remend wrapped) wrapped r.accumulated
            (find_clean_prefix-Shown remend wrapped).0 same)))
