-- ===== src/Chat/Chunking/Solid.antt =====
-- The units of a text that are not white space, through the text functions of `chunkText`
-- (extensions/chat-inbox/render/chunking.ts).
use picot.Base.{
  ℕ, zero, suc, ◌≡◌, refl, sym, ap, ◌∙◌, Bool, true, false, not, ◌&&◌, List, [], ◌∷◌, ◌++◌,
  append_assoc, arith, nat_beq, if◌then◌else◌, nat_eq, if-cases, option_eq, Text, text_eq, is_space,
  trim_start, trim_end, cons_trimmed, trim, split, cons_head, take, drop, keep, keep-append,
}
use picot.Chat.Chunking.{newline, starts_with_unit, normalize_newlines, split_paragraphs}

-- The text without its white space.
unfoldable pub solid : Text → Text
solid s = keep (λ c. not (is_space c)) s

unfoldable pub all_solid : List Text → Text
all_solid [] = []
all_solid (t ∷ ts) = solid t ++ all_solid ts

pub solid-append : (s t : Text) → solid (s ++ t) ≡ solid s ++ solid t
unfolding solid
solid-append s t = keep-append (λ c. not (is_space c)) s t

pub all_solid-append : (ss ts : List Text) → all_solid (ss ++ ts) ≡ all_solid ss ++ all_solid ts
unfolding all_solid
all_solid-append [] ts = refl
all_solid-append (s ∷ ss) ts =
    ap (◌++◌ (solid s)) (all_solid-append ss ts)
    ∙ sym (append_assoc (solid s) (all_solid ss) (all_solid ts))

solid-space : (c : ℕ) (s : Text) → is_space c ≡ true → solid (c ∷ s) ≡ solid s
unfolding solid
solid-space c s h = ground (arith, h)

solid-newline : (s : Text) → solid (newline ∷ s) ≡ solid s
unfolding is_space
solid-newline s = solid-space newline s refl

solid-cons : (c : ℕ) (s t : Text) → solid s ≡ solid t → solid (c ∷ s) ≡ solid (c ∷ t)
unfolding solid
solid-cons c s t h = ap (λ x. if not (is_space c) then c ∷ x else x) h

pub solid-trim_start : (s : Text) → solid (trim_start s) ≡ solid s
unfolding trim_start
solid-trim_start [] = refl
solid-trim_start (c ∷ s) =
    if-cases (λ t. solid t ≡ solid (c ∷ s)) (is_space c) (trim_start s) (c ∷ s)
      (λ space. solid-trim_start s ∙ sym (solid-space c s space)) (λ other. refl)

solid-cons_trimmed :
    (b : Bool) (c : ℕ) (t : Text) → is_space c ≡ b → solid (cons_trimmed b c t) ≡ solid (c ∷ t)
solid-cons_trimmed true c [] h = sym (solid-space c [] h)
solid-cons_trimmed false c [] h = refl
solid-cons_trimmed b c (d ∷ t) h = refl

solid-trim_end : (s : Text) → solid (trim_end s) ≡ solid s
unfolding trim_end
solid-trim_end [] = refl
solid-trim_end (c ∷ s) =
    solid-cons_trimmed (is_space c) c (trim_end s) refl
    ∙ solid-cons c (trim_end s) s (solid-trim_end s)

pub solid-trim : (s : Text) → solid (trim s) ≡ solid s
unfolding trim
solid-trim s = solid-trim_end (trim_start s) ∙ solid-trim_start s

take-append-drop : (n : ℕ) (s : Text) → take n s ++ drop n s ≡ s
take-append-drop zero s = refl
take-append-drop (suc n) [] = refl
take-append-drop (suc n) (c ∷ s) = ap (◌∷◌ c) (take-append-drop n s)

pub solid-take : (n : ℕ) (s : Text) → solid (take n s) ++ solid (drop n s) ≡ solid s
solid-take n s = sym (solid-append (take n s) (drop n s)) ∙ ap solid (take-append-drop n s)

return_is_space : (c : ℕ) → nat_beq c 13 ≡ true → is_space c ≡ true
unfolding is_space
return_is_space c h = ground (arith, h)

newline-is_space : (c : ℕ) → nat_beq c newline ≡ true → is_space c ≡ true
unfolding is_space
newline-is_space c h = ground (arith, h)

pub solid-normalize_newlines : (s : Text) → solid (normalize_newlines s) ≡ solid s
unfolding normalize_newlines
solid-normalize_newlines [] = refl
solid-normalize_newlines (c ∷ s) =
    if-cases (λ t. solid t ≡ solid (c ∷ s)) (nat_beq c 13 && starts_with_unit newline s)
      (normalize_newlines s) (c ∷ normalize_newlines s)
      (λ crlf.
        solid-normalize_newlines s
        ∙ sym (solid-space c s (return_is_space c (ground (arith, crlf)))))
      (λ other. solid-cons c (normalize_newlines s) s (solid-normalize_newlines s))

all_solid-cons_head :
    (c : ℕ) (ps : List Text) → all_solid (cons_head c ps) ≡ solid (c ∷ []) ++ all_solid ps
unfolding all_solid
all_solid-cons_head c [] = refl
all_solid-cons_head c (p ∷ ps) =
    ap (λ x. x ++ all_solid ps) (solid-append (c ∷ []) p)
    ∙ append_assoc (solid (c ∷ [])) (solid p) (all_solid ps)

-- The first unit of a text, and the rest.
solid-first : (c : ℕ) (s : Text) → solid (c ∷ []) ++ solid s ≡ solid (c ∷ s)
solid-first c s = sym (solid-append (c ∷ []) s)

-- An empty text in front adds nothing.
all_solid-skip : (ts : List Text) → all_solid ([] ∷ ts) ≡ all_solid ts
unfolding all_solid solid
all_solid-skip ts = refl

-- A unit that is put back in front of the first part.
all_solid-put :
    (c : ℕ) (s : Text) (ps : List Text)
    → all_solid ps ≡ solid s
    → all_solid (cons_head c ps) ≡ solid (c ∷ s)
all_solid-put c s ps h = all_solid-cons_head c ps ∙ ap (◌++◌ (solid (c ∷ []))) h ∙ solid-first c s

pub all_solid-split : (s : Text) → all_solid (split newline s) ≡ solid s
unfolding split
all_solid-split [] = unfold all_solid solid in refl
all_solid-split (c ∷ s) =
    if-cases (λ ps. all_solid ps ≡ solid (c ∷ s)) (nat_beq c newline) ([] ∷ split newline s)
      (cons_head c (split newline s))
      (λ hit.
        all_solid-skip (split newline s)
        ∙ all_solid-split s
        ∙ sym (solid-space c s (newline-is_space c hit)))
      (λ miss. all_solid-put c s (split newline s) (all_solid-split s))

pub all_solid-split_paragraphs : (b : Bool) (s : Text) → all_solid (split_paragraphs b s) ≡ solid s
unfolding split_paragraphs
all_solid-split_paragraphs b [] = unfold all_solid solid in refl
all_solid-split_paragraphs true (c ∷ s) =
    if-cases (λ ps. all_solid ps ≡ solid (c ∷ s)) (nat_beq c newline) (split_paragraphs true s)
      (cons_head c (split_paragraphs false s))
      (λ hit. all_solid-split_paragraphs true s ∙ sym (solid-space c s (newline-is_space c hit)))
      (λ miss. all_solid-put c s (split_paragraphs false s) (all_solid-split_paragraphs false s))
all_solid-split_paragraphs false (c ∷ s) =
    if-cases (λ ps. all_solid ps ≡ solid (c ∷ s)) (nat_beq c newline && starts_with_unit newline s)
      ([] ∷ split_paragraphs true s) (cons_head c (split_paragraphs false s))
      (λ hit.
        all_solid-skip (split_paragraphs true s)
        ∙ all_solid-split_paragraphs true s
        ∙ sym (solid-space c s (newline-is_space c (ground (arith, hit)))))
      (λ miss. all_solid-put c s (split_paragraphs false s) (all_solid-split_paragraphs false s))
