-- ===== src/Base/Strings.antt =====
-- Texts as lists of UTF-16 code units, and the string methods that the frontend uses on them.
use Prim.Native.Nat.{ℕ}
use Prim.Native.Char.{code}
use Prim.Native.String.{String}
use mathlib.Core.Path.{◌≡◌, refl, ap}
use mathlib.Core.Logic.{◌↔◌}
use mathlib.Core.Bool.{Bool, true, false, ◌&&◌, ◌||◌}
use mathlib.Core.Option.{Option, none, some}
use mathlib.Core.List.{List, [], ◌∷◌, ◌++◌}
use native.Mathlib.Omega.{arith}
use picot.Base.Tests.{leb, nat_beq, nat_eq, if◌then◌else◌, Eq}

abbrev pub Text : Type 0
Text = List ℕ

-- The code units of a literal.
abbrev pub codes : String → Text
codes String.[] = []
codes (String.◌∷◌ c s) = code c ∷ codes s

-- `a === b`
unfoldable pub text_beq : Text → Text → Bool
text_beq [] [] = true
text_beq [] (y ∷ ys) = false
text_beq (x ∷ xs) [] = false
text_beq (x ∷ xs) (y ∷ ys) = nat_beq x y && text_beq xs ys

pub text_beq_iff : (s t : Text) → (text_beq s t ≡ true) ↔ (s ≡ t)
unfolding text_beq
text_beq_iff [] [] = ground arith
text_beq_iff [] (y ∷ ys) = ground arith
text_beq_iff (x ∷ xs) [] = ground arith
text_beq_iff (x ∷ xs) (y ∷ ys) = ground (arith, text_beq_iff xs ys)

instance abbrev pub text_eq : Eq Text
text_eq = record { beq = text_beq; beq_iff = text_beq_iff }

-- `text.startsWith(prefix)`, with what follows the prefix.
unfoldable pub strip_prefix : Text → Text → Option Text
strip_prefix [] s = some s
strip_prefix (p ∷ ps) [] = none
strip_prefix (p ∷ ps) (c ∷ s) = let rest = strip_prefix ps s in if nat_beq p c then rest else none

abbrev pub starts_with : Text → Text → Bool
starts_with p s = elim (strip_prefix p s) [ none ↦ false | some r ↦ true ]

pub strip_prefix-append : (p s : Text) → strip_prefix p (p ++ s) ≡ some s
unfolding strip_prefix
strip_prefix-append [] s = refl
strip_prefix-append (c ∷ p) s = ground (arith, strip_prefix-append p s)

pub strip_prefix_inv : (p s r : Text) → strip_prefix p s ≡ some r → s ≡ p ++ r
unfolding strip_prefix
strip_prefix_inv [] s r h = ground arith
strip_prefix_inv (c ∷ p) [] r h = cc
strip_prefix_inv (c ∷ p) (d ∷ s) r h = ground (arith, strip_prefix_inv p s r)

-- White space and line terminators of the language.
unfoldable pub is_space : ℕ → Bool
is_space c =
    (leb 9 c && leb c 13)
    || nat_beq c 32
    || nat_beq c 0xa0
    || nat_beq c 0x1680
    || (leb 0x2000 c && leb c 0x200a)
    || nat_beq c 0x2028
    || nat_beq c 0x2029
    || nat_beq c 0x202f
    || nat_beq c 0x205f
    || nat_beq c 0x3000
    || nat_beq c 0xfeff

unfoldable pub trim_start : Text → Text
trim_start [] = []
trim_start (c ∷ s) = let rest = trim_start s in if is_space c then rest else c ∷ s

abbrev pub cons_trimmed : Bool → ℕ → Text → Text
cons_trimmed true c [] = []
cons_trimmed false c [] = c ∷ []
cons_trimmed b c (d ∷ s) = c ∷ d ∷ s

unfoldable pub trim_end : Text → Text
trim_end [] = []
trim_end (c ∷ s) = cons_trimmed (is_space c) c (trim_end s)

-- `text.trim()`
unfoldable pub trim : Text → Text
unfolding trim_start trim_end is_space
trim s = trim_end (trim_start s)

-- A text without white space at its ends: `trim` leaves it alone.
pub trim_end_idem : (s : Text) → trim_end (trim_end s) ≡ trim_end s
unfolding trim_end
trim_end_idem [] = refl
trim_end_idem (c ∷ s) = ground (arith, trim_end_idem s)

trim_start_solid :
    (b : Bool) (c : ℕ) (t : Text)
    → is_space c ≡ b
    → b ≡ false
    → trim_start (cons_trimmed b c t) ≡ cons_trimmed b c t
unfolding trim_start
trim_start_solid true c t h f = ground (arith, f)
trim_start_solid false c [] h f = ap (λ b. if b then [] else c ∷ []) h
trim_start_solid false c (d ∷ s) h f = ap (λ b. if b then trim_start (d ∷ s) else c ∷ d ∷ s) h

trim_start-trim_if :
    (b : Bool) (c : ℕ) (s : Text)
    → is_space c ≡ b
    → trim_start (trim_end (trim_start s)) ≡ trim_end (trim_start s)
    → trim_start (trim_end (if b then trim_start s else c ∷ s))
      ≡ trim_end (if b then trim_start s else c ∷ s)
unfolding trim_end
trim_start-trim_if true c s h rest = rest
trim_start-trim_if false c s h rest = trim_start_solid (is_space c) c (trim_end s) refl h

trim_start-trim : (s : Text) → trim_start (trim_end (trim_start s)) ≡ trim_end (trim_start s)
unfolding trim_start trim_end
trim_start-trim [] = refl
trim_start-trim (c ∷ s) = trim_start-trim_if (is_space c) c s refl (trim_start-trim s)

pub trim_idem : (s : Text) → trim (trim s) ≡ trim s
unfolding trim
trim_idem s = ground (arith, trim_start-trim s, trim_end_idem (trim_start s))

-- `text.split(sep)` for a separator of one code unit.
abbrev pub cons_head : ℕ → List Text → List Text
cons_head c [] = (c ∷ []) ∷ []
cons_head c (p ∷ ps) = (c ∷ p) ∷ ps

unfoldable pub split : ℕ → Text → List Text
split d [] = [] ∷ []
split d (c ∷ s) = let rest = split d s in if nat_beq c d then [] ∷ rest else cons_head c rest

-- `parts.join(sep)`
unfoldable pub join : ℕ → List Text → Text
join d [] = []
join d (p ∷ []) = p
join d (p ∷ q ∷ ps) = p ++ d ∷ join d (q ∷ ps)

-- No code unit of the text is `d`.
abbrev pub Lacks : ℕ → Text → Type 0
Lacks d [] = Unit
Lacks d (c ∷ s) = (nat_beq c d ≡ false) × Lacks d s
