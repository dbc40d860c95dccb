-- ===== src/Base/Split.antt =====
-- Laws of `split`, `join` and `trim`.
use Prim.Native.Nat.{ℕ}
use mathlib.Core.Path.{◌≡◌, refl, ap, ◌∙◌}
use mathlib.Core.Logic.{inl, inr, ◌≢◌}
use mathlib.Core.List.{List, [], ◌∷◌, ◌++◌}
use native.Mathlib.Omega.{arith}
use picot.Base.Tests.{nat_beq, Bool-cases}
use picot.Base.Strings.{Text, split, join, cons_head, Lacks}
use picot.Base.Lists.{All}

-- `split` never returns the empty list.
split_nonempty : (d : ℕ) (s : Text) → split d s ≢ []
unfolding split
split_nonempty d [] h = cc
split_nonempty d (c ∷ s) h = ground arith

join-cons_head : (d c : ℕ) (ps : List Text) → ps ≢ [] → join d (cons_head c ps) ≡ c ∷ join d ps
unfolding join
join-cons_head d c [] h = absurd (h refl)
join-cons_head d c (p ∷ []) h = refl
join-cons_head d c (p ∷ q ∷ ps) h = refl

join-nil_cons : (d : ℕ) (ps : List Text) → ps ≢ [] → join d ([] ∷ ps) ≡ d ∷ join d ps
unfolding join
join-nil_cons d [] h = absurd (h refl)
join-nil_cons d (p ∷ ps) h = refl

-- Joining the parts gives the text back.
pub join-split : (d : ℕ) (s : Text) → join d (split d s) ≡ s
unfolding split
join-split d [] = unfold join in refl
join-split d (c ∷ s) = elim (Bool-cases (nat_beq c d)) [
  | inl hit ↦
      rw hit (join-nil_cons d (split d s) (split_nonempty d s) ∙ ground (arith, join-split d s))
  | inr miss ↦
      rw miss (join-cons_head d c (split d s) (split_nonempty d s) ∙ ap (◌∷◌ c) (join-split d s))
]

split_plain : (d : ℕ) (s : Text) → Lacks d s → split d s ≡ s ∷ []
unfolding split
split_plain d [] h = refl
split_plain d (c ∷ s) h = rw (h.0, split_plain d s h.1)

-- A first part without the separator is split off.
pub split-append : (d : ℕ) (s t : Text) → Lacks d s → split d (s ++ d ∷ t) ≡ s ∷ split d t
unfolding split
split-append d [] t h = ground arith
split-append d (c ∷ s) t h = rw (h.0, split-append d s t h.1)

-- Splitting joined parts gives the parts back, when none of them holds the separator.
pub split-join :
    (d : ℕ) (p : Text) (ps : List Text)
    → All (Lacks d) (p ∷ ps)
    → split d (join d (p ∷ ps)) ≡ p ∷ ps
unfolding join
split-join d p [] h = split_plain d p h.0
split-join d p (q ∷ ps) h =
    split-append d p (join d (q ∷ ps)) h.0 ∙ ap (◌∷◌ p) (split-join d q ps h.1)
