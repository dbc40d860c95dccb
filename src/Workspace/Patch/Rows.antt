-- ===== src/Workspace/Patch/Rows.antt =====
-- The two columns of the rows of a split diff: public/workspace/patch-utils.js.
use picot.Base.{
  ◌≡◌, refl, sym, ap, ◌∙◌, not, List, [], ◌∷◌, ◌++◌, append_assoc, arith, nat_eq, option_eq,
  text_eq, keep,
}
use picot.Workspace.Patch.{empty, Cell, Row, hunk, line, pair_up, is_type}

-- The cells that are not there to fill a row up.
abbrev pub visible : List Cell → List Cell
visible = keep (λ c. not (is_type empty c.type))

unfoldable pub lefts : List Row → List Cell
lefts [] = []
lefts (hunk h ∷ rs) = lefts rs
lefts (line l r ∷ rs) = visible (l ∷ []) ++ lefts rs

unfoldable pub rights : List Row → List Cell
rights [] = []
rights (hunk h ∷ rs) = rights rs
rights (line l r ∷ rs) = visible (r ∷ []) ++ rights rs

pub lefts-append : (rs ss : List Row) → lefts (rs ++ ss) ≡ lefts rs ++ lefts ss
unfolding lefts
lefts-append [] ss = refl
lefts-append (hunk h ∷ rs) ss = lefts-append rs ss
lefts-append (line l r ∷ rs) ss =
    ap (◌++◌ (visible (l ∷ []))) (lefts-append rs ss)
    ∙ sym (append_assoc (visible (l ∷ [])) (lefts rs) (lefts ss))

pub rights-append : (rs ss : List Row) → rights (rs ++ ss) ≡ rights rs ++ rights ss
unfolding rights
rights-append [] ss = refl
rights-append (hunk h ∷ rs) ss = rights-append rs ss
rights-append (line l r ∷ rs) ss =
    ap (◌++◌ (visible (r ∷ []))) (rights-append rs ss)
    ∙ sym (append_assoc (visible (r ∷ [])) (rights rs) (rights ss))

pub lefts-pair_up : (ls rs : List Cell) → lefts (pair_up ls rs) ≡ visible ls
unfolding lefts pair_up
lefts-pair_up [] [] = refl
lefts-pair_up (l ∷ ls) [] = ground (arith, lefts-pair_up ls [])
lefts-pair_up [] (r ∷ rs) = lefts-pair_up [] rs
lefts-pair_up (l ∷ ls) (r ∷ rs) = ground (arith, lefts-pair_up ls rs)

pub rights-pair_up : (ls rs : List Cell) → rights (pair_up ls rs) ≡ visible rs
unfolding rights pair_up
rights-pair_up [] [] = refl
rights-pair_up (l ∷ ls) [] = rights-pair_up ls []
rights-pair_up [] (r ∷ rs) = ground (arith, rights-pair_up [] rs)
rights-pair_up (l ∷ ls) (r ∷ rs) = ground (arith, rights-pair_up ls rs)
