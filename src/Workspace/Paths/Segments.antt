-- ===== src/Workspace/Paths/Segments.antt =====
-- The segments that `normalizedParts` of public/workspace/path-utils.js leaves.
use picot.Base.{
  ◌≡◌, refl, sym, subst, inl, inr, Bool, true, false, not, ◌&&◌, List, [], ◌∷◌, ◌++◌, append_assoc,
  append-nil, arith, if◌then◌else◌, ◌==◌, nat_eq, Bool-cases, option_eq, Text, text_beq_iff,
  text_eq, last, init, truthy,
}
use picot.Workspace.Paths.{
  parse_root, slashes, dot, dots, can_pop, add_part, add_parts, normalized_parts,
}

-- Segments of a normal path: `..` only in front, and only in a path without a root; no empty segment
-- and no `.`.
unfoldable pub reduced : Bool → List Text → Bool
reduced rooted [] = true
reduced rooted (p ∷ ps) =
    let after_dots = reduced rooted ps in
    let after_name = reduced true ps in
    if p == dots then not rooted && after_dots else truthy p && not (p == dot) && after_name

reduced-name :
    (r : Bool) (ps : List Text) (p : Text)
    → reduced r ps ≡ true
    → truthy p ≡ true
    → (p == dot) ≡ false
    → (p == dots) ≡ false
    → reduced r (ps ++ p ∷ []) ≡ true
unfolding reduced
reduced-name r [] p h t d e = ground (arith, t, d, e)
reduced-name r (q ∷ ps) p h t d e =
    ground (arith, h, reduced-name r ps p, reduced-name true ps p, t, d, e)

names_pop :
    (q : Text) (ps : List Text) → reduced true (q ∷ ps) ≡ true → can_pop (last (q ∷ ps)) ≡ true
unfolding reduced
names_pop q [] h = ground (arith, h)
names_pop q (p ∷ ps) h = ground (arith, h, names_pop p ps)

reduced-dots :
    (ps : List Text)
    → reduced false ps ≡ true
    → can_pop (last ps) ≡ false
    → reduced false (ps ++ dots ∷ []) ≡ true
unfolding reduced
reduced-dots [] h l = ground (arith, text_beq_iff dots dots)
reduced-dots (q ∷ []) h l = ground (arith, h, l, text_beq_iff dots dots)
reduced-dots (q ∷ p ∷ ps) h l = ground (arith, h, l, reduced-dots (p ∷ ps), names_pop p ps)

reduced-init : (r : Bool) (ps : List Text) → reduced r ps ≡ true → reduced r (init ps) ≡ true
unfolding reduced
reduced-init r [] h = refl
reduced-init r (p ∷ []) h = refl
reduced-init r (p ∷ q ∷ ps) h =
    ground (arith, h, reduced-init r (q ∷ ps), reduced-init true (q ∷ ps))

add_part-reduced :
    (r : Bool) (ps : List Text) (p : Text)
    → reduced r ps ≡ true
    → reduced r (add_part r ps p) ≡ true
unfolding add_part
add_part-reduced r ps p h =
    let named = reduced-name r ps p h in
    elim (Bool-cases r) [
      | inl rooted ↦ ground (arith, rooted, h, named, reduced-init r ps h)
      | inr free ↦
          ground (arith, free, h, named, reduced-init r ps h, text_beq_iff p dots, reduced-dots ps)
    ]

add_parts-reduced :
    (r : Bool) (acc ps : List Text) → reduced r acc ≡ true → reduced r (add_parts r acc ps) ≡ true
unfolding add_parts
add_parts-reduced r acc [] h = h
add_parts-reduced r acc (p ∷ ps) h =
    add_parts-reduced r (add_part r acc p) ps (add_part-reduced r acc p h)

dots_front :
    (r : Bool) (acc ps : List Text)
    → reduced r (acc ++ dots ∷ ps) ≡ true
    → (r ≡ false) × (can_pop (last acc) ≡ false)
unfolding reduced
dots_front r [] ps h = ground (arith, h, text_beq_iff dots dots)
dots_front r (q ∷ []) ps h = ground (arith, h, text_beq_iff q dots, text_beq_iff dots dots)
dots_front r (q ∷ p ∷ acc) ps h =
    ground (arith, h, dots_front r (p ∷ acc) ps, dots_front true (p ∷ acc) ps)

name_inside :
    (r : Bool) (acc : List Text) (p : Text) (ps : List Text)
    → reduced r (acc ++ p ∷ ps) ≡ true
    → (p == dots) ≡ false
    → (truthy p ≡ true) × ((p == dot) ≡ false)
unfolding reduced
name_inside r [] p ps h d = ground (arith, h, d)
name_inside r (q ∷ acc) p ps h d =
    ground (arith, h, d, name_inside r acc p ps, name_inside true acc p ps)

add_part-keeps :
    (r : Bool) (acc : List Text) (p : Text) (ps : List Text)
    → reduced r (acc ++ p ∷ ps) ≡ true
    → add_part r acc p ≡ acc ++ p ∷ []
unfolding add_part
add_part-keeps r acc p ps h = elim (Bool-cases (p == dots)) [
  | inl up ↦
      let e = (text_beq_iff p dots).0 up in
      let front = dots_front r acc ps (subst (λ x. reduced r (acc ++ x ∷ ps) ≡ true) e h) in
      ground (arith, up, e, front, text_beq_iff dots dot, text_beq_iff dots dots)
  | inr name ↦ ground (arith, name, name_inside r acc p ps h name)
]

-- Reduced segments are added as they stand.
pub add_parts-keeps :
    (r : Bool) (acc ps : List Text) → reduced r (acc ++ ps) ≡ true → add_parts r acc ps ≡ acc ++ ps
unfolding add_parts
add_parts-keeps r acc [] h = sym (append-nil acc)
add_parts-keeps r acc (p ∷ ps) h =
    let same = append_assoc acc (p ∷ []) ps in
    ground (
      arith,
      same,
      add_part-keeps r acc p ps h,
      add_parts-keeps r (acc ++ p ∷ []) ps (subst (λ x. reduced r x ≡ true) (sym same) h),
    )

-- For every path: no segment that `normalizedParts` returns is empty or `.`, a `..` stands only in
-- front of all others and only when the path has no root, and walking the segments again under the
-- same root returns them unchanged.
pub normalized_parts_lem :
    (value : Text)
    → (reduced (truthy (normalized_parts value).root) (normalized_parts value).parts ≡ true)
      × (add_parts (truthy (normalized_parts value).root) [] (normalized_parts value).parts
          ≡ (normalized_parts value).parts)
unfolding normalized_parts reduced
normalized_parts_lem value =
    let p = normalized_parts value in
    let r = parse_root (slashes value) in
    let h = add_parts-reduced (truthy r.root) [] r.rest refl in
    (h, add_parts-keeps (truthy p.root) [] p.parts h)
