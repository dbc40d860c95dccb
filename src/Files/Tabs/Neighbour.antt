-- ===== src/Files/Tabs/Neighbour.antt =====
-- Which tab `closeTab` activates (public/file-tab-state.js), said on the row of tabs.
use picot.Base.{
  ℕ, suc, ◌-◌, min, ◌≡◌, refl, sym, ap, subst, ◌∙◌, inl, inr, Bool, true, false, Option, none, some,
  List, [], ◌∷◌, ◌++◌, append-nil, arith, if◌then◌else◌, ◌==◌, nat_eq, ==_refl, ==_iff, Bool-cases,
  option_elim, option_eq, Text, text_eq, length, get_elem?, last, length-append,
}
use picot.Files.Tabs.Stored.{Unique, persist-Unique}
use picot.Files.Tabs.Lists.{has_tab-append, remove_at-Unique}
use picot.Files.Tabs.Invariant.{IsValid}
use picot.Files.Tabs.{has_tab, persist, index_of, remove_at, neighbour, close_tab}
use picot.Files.Data.{Tab, TabState}

-- The tab after the closed one, or else the one before it.
abbrev pub beside : List Tab → List Tab → Option Text
beside left [] = elim (last left) [ none ↦ none | some t ↦ some t.id ]
beside left (t ∷ right) = some t.id

index_of-between :
    (left right : List Tab) (t : Tab)
    → has_tab t.id left ≡ false
    → index_of t.id (left ++ t ∷ right) ≡ some (length left)
unfolding index_of
index_of-between [] right t h =
    ap
      (λ b. if b then some 0 else (elim (index_of t.id right) as (λ _. Option ℕ) [
        | none ↦ none
        | some i ↦ some (suc i)
      ]))
      (==_refl t.id)
index_of-between (u ∷ left) right t h =
    let rest = index_of-between left right t (ground (arith, h)) in ground (arith, h, rest)

remove_at-between :
    (left right : List Tab) (t : Tab) → remove_at (length left) (left ++ t ∷ right) ≡ left ++ right
unfolding remove_at
remove_at-between [] right t = refl
remove_at-between (u ∷ left) right t = ap (◌∷◌ u) (remove_at-between left right t)

get_elem?-right :
    (left : List Tab) (t : Tab) (right : List Tab)
    → get_elem? (left ++ t ∷ right) (length left) ≡ some t
get_elem?-right [] t right = refl
get_elem?-right (u ∷ left) t right = get_elem?-right left t right

get_elem?-last : (u : Tab) (left : List Tab) → get_elem? (u ∷ left) (length left) ≡ last (u ∷ left)
get_elem?-last u [] = refl
get_elem?-last u (v ∷ left) = get_elem?-last v left

abbrev id_of : Option Tab → Option Text
id_of o = elim o [ none ↦ none | some t ↦ some t.id ]

neighbour-beside :
    (left right : List Tab) → neighbour (length left) (left ++ right) ≡ beside left right
unfolding neighbour
neighbour-beside [] [] = refl
neighbour-beside [] (t ∷ right) =
    let k : min 0 (length (t ∷ right) - 1) ≡ 0 = omega arith in
    ap (λ n. id_of (get_elem? (t ∷ right) n)) k
neighbour-beside (u ∷ left) [] =
    let k : min (suc (length left)) (length (u ∷ left ++ []) - 1) ≡ length left =
      omega (arith, length-append left []) in
    ap (λ n. id_of (get_elem? (u ∷ left ++ []) n)) k
    ∙ ap (λ ts. id_of (get_elem? (u ∷ ts) (length left))) (append-nil left)
    ∙ ap id_of (get_elem?-last u left)
neighbour-beside (u ∷ left) (t ∷ right) =
    let k : min (suc (length left)) (length (u ∷ left ++ t ∷ right) - 1) ≡ suc (length left) =
      omega (arith, length-append left (t ∷ right)) in
    ap (λ n. id_of (get_elem? (u ∷ left ++ t ∷ right) n)) k
    ∙ ap id_of (get_elem?-right left t right)

lacks_back : (a b : Text) → (a == b) ≡ false → (b == a) ≡ false
lacks_back a b h = elim (Bool-cases (b == a)) [
  | inl same ↦ absurd (ground (arith, h, (==_iff a b).1 (sym ((==_iff b a).0 same))))
  | inr differs ↦ differs
]

left_lacks :
    (left right : List Tab) (t : Tab) → Unique (left ++ t ∷ right) → has_tab t.id left ≡ false
unfolding Unique
left_lacks [] right t u = refl
left_lacks (v ∷ left) right t u =
    let far : (t.id == v.id) ≡ false = ground (arith, u.0, has_tab-append v.id left (t ∷ right)) in
    ground (arith, lacks_back t.id v.id far, left_lacks left right t u.1)

-- For a valid state and one of its tabs, with the tabs to its left and to its right: closing it leaves the
-- others in their order. If it was the active one, the tab that stood to its right becomes active, or else
-- the one to its left, or else none; otherwise the active tab stays. The answer is that the tab was
-- closed, and the tab that is active now.
pub close_tab_lem :
    (s : TabState) (left right : List Tab) (t : Tab) (now : ℕ)
    → IsValid s
    → s.tabs ≡ left ++ t ∷ right
    → let after = close_tab t.id now s in
      let active = if s.active_tab_id == some t.id then beside left right else s.active_tab_id in
      (after.0.tabs ≡ left ++ right)
      × ((after.0.active_tab_id ≡ active) × (after.1 ≡ (true, active)))
unfolding close_tab
close_tab_lem s left right t now h e =
    let active = if s.active_tab_id == some t.id then beside left right else s.active_tab_id in
    let closed : ℕ → TabState = λ i. record s {
      tabs = remove_at i s.tabs;
      active_tab_id =
          if s.active_tab_id == some t.id
          then neighbour i (remove_at i s.tabs)
          else s.active_tab_id;
    } in
    let place : index_of t.id s.tabs ≡ some (length left) =
      ap (index_of t.id) e
      ∙ index_of-between left right t (left_lacks left right t (subst Unique e h.unique)) in
    let rest : remove_at (length left) s.tabs ≡ left ++ right =
      ap (remove_at (length left)) e ∙ remove_at-between left right t in
    let next : (closed (length left)).active_tab_id ≡ active =
      ap (λ o. if s.active_tab_id == some t.id then o else s.active_tab_id)
        (ap (neighbour (length left)) rest ∙ neighbour-beside left right) in
    option_elim {B = TabState × (Bool × Option Text)}
      (λ (r : TabState × (Bool × Option Text)).
        (r.0.tabs ≡ left ++ right) × ((r.0.active_tab_id ≡ active) × (r.1 ≡ (true, active))))
      (index_of t.id s.tabs) (s, (false, none))
      (λ i. (persist now (closed i), (true, (closed i).active_tab_id)))
      (λ missing. absurd (ground (arith, missing, place)))
      (λ i found.
        let at : length left ≡ i = ground (arith, found, place) in
        let kept = persist-Unique now (closed i) (remove_at-Unique i s.tabs h.unique) h.roots in
        let here : (closed i).active_tab_id ≡ active =
          subst (λ k. (closed k).active_tab_id ≡ active) at next in
        (
          kept.1.0 ∙ subst (λ k. remove_at k s.tabs ≡ left ++ right) at rest,
          (kept.1.1 ∙ here, ap (λ o. (true, o)) here),
        ))
