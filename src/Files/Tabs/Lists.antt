-- ===== src/Files/Tabs/Lists.antt =====
-- Lists of tabs under the operations of `FileTabState` (public/file-tab-state.js).
use picot.Base.{
  ℕ, zero, suc, ◌-◌, ◌<◌, min, ◌≡◌, refl, sym, ap, subst, ◌∙◌, ◌≢◌, inl, inr, Bool, true, false,
  ◌||◌, Option, none, some, List, [], ◌∷◌, ◌++◌, arith, ◌==◌, nat_eq, ==_refl, ==_iff, Bool-cases,
  if-both, if-cases, option_elim, option_eq, Text, text_eq, length, get_elem?, or_default, is_some,
}
use picot.Files.Tabs.Stored.{Unique}
use picot.Files.Tabs.{
  find_tab, has_tab, first_id, active_of, patched, update_first, index_of, remove_at, neighbour,
}
use picot.Files.Data.{Tab, TabPatch}

-- The active tab is one of the tabs; there is none only when there is no tab.
unfoldable pub IsActive : Option Text → List Tab → Type 0
IsActive none ts = ts ≡ []
IsActive (some id) ts = has_tab id ts ≡ true

first_id-IsActive : (ts : List Tab) → IsActive (first_id ts) ts
unfolding IsActive
first_id-IsActive [] = refl
first_id-IsActive (t ∷ ts) = ap (λ b. b || has_tab t.id ts) (==_refl t.id)

pub active_of-IsActive : (o : Option Text) (ts : List Tab) → IsActive (active_of o ts) ts
unfolding IsActive
active_of-IsActive none ts = first_id-IsActive ts
active_of-IsActive (some id) ts =
    if-cases (λ o. IsActive o ts) (has_tab id ts) (some id) (first_id ts) (λ h. h)
      (λ h. first_id-IsActive ts)

pub has_tab-find_tab : (id : Text) (ts : List Tab) → has_tab id ts ≡ is_some (find_tab id ts)
has_tab-find_tab id [] = refl
has_tab-find_tab id (t ∷ ts) = ground (arith, has_tab-find_tab id ts)

pub has_tab-append :
    (id : Text) (ts us : List Tab) → has_tab id (ts ++ us) ≡ has_tab id ts || has_tab id us
has_tab-append id [] us = refl
has_tab-append id (t ∷ ts) us = ground (arith, has_tab-append id ts us)

pub Unique-snoc :
    (ts : List Tab) (t : Tab) → Unique ts → has_tab t.id ts ≡ false → Unique (ts ++ t ∷ [])
unfolding Unique
Unique-snoc [] t h n = (refl, tt)
Unique-snoc (u ∷ ts) t h n =
    let other : (t.id == u.id) ≡ false = elim (Bool-cases (t.id == u.id)) [
      | inl same ↦
          absurd (ground (arith, n, (==_iff u.id t.id).1 (sym ((==_iff t.id u.id).0 same))))
      | inr differs ↦ differs
    ] in
    (
      ground (arith, has_tab-append u.id ts (t ∷ []), h.0, other),
      Unique-snoc ts t h.1 (ground (arith, n)),
    )

-- A patch without an id leaves the ids.
pub update_first-has :
    (id x : Text) (p : TabPatch) (ts : List Tab)
    → p.id ≡ none
    → has_tab x (update_first id p ts) ≡ has_tab x ts
unfolding update_first patched
update_first-has id x p [] h = refl
update_first-has id x p (t ∷ ts) h =
    if-both (λ us. has_tab x us ≡ has_tab x (t ∷ ts)) (t.id == id) (patched p t ∷ ts)
      (t ∷ update_first id p ts) (ap (λ o. (or_default o t.id == x) || has_tab x ts) h)
      (ap (◌||◌ (t.id == x)) (update_first-has id x p ts h))

pub update_first-Unique :
    (id : Text) (p : TabPatch) (ts : List Tab)
    → p.id ≡ none
    → Unique ts
    → Unique (update_first id p ts)
unfolding update_first patched Unique
update_first-Unique id p [] h u = tt
update_first-Unique id p (t ∷ ts) h u =
    if-both Unique (t.id == id) (patched p t ∷ ts) (t ∷ update_first id p ts)
      (ap (λ o. has_tab (or_default o t.id) ts) h ∙ u.0, u.1)
      (update_first-has id t.id p ts h ∙ u.0, update_first-Unique id p ts h u.1)

remove_at-lacks :
    (x : Text) (i : ℕ) (ts : List Tab) → has_tab x ts ≡ false → has_tab x (remove_at i ts) ≡ false
unfolding remove_at
remove_at-lacks x i [] h = refl
remove_at-lacks x zero (t ∷ ts) h = ground (arith, h)
remove_at-lacks x (suc i) (t ∷ ts) h = ground (arith, h, remove_at-lacks x i ts)

pub remove_at-Unique : (i : ℕ) (ts : List Tab) → Unique ts → Unique (remove_at i ts)
unfolding remove_at Unique
remove_at-Unique i [] u = tt
remove_at-Unique zero (t ∷ ts) u = u.1
remove_at-Unique (suc i) (t ∷ ts) u = (remove_at-lacks t.id i ts u.0, remove_at-Unique i ts u.1)

-- Only the tab with the id is removed.
pub remove_at-has :
    (id x : Text) (i : ℕ) (ts : List Tab)
    → index_of id ts ≡ some i
    → x ≢ id
    → has_tab x ts ≡ true
    → has_tab x (remove_at i ts) ≡ true
unfolding index_of remove_at
remove_at-has id x i [] = λ e n h. cc
remove_at-has id x i (t ∷ ts) =
    if-cases
      (λ o.
        o ≡ some i → x ≢ id → has_tab x (t ∷ ts) ≡ true → has_tab x (remove_at i (t ∷ ts)) ≡ true)
      (t.id == id) (some 0)
      (elim (index_of id ts) as (λ _. Option ℕ) [ none ↦ none | some j ↦ some (suc j) ])
      (λ same e n h.
        let at : 0 ≡ i = ground (arith, e) in
        let other : (t.id == x) ≢ true =
          λ k. n (sym ((==_iff t.id x).0 k) ∙ (==_iff t.id id).0 same) in
        subst (λ j. has_tab x (remove_at j (t ∷ ts)) ≡ true) at
          (later (t.id == x) (has_tab x ts) other h))
      (λ differs.
        option_elim {B = Option ℕ}
          (λ o.
            o ≡ some i
            → x ≢ id
            → has_tab x (t ∷ ts) ≡ true
            → has_tab x (remove_at i (t ∷ ts)) ≡ true)
          (index_of id ts) none (λ j. some (suc j)) (λ missing e. cc)
          (λ j found e n h.
            let at : suc j ≡ i = ground (arith, e) in
            subst (λ k. has_tab x (remove_at k (t ∷ ts)) ≡ true) at
              (kept (t.id == x) (has_tab x ts) (has_tab x (remove_at j ts))
                (remove_at-has id x j ts found n) h)))
  where
    later : (a b : Bool) → a ≢ true → a || b ≡ true → b ≡ true
    later true b n h = absurd (n refl)
    later false b n h = h

    kept : (a b c : Bool) → (b ≡ true → c ≡ true) → a || b ≡ true → a || c ≡ true
    kept true b c k h = refl
    kept false b c k h = k h

get_elem?-in :
    (ts : List Tab) (k : ℕ)
    → k < length ts
    → (u : Tab) × ((get_elem? ts k ≡ some u) × (has_tab u.id ts ≡ true))
get_elem?-in [] k h = absurd (omega (arith, h))
get_elem?-in (t ∷ ts) zero h = (t, (refl, ap (λ b. b || has_tab t.id ts) (==_refl t.id)))
get_elem?-in (t ∷ ts) (suc k) h =
    let (u, (e, p)) = get_elem?-in ts k (omega (arith, h)) in (u, (e, ground (arith, p)))

pub neighbour-IsActive : (i : ℕ) (ts : List Tab) → IsActive (neighbour i ts) ts
unfolding neighbour IsActive
neighbour-IsActive i [] = refl
neighbour-IsActive i (t ∷ ts) =
    let k = min i (length (t ∷ ts) - 1) in
    let (u, (e, p)) = get_elem?-in (t ∷ ts) k (omega arith) in
    subst
      (λ o. IsActive (elim o as (λ _. Option Text) [ none ↦ none | some v ↦ some v.id ]) (t ∷ ts))
      (sym e) p
