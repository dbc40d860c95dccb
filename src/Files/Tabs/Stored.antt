-- ===== src/Files/Tabs/Stored.antt =====
-- What `FileTabState` (public/file-tab-state.js) keeps in the storage for each root.
use picot.Base.{
  ℕ, zero, suc, ◌≡◌, refl, sym, ap, subst, ◌∙◌, false, ◌&&◌, ◌||◌, Option, none, some, List, [],
  ◌∷◌, map, arith, ltb, leb, ◌==◌, nat_eq, ==_iff, if-both, if-cases, option_eq, Text, text_eq,
  length, take, All, or_default, truthy,
}
use picot.JsMap.{get, set}
use picot.Files.Tabs.{
  read_snapshot, has_tab, load_tab, load_tabs, stored_root, stored_tab, insert_touched,
  sort_touched, clamp_roots, root_state, persist,
}
use picot.Files.Data.{Tab, RootState, Storage, TabState}

-- No two tabs have the same id.
unfoldable pub Unique : List Tab → Type 0
Unique [] = Unit
Unique (t ∷ ts) = (has_tab t.id ts ≡ false) × Unique ts

-- The tabs that a root would get are unique.
abbrev pub UniqueRoot : Text × RootState → Type 0
UniqueRoot e = Unique (load_tabs e.1.tabs)

abbrev pub UniqueRoots : Option (List (Text × RootState)) → Type 0
UniqueRoots none = Unit
UniqueRoots (some m) = All UniqueRoot m

load_tabs-has :
    (id : Text) (ts : List Tab) → has_tab id (load_tabs (map stored_tab ts)) ≡ has_tab id ts
unfolding load_tabs load_tab
load_tabs-has id [] = refl
load_tabs-has id (t ∷ ts) = ap (◌||◌ (t.id == id)) (load_tabs-has id ts)

load_tabs-Unique : (ts : List Tab) → Unique ts → Unique (load_tabs (map stored_tab ts))
unfolding load_tabs load_tab Unique
load_tabs-Unique [] h = tt
load_tabs-Unique (t ∷ ts) h = (load_tabs-has t.id ts ∙ h.0, load_tabs-Unique ts h.1)

module _ (P : Text × RootState → Type 0) where
  All-set :
      (k : Text) (v : RootState) (m : List (Text × RootState))
      → P (k, v)
      → All P m
      → All P (set k v m)
  unfolding set
  All-set k v [] p h = (p, tt)
  All-set k v ((j, w) ∷ m) p h =
      if-cases (All P) (j == k) ((j, v) ∷ m) ((j, w) ∷ set k v m)
        (λ same. (subst (λ i. P (i, v)) (sym ((==_iff j k).0 same)) p, h.1))
        (λ other. (h.0, All-set k v m p h.1))

  All-insert_touched :
      (e : Text × RootState) (m : List (Text × RootState))
      → P e
      → All P m
      → All P (insert_touched e m)
  unfolding insert_touched
  All-insert_touched e [] p h = (p, tt)
  All-insert_touched e (d ∷ ds) p h =
      if-both (All P) (leb d.1.touched_at e.1.touched_at) (e ∷ d ∷ ds) (d ∷ insert_touched e ds)
        (p, h) (h.0, All-insert_touched e ds p h.1)

  All-sort_touched : (m : List (Text × RootState)) → All P m → All P (sort_touched m)
  unfolding sort_touched
  All-sort_touched [] h = tt
  All-sort_touched (e ∷ es) h = All-insert_touched e (sort_touched es) h.0 (All-sort_touched es h.1)

  All-take : (n : ℕ) (m : List (Text × RootState)) → All P m → All P (take n m)
  All-take zero m h = tt
  All-take (suc n) [] h = tt
  All-take (suc n) (e ∷ es) h = (h.0, All-take n es h.1)

  All-clamp_roots : (m : List (Text × RootState)) → All P m → All P (clamp_roots m)
  unfolding clamp_roots
  All-clamp_roots m h =
      if-both (All P) (ltb 20 (length m)) (take 20 (sort_touched m)) m
        (All-take 20 (sort_touched m) (All-sort_touched m h)) h

  All-get :
      (k : Text) (v : RootState) (m : List (Text × RootState))
      → All P m
      → get k m ≡ some v
      → P (k, v)
  unfolding get
  All-get k v [] h = λ e. cc
  All-get k v ((j, w) ∷ m) h =
      if-cases (λ o. o ≡ some v → P (k, v)) (j == k) (some w) (get k m)
        (λ same e.
          let here : P (j, v) = subst (λ u. P (j, u)) (ground (arith, e)) h.0 in
          subst (λ i. P (i, v)) ((==_iff j k).0 same) here)
        (λ other e. All-get k v m h.1 e)

read_snapshot-UniqueRoots :
    (s : Storage) → UniqueRoots s.snapshot → All UniqueRoot (or_default (read_snapshot s) [])
read_snapshot-UniqueRoots s h =
    if-both (λ o. All UniqueRoot (or_default o [])) s.available s.snapshot none (known s.snapshot h)
      tt
  where
    known :
        (o : Option (List (Text × RootState))) → UniqueRoots o → All UniqueRoot (or_default o [])
    known none h = tt
    known (some m) h = h

pub stored_root-Unique :
    (s : Storage) (root : Text) (r : RootState)
    → UniqueRoots s.snapshot
    → stored_root s root ≡ some r
    → Unique (load_tabs r.tabs)
unfolding stored_root
stored_root-Unique s root r h =
    let all = read_snapshot-UniqueRoots s h in known (read_snapshot s) all
  where
    known :
        (o : Option (List (Text × RootState)))
        → All UniqueRoot (or_default o [])
        → elim o as (λ _. Option RootState) [ none ↦ none | some m ↦ get root m ] ≡ some r
        → Unique (load_tabs r.tabs)
    known none a e = cc
    known (some m) a e = All-get UniqueRoot root r m a e

-- `persist` touches the snapshot only, and keeps its roots unique.
pub persist-Unique :
    (now : ℕ) (s : TabState)
    → Unique s.tabs
    → UniqueRoots s.storage.snapshot
    → UniqueRoots (persist now s).storage.snapshot
      × (((persist now s).tabs ≡ s.tabs) × ((persist now s).active_tab_id ≡ s.active_tab_id))
unfolding persist
persist-Unique now s u h =
    let by_root = or_default (read_snapshot s.storage) [] in
    let root = or_default s.workspace_root [] in
    let snapshot = clamp_roots (set root (root_state now s) by_root) in
    let P : TabState → Type 0 = λ t.
      UniqueRoots t.storage.snapshot × ((t.tabs ≡ s.tabs) × (t.active_tab_id ≡ s.active_tab_id)) in
    if-both P (s.storage.available && truthy root && s.storage.writable)
      (record s { storage = record (s.storage) { snapshot = some snapshot } }) s
      (
        All-clamp_roots UniqueRoot (set root (root_state now s) by_root) (
            All-set UniqueRoot root (root_state now s) by_root (load_tabs-Unique s.tabs u)
              (read_snapshot-UniqueRoots s.storage h)),
        (refl, refl),
      )
      (h, (refl, refl))
