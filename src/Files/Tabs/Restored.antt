-- ===== src/Files/Tabs/Restored.antt =====
-- `persist` and then `load`, of another `FileTabState` on the same storage (public/file-tab-state.js).
use picot.Base.{
  ℕ, ◌<◌, ◌≡◌, refl, sym, ap, subst, ◌∙◌, true, ◌&&◌, ◌||◌, Option, none, some, List, [], ◌∷◌, map,
  arith, if◌then◌else◌, ◌==◌, nat_eq, if-cases, option_eq, Text, codes, text_eq, or_default, truthy,
  or_text,
}
use picot.JsMap.{get, set, IsMap, set-IsMap, get-set_self}
use picot.Workspace.Paths.{normalize_local_path}
use picot.Files.Tabs.Lists.{IsActive}
use picot.Files.Tabs.Invariant.{IsValid}
use picot.Files.Tabs.Clamp.{rivals, clamp_roots-get, rivals-set}
use picot.Files.Tabs.{
  normalize_root, read_snapshot, has_tab, fresh_tab, name_of, load_tab, load_tabs, first_id,
  active_of, stored_root, load, stored_tab, clamp_roots, root_state, persist,
}
use picot.Files.Data.{Tab, RootState, Storage, TabState}

-- A tab as it comes back: what is stored, and defaults where that is empty.
abbrev pub reloaded : Tab → Tab
reloaded t =
    fresh_tab t.id (or_text (some t.kind) (codes "file")) t.file_path
      (name_of (some t.file_name) t.file_path) (or_text (some t.mode) (codes "preview"))

load_tabs-map : (ts : List Tab) → load_tabs (map stored_tab ts) ≡ map reloaded ts
unfolding load_tabs load_tab
load_tabs-map [] = refl
load_tabs-map (t ∷ ts) = ap (◌∷◌ (reloaded t)) (load_tabs-map ts)

has_tab-reloaded : (id : Text) (ts : List Tab) → has_tab id (map reloaded ts) ≡ has_tab id ts
has_tab-reloaded id [] = refl
has_tab-reloaded id (t ∷ ts) = ap (◌||◌ (t.id == id)) (has_tab-reloaded id ts)

active_of-reloaded :
    (o : Option Text) (ts : List Tab) → IsActive o ts → active_of o (map reloaded ts) ≡ o
unfolding IsActive
active_of-reloaded none ts h = ap (λ us. first_id (map reloaded us)) h
active_of-reloaded (some id) ts h =
    ap (λ b. if b then some id else first_id (map reloaded ts)) (has_tab-reloaded id ts ∙ h)

truthy-normalize_root : (root : Text) → truthy (normalize_root (some root)) ≡ true
unfolding normalize_root
truthy-normalize_root root = full (normalize_local_path root)
  where
    full : (path : Text) → truthy (or_text (some path) (codes "/")) ≡ true
    full [] = refl
    full (c ∷ path) = refl

-- Stored where the storage works, the root is found again.
stored_root-persist :
    (now : ℕ) (s : TabState) (key : Text)
    → s.storage.available ≡ true
    → s.storage.writable ≡ true
    → truthy key ≡ true
    → s.workspace_root ≡ some key
    → let by_root = or_default (read_snapshot s.storage) [] in
      IsMap by_root
      → rivals key (root_state now s) by_root < 20
      → stored_root (persist now s).storage key ≡ some (root_state now s)
unfolding persist stored_root
stored_root-persist now s key a w t e u few =
    let by_root = or_default (read_snapshot s.storage) [] in
    let r = root_state now s in
    let found : get key (clamp_roots (set key r by_root)) ≡ some r =
      clamp_roots-get key r (set key r by_root) (set-IsMap key r by_root u)
        (get-set_self key r by_root) (subst (λ n. n < 20) (sym (rivals-set key r by_root)) few) in
    let root = or_default s.workspace_root [] in
    let root_key : root ≡ key = ap (λ o. or_default o []) e in
    let P : TabState → Type 0 = λ x.
      elim (read_snapshot x.storage) as (λ _. Option RootState) [ none ↦ none | some m ↦ get key m ]
      ≡ some r in
    if-cases P (s.storage.available && truthy root && s.storage.writable)
      (record s {
        storage = record (s.storage) { snapshot = some (clamp_roots (set root r by_root)) };
      })
      s
      (λ written.
        ap
          (λ b.
            elim (if b then some (clamp_roots (set root r by_root)) else none)
              as (λ _. Option RootState) [ none ↦ none | some m ↦ get key m ])
          a
        ∙ ap (λ i. get key (clamp_roots (set i r by_root))) root_key
        ∙ found)
      (λ refused. absurd (ground (arith, refused, a, w, ap truthy root_key ∙ t)))

-- For a valid state with a root, on a storage that can be read and written, where fewer than twenty other
-- roots were touched at the time of `persist` or later, and any other state on the storage that `persist`
-- leaves: loading that root there gives the same tabs in their order, with what is stored of each (its
-- kind, name and mode if they are not empty), and the same active tab.
pub load-persist :
    (now : ℕ) (s t : TabState) (root : Text)
    → IsValid s
    → s.storage.available ≡ true
    → s.storage.writable ≡ true
    → s.workspace_root ≡ some (normalize_root (some root))
    → let by_root = or_default (read_snapshot s.storage) [] in
      IsMap by_root
      → rivals (normalize_root (some root)) (root_state now s) by_root < 20
      → t.storage ≡ (persist now s).storage
      → ((load (some root) t).tabs ≡ map reloaded s.tabs)
        × ((load (some root) t).active_tab_id ≡ s.active_tab_id)
unfolding load
load-persist now s t root h a w e u few same =
    let key = normalize_root (some root) in
    let found : stored_root t.storage key ≡ some (root_state now s) =
      ap (λ (x : Storage). stored_root x key) same
      ∙ stored_root-persist now s key a w (truthy-normalize_root root) e u few in
    let empty = record t { workspace_root = some key; tabs = []; active_tab_id = none } in
    let filled : RootState → TabState = λ r. record empty {
      tabs = load_tabs r.tabs;
      active_tab_id = active_of r.active_tab_id (load_tabs r.tabs);
    } in
    subst
      (λ (o : Option RootState).
        let x : TabState = elim o [ none ↦ empty | some r ↦ filled r ] in
        (x.tabs ≡ map reloaded s.tabs) × (x.active_tab_id ≡ s.active_tab_id))
      (sym found)
      (
        load_tabs-map s.tabs,
        ap (active_of s.active_tab_id) (load_tabs-map s.tabs)
            ∙ active_of-reloaded s.active_tab_id s.tabs h.active,
      )
