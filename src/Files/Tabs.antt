-- ===== src/Files/Tabs.antt =====
-- `FileTabState`: public/file-tab-state.js. The storage holds the parsed snapshot; `touchedAt` is a time
-- that the caller reads from the clock. The listeners are not modelled: they are told and answer nothing.
pub mod Stored
pub mod Lists
pub mod Invariant
pub mod Neighbour
pub mod Clamp
pub mod Restored
pub mod Examples
use picot.Base.{
  ℕ, zero, suc, ◌+◌, ◌-◌, min, Bool, true, false, ◌&&◌, Option, none, some, List, [], ◌∷◌, ◌++◌,
  map, ltb, leb, if◌then◌else◌, ◌==◌, nat_eq, option_eq, Text, codes, text_beq, text_eq, length,
  get_elem?, take, find, any, or_default, truthy, or_text, or_text?,
}
use picot.JsMap.{get, set}
use picot.Workspace.Paths.{normalize_local_path, basename_local_path}
use picot.Files.Data.{Tab, TabPatch, StoredTab, RootState, Storage, Metadata, TabState}

abbrev pub new_state : Storage → TabState
new_state s = record { storage = s; workspace_root = none; tabs = []; active_tab_id = none }

unfoldable pub normalize_root : Option Text → Text
unfolding normalize_local_path
normalize_root none = []
normalize_root (some root) = or_text (some (normalize_local_path root)) (codes "/")

abbrev pub read_snapshot : Storage → Option (List (Text × RootState))
read_snapshot s = if s.available then s.snapshot else none

abbrev pub find_tab : Text → List Tab → Option Tab
find_tab id tabs = find (λ t. t.id == id) tabs

abbrev pub has_tab : Text → List Tab → Bool
has_tab id tabs = any (λ t. t.id == id) tabs

-- A tab without what only this window knows.
abbrev pub fresh_tab : Text → Text → Text → Text → Text → Tab
fresh_tab id kind file_path file_name mode = record {
  id = id;
  kind = kind;
  file_path = file_path;
  file_name = file_name;
  mode = mode;
  content = none;
  original_content = none;
  dirty = false;
  loading = false;
  saving = false;
  conflict = false;
  error = none;
  mtime_ms = none;
  editable = none;
  render_as = none;
  truncated = false;
  is_binary = false;
  mime_type = none;
  size = none;
  save_error = none;
  error_detail = none;
}

abbrev pub name_of : Option Text → Text → Text
name_of name file_path = or_text name (or_text (some (basename_local_path file_path)) file_path)

-- A stored tab with an id and a path, restored.
unfoldable pub load_tab : StoredTab → Option Tab
unfolding basename_local_path
load_tab t = elim t.id [
  | none ↦ none
  | some id ↦ elim t.file_path [
    | none ↦ none
    | some file_path ↦ some (
        fresh_tab id (or_text t.kind (codes "file")) file_path (name_of t.file_name file_path)
          (or_text t.mode (codes "preview")))
  ]
]

unfoldable pub load_tabs : List StoredTab → List Tab
unfolding load_tab
load_tabs [] = []
load_tabs (t ∷ ts) = elim (load_tab t) [ none ↦ load_tabs ts | some u ↦ u ∷ load_tabs ts ]

abbrev pub first_id : List Tab → Option Text
first_id [] = none
first_id (t ∷ ts) = some t.id

abbrev pub active_of : Option Text → List Tab → Option Text
active_of none tabs = first_id tabs
active_of (some id) tabs = if has_tab id tabs then some id else first_id tabs

unfoldable pub stored_root : Storage → Text → Option RootState
unfolding get text_beq
stored_root s root = elim (read_snapshot s) [ none ↦ none | some by_root ↦ get root by_root ]

unfoldable pub load : Option Text → TabState → TabState
unfolding normalize_root load_tabs stored_root text_beq
load root s =
    let normalized = normalize_root root in
    let empty = record s { workspace_root = some normalized; tabs = []; active_tab_id = none } in
    elim (stored_root s.storage normalized) [
      | none ↦ empty
      | some r ↦
          let tabs = load_tabs r.tabs in
          record empty { tabs = tabs; active_tab_id = active_of r.active_tab_id tabs }
    ]

abbrev pub stored_tab : Tab → StoredTab
stored_tab t = record {
  id = some t.id;
  kind = some t.kind;
  file_path = some t.file_path;
  file_name = some t.file_name;
  mode = some t.mode;
}

-- The stable sort by `touchedAt`, the latest first.
unfoldable pub insert_touched : Text × RootState → List (Text × RootState) → List (Text × RootState)
insert_touched e [] = e ∷ []
insert_touched e (d ∷ ds) =
    let rest = insert_touched e ds in
    if leb d.1.touched_at e.1.touched_at then e ∷ d ∷ ds else d ∷ rest

unfoldable pub sort_touched : List (Text × RootState) → List (Text × RootState)
unfolding insert_touched
sort_touched [] = []
sort_touched (e ∷ es) = insert_touched e (sort_touched es)

unfoldable pub clamp_roots : List (Text × RootState) → List (Text × RootState)
unfolding sort_touched
clamp_roots by_root = if ltb 20 (length by_root) then take 20 (sort_touched by_root) else by_root

abbrev pub root_state : ℕ → TabState → RootState
root_state now s = record {
  tabs = map stored_tab s.tabs;
  active_tab_id = s.active_tab_id;
  touched_at = now;
}

unfoldable pub persist : ℕ → TabState → TabState
unfolding clamp_roots set text_beq
persist now s =
    let by_root = or_default (read_snapshot s.storage) [] in
    let root = or_default s.workspace_root [] in
    let snapshot = clamp_roots (set root (root_state now s) by_root) in
    if s.storage.available && truthy root && s.storage.writable
    then record s { storage = record (s.storage) { snapshot = some snapshot } }
    else s

abbrev pub tab_id : Text → Text
tab_id file_path = codes "file:" ++ file_path

unfoldable pub opened_tab : Text → Metadata → Tab
unfolding basename_local_path
opened_tab file_path metadata =
    let plain =
      fresh_tab (tab_id file_path) (codes "file") file_path (name_of metadata.file_name file_path)
        (or_text metadata.mode (codes "preview")) in
    record plain {
      editable = metadata.editable;
      render_as = metadata.render_as;
      truncated = metadata.truncated;
      is_binary = metadata.is_binary;
      mime_type = or_text? metadata.mime_type none;
      size = metadata.size;
    }

-- The state, and the tab that is returned.
unfoldable pub open_file : Text → Metadata → ℕ → TabState → TabState × Tab
unfolding persist normalize_local_path opened_tab text_beq
open_file path metadata now s =
    let file_path = normalize_local_path path in
    let id = tab_id file_path in
    let tab = opened_tab file_path metadata in
    let added = record s { tabs = s.tabs ++ tab ∷ []; active_tab_id = some id } in
    elim (find_tab id s.tabs) [
      | none ↦ (persist now added, tab)
      | some existing ↦ (persist now (record s { active_tab_id = some id }), existing)
    ]

unfoldable pub select_tab : Text → ℕ → TabState → TabState × Bool
unfolding persist text_beq
select_tab id now s =
    if has_tab id s.tabs
    then (persist now (record s { active_tab_id = some id }), true)
    else (s, false)

-- `{ ...tab, ...patch }`
unfoldable pub patched : TabPatch → Tab → Tab
patched p t = record {
  id = or_default p.id t.id;
  kind = or_default p.kind t.kind;
  file_path = or_default p.file_path t.file_path;
  file_name = or_default p.file_name t.file_name;
  mode = or_default p.mode t.mode;
  content = or_default p.content t.content;
  original_content = or_default p.original_content t.original_content;
  dirty = or_default p.dirty t.dirty;
  loading = or_default p.loading t.loading;
  saving = or_default p.saving t.saving;
  conflict = or_default p.conflict t.conflict;
  error = or_default p.error t.error;
  mtime_ms = or_default p.mtime_ms t.mtime_ms;
  editable = or_default p.editable t.editable;
  render_as = or_default p.render_as t.render_as;
  truncated = or_default p.truncated t.truncated;
  is_binary = or_default p.is_binary t.is_binary;
  mime_type = or_default p.mime_type t.mime_type;
  size = or_default p.size t.size;
  save_error = or_default p.save_error t.save_error;
  error_detail = or_default p.error_detail t.error_detail;
}

-- `findIndex` and the write there
unfoldable pub update_first : Text → TabPatch → List Tab → List Tab
unfolding patched text_beq
update_first id p [] = []
update_first id p (t ∷ ts) =
    let rest = update_first id p ts in if t.id == id then patched p t ∷ ts else t ∷ rest

unfoldable pub update_tab : Text → TabPatch → TabState → TabState × Bool
unfolding update_first
update_tab id p s =
    if has_tab id s.tabs then (record s { tabs = update_first id p s.tabs }, true) else (s, false)

abbrev pub get_active_tab : TabState → Option Tab
get_active_tab s = elim s.active_tab_id [
  | none ↦ none
  | some id ↦ if truthy id then find_tab id s.tabs else none
]

unfoldable pub has_tabs_for_root : Option Text → TabState → Bool
unfolding normalize_root stored_root
has_tabs_for_root root s =
    let normalized = normalize_root root in
    let stored : Bool = elim (stored_root s.storage normalized) [
      | none ↦ false
      | some r ↦ ltb 0 (length r.tabs)
    ] in
    truthy normalized && stored

-- `findIndex`
unfoldable pub index_of : Text → List Tab → Option ℕ
unfolding text_beq
index_of id [] = none
index_of id (t ∷ ts) =
    let rest : Option ℕ = elim (index_of id ts) [ none ↦ none | some i ↦ some (suc i) ] in
    if t.id == id then some 0 else rest

-- `splice(i, 1)`
unfoldable pub remove_at : ℕ → List Tab → List Tab
remove_at i [] = []
remove_at zero (t ∷ ts) = ts
remove_at (suc i) (t ∷ ts) = t ∷ remove_at i ts

-- The tab to the right of the closed one, or else the one to its left.
unfoldable pub neighbour : ℕ → List Tab → Option Text
neighbour i [] = none
neighbour i (t ∷ ts) = elim (get_elem? (t ∷ ts) (min i (length (t ∷ ts) - 1))) [
  | none ↦ none
  | some u ↦ some u.id
]

unfoldable pub close_tab : Text → ℕ → TabState → TabState × (Bool × Option Text)
unfolding index_of remove_at neighbour persist text_beq
close_tab id now s = elim (index_of id s.tabs) [
  | none ↦ (s, (false, none))
  | some i ↦
      let tabs = remove_at i s.tabs in
      let next = if s.active_tab_id == some id then neighbour i tabs else s.active_tab_id in
      (persist now (record s { tabs = tabs; active_tab_id = next }), (true, next))
]
