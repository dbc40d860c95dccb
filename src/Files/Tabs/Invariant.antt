-- ===== src/Files/Tabs/Invariant.antt =====
-- Every operation of `FileTabState` (public/file-tab-state.js) keeps the tabs in order.
use picot.Base.{
  ℕ, ◌≡◌, refl, sym, ap, subst, ◌∙◌, Bool, true, false, Option, none, some, List, [], ◌∷◌, ◌++◌,
  arith, if◌then◌else◌, ◌==◌, nat_eq, ==_refl, ==_iff, if-both, if-cases, option_elim, option_eq,
  Text, text_eq, All, is_some,
}
use picot.Workspace.Paths.{normalize_local_path}
use picot.Files.Tabs.Stored.{Unique, UniqueRoots, stored_root-Unique, persist-Unique}
use picot.Files.Tabs.Lists.{
  IsActive, active_of-IsActive, has_tab-append, has_tab-find_tab, Unique-snoc, update_first-has,
  update_first-Unique, remove_at-Unique, remove_at-has, neighbour-IsActive,
}
use picot.Files.Tabs.{
  find_tab, normalize_root, has_tab, load_tabs, active_of, stored_root, load, persist, tab_id,
  opened_tab, open_file, select_tab, update_first, update_tab, index_of, remove_at, neighbour,
  close_tab,
}
use picot.Files.Data.{Tab, TabPatch, Metadata, TabState}

pub record IsValid (s : TabState) : Type 0 where
  pub unique : Unique s.tabs
  pub active : IsActive s.active_tab_id s.tabs
  pub roots : UniqueRoots s.storage.snapshot

pub data Op : Type 0 where
  load_root : Option Text → Op
  open_path : Text → Metadata → ℕ → Op
  select : Text → ℕ → Op
  update : Text → TabPatch → Op
  close : Text → ℕ → Op

unfoldable pub apply_op : TabState → Op → TabState
unfolding load open_file select_tab update_tab close_tab
apply_op s (load_root root) = load root s
apply_op s (open_path path metadata now) = (open_file path metadata now s).0
apply_op s (select id now) = (select_tab id now s).0
apply_op s (update id p) = (update_tab id p s).0
apply_op s (close id now) = (close_tab id now s).0

unfoldable pub apply_ops : TabState → List Op → TabState
unfolding apply_op
apply_ops s [] = s
apply_ops s (o ∷ os) = apply_ops (apply_op s o) os

-- A patch does not set the id.
abbrev pub KeepsId : Op → Type 0
KeepsId (load_root root) = Unit
KeepsId (open_path path metadata now) = Unit
KeepsId (select id now) = Unit
KeepsId (update id p) = p.id ≡ none
KeepsId (close id now) = Unit

persist-IsValid : (now : ℕ) (s : TabState) → IsValid s → IsValid (persist now s)
persist-IsValid now s h =
    let (roots, (tabs, active)) = persist-Unique now s h.unique h.roots in
    record {
      unique = subst Unique (sym tabs) h.unique;
      active =
          subst (λ ts. IsActive (persist now s).active_tab_id ts) (sym tabs)
            (subst (λ o. IsActive o s.tabs) (sym active) h.active);
      roots = roots;
    }

load-IsValid : (root : Option Text) (s : TabState) → IsValid s → IsValid (load root s)
unfolding load Unique IsActive
load-IsValid root s h =
    let normalized = normalize_root root in
    let empty = record s { workspace_root = some normalized; tabs = []; active_tab_id = none } in
    option_elim {B = TabState} IsValid (stored_root s.storage normalized) empty
      (λ r. record empty {
        tabs = load_tabs r.tabs;
        active_tab_id = active_of r.active_tab_id (load_tabs r.tabs);
      })
      (λ missing. record { unique = tt; active = refl; roots = h.roots })
      (λ r found. record {
        unique = stored_root-Unique s.storage normalized r h.roots found;
        active = active_of-IsActive r.active_tab_id (load_tabs r.tabs);
        roots = h.roots;
      })

open_file-IsValid :
    (path : Text) (metadata : Metadata) (now : ℕ) (s : TabState)
    → IsValid s
    → IsValid (open_file path metadata now s).0
unfolding open_file opened_tab IsActive
open_file-IsValid path metadata now s h =
    let file_path = normalize_local_path path in
    let id = tab_id file_path in
    let tab = opened_tab file_path metadata in
    let added = record s { tabs = s.tabs ++ tab ∷ []; active_tab_id = some id } in
    let chosen = record s { active_tab_id = some id } in
    option_elim {B = TabState × Tab} (λ (r : TabState × Tab). IsValid r.0) (find_tab id s.tabs)
      (persist now added, tab) (λ existing. (persist now chosen, existing))
      (λ e.
        let absent : has_tab id s.tabs ≡ false = has_tab-find_tab id s.tabs ∙ ap is_some e in
        persist-IsValid now added (record {
          unique = Unique-snoc s.tabs tab h.unique absent;
          active = has_tab-append id s.tabs (tab ∷ []) ∙ ground (arith, ==_refl id);
          roots = h.roots;
        }))
      (λ existing e. persist-IsValid now chosen (record {
        unique = h.unique;
        active = has_tab-find_tab id s.tabs ∙ ap is_some e;
        roots = h.roots;
      }))

select_tab-IsValid :
    (id : Text) (now : ℕ) (s : TabState) → IsValid s → IsValid (select_tab id now s).0
unfolding select_tab IsActive
select_tab-IsValid id now s h =
    let chosen = record s { active_tab_id = some id } in
    if-cases (λ (r : TabState × Bool). IsValid r.0) (has_tab id s.tabs) (persist now chosen, true)
      (s, false)
      (λ there.
        persist-IsValid now chosen (record { unique = h.unique; active = there; roots = h.roots }))
      (λ absent. h)

IsActive-same :
    (o : Option Text) (ts us : List Tab)
    → ((x : Text) → has_tab x us ≡ has_tab x ts)
    → (ts ≡ [] → us ≡ [])
    → IsActive o ts
    → IsActive o us
unfolding IsActive
IsActive-same none ts us k e h = e h
IsActive-same (some id) ts us k e h = k id ∙ h

update_tab-IsValid :
    (id : Text) (p : TabPatch) (s : TabState)
    → p.id ≡ none
    → IsValid s
    → IsValid (update_tab id p s).0
unfolding update_tab update_first
update_tab-IsValid id p s n h =
    if-both (λ (r : TabState × Bool). IsValid r.0) (has_tab id s.tabs)
      (record s { tabs = update_first id p s.tabs }, true) (s, false)
      (record {
        unique = update_first-Unique id p s.tabs n h.unique;
        active =
            IsActive-same s.active_tab_id s.tabs (update_first id p s.tabs)
              (λ x. update_first-has id x p s.tabs n) (λ e. ap (update_first id p) e) h.active;
        roots = h.roots;
      })
      h

close-IsActive :
    (id : Text) (i : ℕ) (o : Option Text) (ts : List Tab)
    → index_of id ts ≡ some i
    → IsActive o ts
    → IsActive (if o == some id then neighbour i (remove_at i ts) else o) (remove_at i ts)
unfolding IsActive remove_at
close-IsActive id i none ts e h = ap (remove_at i) h
close-IsActive id i (some a) ts e h =
    if-cases (λ q. IsActive q (remove_at i ts)) (a == id) (neighbour i (remove_at i ts)) (some a)
      (λ same. neighbour-IsActive i (remove_at i ts))
      (λ differs. remove_at-has id a i ts e (λ k. ground (arith, differs, (==_iff a id).1 k)) h)

close_tab-IsValid :
    (id : Text) (now : ℕ) (s : TabState) → IsValid s → IsValid (close_tab id now s).0
unfolding close_tab
close_tab-IsValid id now s h =
    let closed : ℕ → TabState = λ i. record s {
      tabs = remove_at i s.tabs;
      active_tab_id =
          if s.active_tab_id == some id then neighbour i (remove_at i s.tabs) else s.active_tab_id;
    } in
    option_elim {B = TabState × (Bool × Option Text)}
      (λ (r : TabState × (Bool × Option Text)). IsValid r.0) (index_of id s.tabs) (s, (false, none))
      (λ i. (persist now (closed i), (true, (closed i).active_tab_id))) (λ missing. h)
      (λ i found. persist-IsValid now (closed i) (record {
        unique = remove_at-Unique i s.tabs h.unique;
        active = close-IsActive id i s.active_tab_id s.tabs found h.active;
        roots = h.roots;
      }))

apply_op-IsValid : (s : TabState) (o : Op) → KeepsId o → IsValid s → IsValid (apply_op s o)
unfolding apply_op
apply_op-IsValid s (load_root root) k h = load-IsValid root s h
apply_op-IsValid s (open_path path metadata now) k h = open_file-IsValid path metadata now s h
apply_op-IsValid s (select id now) k h = select_tab-IsValid id now s h
apply_op-IsValid s (update id p) k h = update_tab-IsValid id p s k h
apply_op-IsValid s (close id now) k h = close_tab-IsValid id now s h

-- Over any loads, openings, selections, updates and closings, where no update sets an id: from a state in
-- which no two tabs share an id, the active tab is one of the tabs or there is no tab at all, and each
-- root's stored tabs share no id, every such sequence leads to a state of which all this is true again.
pub apply_ops-IsValid :
    (s : TabState) (os : List Op) → All KeepsId os → IsValid s → IsValid (apply_ops s os)
unfolding apply_ops
apply_ops-IsValid s [] k h = h
apply_ops-IsValid s (o ∷ os) k h =
    apply_ops-IsValid (apply_op s o) os k.1 (apply_op-IsValid s o k.0 h)
