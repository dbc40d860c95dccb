-- ===== src/Files/Tabs/Examples.antt =====
-- A row of three tabs (public/file-tab-state.js).
use picot.Base.{
  arith, map, String, ◌≡◌, refl, true, false, none, some, List, [], ◌∷◌, if◌then◌else◌, ◌==◌,
  nat_eq, option_eq, codes, text_beq, text_eq,
}
use picot.Files.Tabs.Stored.{Unique}
use picot.Files.Tabs.Lists.{IsActive}
use picot.Files.Tabs.Invariant.{
  IsValid, Op, load_root, open_path, close, apply_ops, apply_ops-IsValid,
}
use picot.Files.Tabs.Restored.{reloaded, load-persist}
use picot.Files.Tabs.Neighbour.{beside, close_tab_lem}
use picot.Files.Tabs.{
  load, persist, normalize_root, new_state, fresh_tab, index_of, remove_at, neighbour, close_tab,
}
use picot.Files.Data.{Tab, Storage, Metadata, TabState}

abbrev tab : String → Tab
tab name = fresh_tab (codes name) (codes "file") (codes name) (codes name) (codes "preview")

abbrev empty_storage : Storage
empty_storage = record { available = true; writable = true; snapshot = none }

abbrev three_tabs : TabState
three_tabs = record {
  storage = empty_storage;
  workspace_root = some (codes "/w");
  tabs = tab "a" ∷ tab "b" ∷ tab "c" ∷ [];
  active_tab_id = some (codes "c");
}

three_tabs-IsValid : IsValid three_tabs
unfolding Unique IsActive text_beq
three_tabs-IsValid = record { unique = (refl, (refl, (refl, tt))); active = refl; roots = tt }

-- The last tab is closed, so the one to its left is active.
last_closed : (close_tab (codes "c") 7 three_tabs).1 ≡ (true, some (codes "b"))
unfolding close_tab index_of remove_at neighbour text_beq
last_closed = refl

close_tab_lem_example :
    let after = close_tab (codes "c") 7 three_tabs in
    let active =
      if three_tabs.active_tab_id == some (codes "c")
      then beside (tab "a" ∷ tab "b" ∷ []) []
      else three_tabs.active_tab_id in
    (after.0.tabs ≡ tab "a" ∷ tab "b" ∷ [])
    × ((after.0.active_tab_id ≡ active) × (after.1 ≡ (true, active)))
close_tab_lem_example =
    close_tab_lem three_tabs (tab "a" ∷ tab "b" ∷ []) [] (tab "c") 7 three_tabs-IsValid refl

abbrev plain : Metadata
plain = record {
  file_name = none;
  mode = none;
  editable = none;
  render_as = none;
  truncated = false;
  is_binary = false;
  mime_type = none;
  size = none;
}

abbrev session : List Op
session =
    load_root (some (codes "/w"))
    ∷ open_path (codes "/w/a.txt") plain 1
    ∷ open_path (codes "/w/b.txt") plain 2
    ∷ close (codes "file:/w/b.txt") 3
    ∷ load_root (some (codes "/w"))
    ∷ []

new_state-IsValid : IsValid (new_state empty_storage)
unfolding Unique IsActive
new_state-IsValid = record { unique = tt; active = refl; roots = tt }

apply_ops-IsValid_example : IsValid (apply_ops (new_state empty_storage) session)
apply_ops-IsValid_example =
    apply_ops-IsValid (new_state empty_storage) session (tt, (tt, (tt, (tt, (tt, tt)))))
      new_state-IsValid

abbrev rooted : TabState
rooted = record three_tabs { workspace_root = some (normalize_root (some (codes "/w"))) }

abbrev second_window : TabState
second_window = new_state (persist 7 rooted).storage

rooted-IsValid : IsValid rooted
rooted-IsValid = record {
  unique = three_tabs-IsValid.unique;
  active = three_tabs-IsValid.active;
  roots = three_tabs-IsValid.roots;
}

load-persist_example :
    ((load (some (codes "/w")) second_window).tabs ≡ map reloaded rooted.tabs)
    × ((load (some (codes "/w")) second_window).active_tab_id ≡ rooted.active_tab_id)
load-persist_example =
    load-persist 7 rooted second_window (codes "/w") rooted-IsValid refl refl refl tt (omega arith)
      refl
