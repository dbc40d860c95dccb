-- ===== src/Session/Pins.antt =====
-- `normalizePinnedState`, `readPinnedItems`, `writePinnedItems` and the pin operations of
-- public/native/session/pinned-items.js. `Payload` is what the JSON of the storage value denotes:
-- what is not an object, an array or a string there is `none` or the empty list. The storage keeps
-- the value that its JSON text denotes; a write of it reads back as it was serialized. The change
-- event of the window and the migration of the old favourites are not modelled.
pub mod Normal
pub mod Laws
pub mod Examples
use picot.Base.{
  ℕ, ◌+◌, Bool, true, false, not, ◌&&◌, ◌||◌, Option, none, some, List, [], ◌∷◌, map, ltb,
  if◌then◌else◌, ◌==◌, nat_eq, option_eq, Text, text_eq, trim, length, keep, any, or_default,
  truthy,
}

abbrev pub max_pinned_items : ℕ
max_pinned_items = 20

-- The string fields of a workspace record as it stands in the payload.
pub record Raw : Type 0 where
  pub id : Option Text
  pub path : Option Text

pub record Payload : Type 0 where
  pub workspaces : List (Option Raw)
  pub sessions : List (Option Text)

pub record Workspace : Type 0 where
  pub id : Text
  pub path : Text

pub record PinnedState : Type 0 where
  pub workspaces : List Workspace
  pub sessions : List Text

-- `available`: `getItem` answers; `writable`: `setItem` does not throw; `item` is `none` when
-- nothing is stored, and `some none` when the stored text is not JSON of an object.
pub record Storage : Type 0 where
  pub available : Bool
  pub writable : Bool
  pub item : Option (Option Payload)

unfoldable pub workspace_of : Text → Option Workspace
workspace_of path = if truthy path then some (record { id = path; path = path }) else none

unfoldable pub normalize_workspace_record : Option Raw → Option Workspace
unfolding workspace_of trim
normalize_workspace_record none = none
normalize_workspace_record (some r) = workspace_of (trim (or_default r.path []))

-- `seen.has(id)`
unfoldable pub member : Text → List Text → Bool
member k [] = false
member k (j ∷ js) = j == k || member k js

-- The loop of `normalizePinnedState` over the workspaces, with its set of seen ids.
unfoldable pub collect_workspaces : List Text → List (Option Raw) → List Workspace
unfolding normalize_workspace_record member
collect_workspaces seen [] = []
collect_workspaces seen (r ∷ rs) = elim (normalize_workspace_record r) [
  | none ↦ collect_workspaces seen rs
  | some w ↦
      if member w.id seen
      then collect_workspaces seen rs
      else w ∷ collect_workspaces (w.id ∷ seen) rs
]

-- The loop over the sessions.
unfoldable pub collect_sessions : List Text → List (Option Text) → List Text
unfolding member
collect_sessions seen [] = []
collect_sessions seen (none ∷ rs) = collect_sessions seen rs
collect_sessions seen (some s ∷ rs) =
    if not (truthy s) || member s seen
    then collect_sessions seen rs
    else s ∷ collect_sessions (s ∷ seen) rs

abbrev pub empty_state : PinnedState
empty_state = record { workspaces = []; sessions = [] }

unfoldable pub normalize_pinned_state : Option Payload → PinnedState
unfolding collect_workspaces collect_sessions
normalize_pinned_state none = empty_state
normalize_pinned_state (some p) = record {
  workspaces = collect_workspaces [] p.workspaces;
  sessions = collect_sessions [] p.sessions;
}

abbrev pub raw : Workspace → Option Raw
raw w = some (record { id = some w.id; path = some w.path })

abbrev pub serialize_state : PinnedState → Payload
serialize_state s = record { workspaces = map raw s.workspaces; sessions = map some s.sessions }

unfoldable pub same_workspaces : List Workspace → List Workspace → Bool
same_workspaces [] [] = true
same_workspaces [] (w ∷ ws) = false
same_workspaces (v ∷ vs) [] = false
same_workspaces (v ∷ vs) (w ∷ ws) = v.id == w.id && v.path == w.path && same_workspaces vs ws

unfoldable pub same_sessions : List Text → List Text → Bool
same_sessions [] [] = true
same_sessions [] (t ∷ ts) = false
same_sessions (s ∷ ss) [] = false
same_sessions (s ∷ ss) (t ∷ ts) = s == t && same_sessions ss ts

unfoldable pub same_pinned_state : PinnedState → PinnedState → Bool
unfolding same_workspaces same_sessions
same_pinned_state a b =
    same_workspaces a.workspaces b.workspaces && same_sessions a.sessions b.sessions

abbrev pub item_count : PinnedState → ℕ
item_count s = length s.workspaces + length s.sessions

unfoldable pub read_pinned_items : Storage → PinnedState
unfolding normalize_pinned_state
read_pinned_items st =
    if st.available then normalize_pinned_state (or_default st.item none) else empty_state

pub data Outcome : Type 0 where
  written : Storage → PinnedState → Outcome
  over_capacity : ℕ → PinnedState → Outcome

unfoldable pub write_pinned_items : Payload → Storage → Outcome
unfolding normalize_pinned_state read_pinned_items same_pinned_state
write_pinned_items next st =
    let normalized = normalize_pinned_state (some next) in
    let current = read_pinned_items st in
    if same_pinned_state current normalized
    then written st normalized
    else if ltb max_pinned_items (item_count normalized)
    then over_capacity (item_count normalized) current
    else if st.writable
    then written (record st { item = some (some (serialize_state normalized)) }) normalized
    else written st normalized

abbrev pub with_workspace : (List Workspace → List Workspace) → Storage → Outcome
with_workspace updater st =
    let current = read_pinned_items st in
    write_pinned_items
      (serialize_state (record current { workspaces = updater current.workspaces })) st

abbrev pub with_sessions : (List Text → List Text) → Storage → Outcome
with_sessions updater st =
    let current = read_pinned_items st in
    write_pinned_items (serialize_state (record current { sessions = updater current.sessions })) st

abbrev pub drop_workspace : Text → List Workspace → List Workspace
drop_workspace id ws = keep (λ w. not (w.id == id)) ws

abbrev pub drop_session : Text → List Text → List Text
drop_session id ss = keep (λ s. not (s == id)) ss

unfoldable pub pin_workspace : Text → Text → Storage → Outcome
unfolding normalize_workspace_record
pin_workspace id path st =
    elim (normalize_workspace_record (some (record { id = some id; path = some path }))) [
      | none ↦ written st (read_pinned_items st)
      | some w ↦ with_workspace (λ ws. w ∷ drop_workspace w.id ws) st
    ]

unfoldable pub unpin_workspace : Text → Storage → Outcome
unpin_workspace id st =
    if truthy id then with_workspace (drop_workspace id) st else written st (read_pinned_items st)

unfoldable pub pin_session : Text → Storage → Outcome
pin_session id st =
    if truthy id
    then with_sessions (λ ss. id ∷ drop_session id ss) st
    else written st (read_pinned_items st)

unfoldable pub unpin_session : Text → Storage → Outcome
unpin_session id st =
    if truthy id then with_sessions (drop_session id) st else written st (read_pinned_items st)

-- The first record with the id dropped: `filter((_, index) => index !== provisionalIndex)`.
unfoldable pub drop_first : Text → List Workspace → List Workspace
drop_first id [] = []
drop_first id (w ∷ ws) = if w.id == id then ws else w ∷ drop_first id ws

-- `next[provisionalIndex] = { id: newId, path: record.path }`
unfoldable pub rename_first : Text → Text → List Workspace → List Workspace
rename_first old new [] = []
rename_first old new (w ∷ ws) =
    if w.id == old then record { id = new; path = w.path } ∷ ws else w ∷ rename_first old new ws

abbrev pub has_id : Text → List Workspace → Bool
has_id id ws = any (λ w. w.id == id) ws

unfoldable pub reconciled : Text → Text → List Workspace → List Workspace
unfolding drop_first rename_first
reconciled old new ws =
    if not (has_id old ws)
    then ws
    else if has_id new (drop_workspace old ws)
    then drop_first old ws
    else rename_first old new ws

unfoldable pub reconcile_workspace_id : Text → Text → Storage → Outcome
unfolding reconciled
reconcile_workspace_id old new st =
    if truthy old && truthy new
    then with_workspace (reconciled old new) st
    else written st (read_pinned_items st)
