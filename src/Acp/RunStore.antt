-- ===== src/Acp/RunStore.antt =====
-- The persisted runs of a session: public/native/acp/subagent-store.js. The browser's storage is a
-- map from keys to what parses there; a stored text that is no JSON array is `malformed`. Each field
-- of a run that is only stored is a text.
pub mod Upsert
pub mod Laws
pub mod Examples
use picot.Base.{
  ℕ, ◌+◌, ◌-◌, Bool, not, ◌&&◌, Option, none, some, List, [], ◌∷◌, ◌++◌, ltb, if◌then◌else◌, ◌==◌,
  nat_eq, option_eq, Text, codes, text_eq, length, drop, keep, or_default, truthy,
}
use picot.JsMap.{get, set, values}

abbrev pub max_runs_per_session : ℕ
max_runs_per_session = 20

pub record RunRecord : Type 0 where
  pub id : Text
  pub agent_id : Text
  pub agent_label : Text
  pub task_text : Text
  pub started_at : Option Text
  pub finished_at : Option Text
  pub status : Text
  pub result_text : Text
  pub result_sent : Bool
  pub blocks : Text

-- A run as the caller hands it over; the blocks are those of its state if it has one.
pub record Run : Type 0 where
  pub id : Option Text
  pub agent_id : Option Text
  pub agent_label : Option Text
  pub task_text : Option Text
  pub started_at : Option Text
  pub finished_at : Option Text
  pub status : Option Text
  pub result_text : Option Text
  pub result_sent : Bool
  pub state_blocks : Option Text
  pub blocks : Option Text

pub data Stored : Type 0 where
  runs : List RunRecord → Stored
  malformed : Stored

-- `available`: `localStorage` can be read; `writable`: `setItem` does not throw.
pub record Storage : Type 0 where
  pub available : Bool
  pub writable : Bool
  pub items : List (Text × Stored)

abbrev pub key_for : Text → Text
key_for session_id = codes "picot:subagent-runs:" ++ session_id

abbrev pub parsed : Option Stored → List RunRecord
parsed none = []
parsed (some malformed) = []
parsed (some (runs rs)) = rs

unfoldable pub read_runs : Text → Storage → List RunRecord
read_runs session_id s =
    if truthy session_id && s.available then parsed (get (key_for session_id) s.items) else []

unfoldable pub persist : Text → List RunRecord → Storage → Storage
persist session_id list s =
    if s.available && s.writable
    then record s { items = set (key_for session_id) (runs list) s.items }
    else s

abbrev pub empty_blocks : Text
empty_blocks = codes "[]"

unfoldable pub record_of : Text → Run → RunRecord
record_of id run = record {
  id = id;
  agent_id = or_default run.agent_id (codes "claude-code");
  agent_label = or_default run.agent_label (codes "Claude Code");
  task_text = or_default run.task_text [];
  started_at = run.started_at;
  finished_at = run.finished_at;
  status = or_default run.status (codes "running");
  result_text = or_default run.result_text [];
  result_sent = run.result_sent;
  blocks = or_default run.state_blocks (or_default run.blocks empty_blocks);
}

-- `new Map(list.map((entry) => [entry.id, entry]))`
unfoldable pub by_id : List RunRecord → List (Text × RunRecord) → List (Text × RunRecord)
by_id [] m = m
by_id (r ∷ rs) m = by_id rs (set r.id r m)

-- `if (list.length > MAX) list = list.slice(list.length - MAX)`
unfoldable pub cap : List RunRecord → List RunRecord
cap l = if ltb max_runs_per_session (length l) then drop (length l - max_runs_per_session) l else l

unfoldable pub write_run : Text → Run → Storage → Storage
write_run session_id run s =
    let id = or_default run.id [] in
    let list = values (set id (record_of id run) (by_id (read_runs session_id s) [])) in
    if truthy session_id && truthy id then persist session_id (cap list) s else s

unfoldable pub delete_run : Text → Text → Storage → Storage
delete_run session_id run_id s =
    if truthy session_id && truthy run_id
    then persist session_id (keep (λ r. not (r.id == run_id)) (read_runs session_id s)) s
    else s
