-- ===== src/Inbox/Task.antt =====
-- The life of an inbox task: public/super-agent/task-state.js. A field that may be missing or null is
-- an Option; `channel` keeps the two apart, since a null replaces the default. The clock is an
-- argument: `at` is the timestamp of the call, `fresh` the id that a task without one gets.
pub mod History
pub mod Examples
use picot.Base.{
  ℕ, zero, suc, ◌+◌, not, ◌||◌, Option, none, some, List, [], ◌∷◌, ◌++◌, if◌then◌else◌, ◌==◌,
  nat_eq, option_eq, Text, codes, text_eq, trim, decimal, or_default, or_option, truthy?, or_text,
  or_text?,
}

pub record Source : Type 0 where
  pub channel : Option (Option Text)
  pub conversation_id : Option Text
  pub user_id : Option Text
  pub message_id : Option Text

pub record Result : Type 0 where
  pub status : Option Text
  pub summary : Option Text
  pub completed_at : Option Text
  pub fail_reason : Option Text

pub record Dispatch : Type 0 where
  pub target_project : Option Text
  pub super_agent_port : Option ℕ
  pub child_port : Option ℕ
  pub child_workspace_id : Option Text
  pub child_instance_id : Option Text
  pub child_session_id : Option Text
  pub started_at : Option Text
  pub finished_at : Option Text

pub record Event : Type 0 where
  pub at : Text
  pub type : Text
  pub status : Text
  pub message : Text

pub record Task : Type 0 where
  pub id : Option Text
  pub status : Option Text
  pub title : Option Text
  pub description : Option Text
  pub target_project : Option Text
  pub fail_reason : Option Text
  pub source : Option Source
  pub result : Option Result
  pub dispatch : Option Dispatch
  pub events : Option (List Event)

abbrev pub default_source : Source
default_source = record {
  channel = some (some (codes "local"));
  conversation_id = none;
  user_id = none;
  message_id = none;
}

abbrev pub default_result : Result
default_result = record { status = none; summary = none; completed_at = none; fail_reason = none }

abbrev pub default_dispatch : Dispatch
default_dispatch = record {
  target_project = none;
  super_agent_port = none;
  child_port = none;
  child_workspace_id = none;
  child_instance_id = none;
  child_session_id = none;
  started_at = none;
  finished_at = none;
}

-- `{ ...DEFAULT_SOURCE, ...source }`
abbrev pub with_channel : Source → Source
with_channel s = record s { channel = or_option s.channel (some (some (codes "local"))) }

abbrev pub events_of : Task → List Event
events_of t = or_default t.events []

abbrev pub source_of : Task → Source
source_of t = with_channel (or_default t.source default_source)

abbrev pub result_of : Task → Result
result_of t =
    let r = or_default t.result default_result in
    record r { fail_reason = or_option r.fail_reason t.fail_reason }

abbrev pub dispatch_of : Task → Dispatch
dispatch_of t =
    let d = or_default t.dispatch default_dispatch in
    record d { target_project = or_option d.target_project t.target_project }

unfoldable pub normalize_super_agent_task : Text → Task → Task
normalize_super_agent_task fresh t = record t {
  id = some (or_text t.id fresh);
  status = some (or_text t.status (codes "pending"));
  source = some (source_of t);
  result = some (result_of t);
  dispatch = some (dispatch_of t);
  target_project = or_option t.target_project (dispatch_of t).target_project;
  events = some (events_of t);
}

abbrev pub event : Text → Text → Text → Text → Event
event at type status message = record { at = at; type = type; status = status; message = message }

abbrev pub running : Text
running = codes "running"

abbrev pub needs_input : Text
needs_input = codes "needs_input"

abbrev pub dispatched_message : Option ℕ → Text
dispatched_message none = codes "Marked ready for project-agent dispatch."
dispatched_message (some zero) = codes "Marked ready for project-agent dispatch."
dispatched_message (some (suc n)) =
    codes "Dispatched to project agent on port " ++ decimal (suc n) ++ codes "."

unfoldable pub mark_task_for_dispatch : Text → Text → Option ℕ → Option ℕ → Task → Task
unfolding normalize_super_agent_task
mark_task_for_dispatch fresh at super_port child_port t =
    let n = normalize_super_agent_task fresh t in
    let d = dispatch_of n in
    record n {
      status = some running;
      result = some default_result;
      dispatch = some (record d {
        target_project = or_text? n.target_project d.target_project;
        super_agent_port = super_port;
        child_port = child_port;
        started_at = some (or_text d.started_at at);
        finished_at = none;
      });
      events = some (
          events_of n
          ++ event at (codes "dispatched") running (dispatched_message child_port) ∷ []);
    }

unfoldable pub mark_task_dispatch_target :
    Text → Text → Option Text → Option Text → Option Text → Task → Task
unfolding normalize_super_agent_task
mark_task_dispatch_target fresh at workspace instance_id session t =
    let n = normalize_super_agent_task fresh t in
    let d = dispatch_of n in
    record n {
      status = if n.status == some (codes "pending") then some running else n.status;
      dispatch = some (record d {
        child_workspace_id = workspace;
        child_instance_id = instance_id;
        child_session_id = session;
        started_at = some (or_text d.started_at at);
      });
      events = some (
          events_of n
          ++ event at (codes "dispatched") running (
              codes "Dispatched to project agent (session "
              ++ or_text session (codes "pending")
              ++ codes ").")
            ∷ []);
    }

unfoldable pub mark_task_child_session_bound : Text → Text → Option Text → Task → Task
unfolding normalize_super_agent_task
mark_task_child_session_bound fresh at session t =
    let n = normalize_super_agent_task fresh t in
    let d = dispatch_of n in
    let bound = record n {
      dispatch = some (record d { child_session_id = session });
      events = some (
          events_of n
          ++ event at (codes "session_bound") (or_default n.status [])
              (codes "Child session bound: " ++ or_default session [] ++ codes ".")
            ∷ []);
    } in
    if not (truthy? session) || d.child_session_id == session then n else bound

unfoldable pub mark_task_needs_input : Text → Text → Option Text → Task → Task
unfolding normalize_super_agent_task
mark_task_needs_input fresh at question t =
    let n = normalize_super_agent_task fresh t in
    let message =
      or_text (some (trim (or_default question []))) (codes "More information is needed.") in
    record n {
      status = some needs_input;
      result =
          some (record (result_of n) { status = some needs_input; fail_reason = some message });
      fail_reason = some message;
      events = some (events_of n ++ event at needs_input needs_input message ∷ []);
    }

unfoldable pub event_type_for_status : Text → Text
event_type_for_status s =
    if s == codes "done"
    then codes "completed"
    else if s == codes "failed"
    then codes "failed"
    else if s == needs_input
    then needs_input
    else if s == codes "blocked"
    then codes "blocked"
    else codes "status_changed"

-- `status` is "done" where the caller gives none.
unfoldable pub mark_task_finished :
    Text → Text → Option Text → Option Text → Option Text → Task → Task
unfolding normalize_super_agent_task
mark_task_finished fresh at status summary reason t =
    let n = normalize_super_agent_task fresh t in
    let next = or_text status (codes "done") in
    let why = or_option reason (result_of n).fail_reason in
    record n {
      status = some next;
      fail_reason = why;
      result = some (record {
        status = some next;
        summary = summary;
        completed_at = some at;
        fail_reason = why;
      });
      dispatch = some (record (dispatch_of n) { finished_at = some at });
      events = some (
          events_of n
          ++ event at (event_type_for_status next) next
              (or_text (or_text? summary why) (codes "Task marked " ++ next ++ codes "."))
            ∷ []);
    }

-- The transitions, as the callers choose them.
pub data Step : Type 0 where
  for_dispatch : Option ℕ → Option ℕ → Step
  dispatch_target : Option Text → Option Text → Option Text → Step
  child_session_bound : Option Text → Step
  asks : Option Text → Step
  finished : Option Text → Option Text → Option Text → Step

unfoldable pub apply : Text → Text × Step → Task → Task
apply fresh (at, for_dispatch super_port child_port) t =
    mark_task_for_dispatch fresh at super_port child_port t
apply fresh (at, dispatch_target workspace instance_id session) t =
    mark_task_dispatch_target fresh at workspace instance_id session t
apply fresh (at, child_session_bound session) t = mark_task_child_session_bound fresh at session t
apply fresh (at, asks question) t = mark_task_needs_input fresh at question t
apply fresh (at, finished status summary reason) t =
    mark_task_finished fresh at status summary reason t

unfoldable pub apply_all : Text → List (Text × Step) → Task → Task
apply_all fresh [] t = t
apply_all fresh (s ∷ ss) t = apply_all fresh ss (apply fresh s t)
