-- ===== src/Session/Store.antt =====
-- The sequenced session state: public/native/session/session-store.js, and the routing of frames
-- in front of it, public/native/transport/runtime-frame-routing.js.
-- Values that the reducer only stores (messages, models, requests) are texts.
pub mod Sequence
pub mod Examples
use picot.Base.{
  ℕ, suc, ◌+◌, Bool, true, false, not, ◌&&◌, ◌||◌, Option, none, some, List, [], ◌∷◌, ◌++◌, leb,
  nat_beq, if◌then◌else◌, ◌==◌, nat_eq, option_eq, Text, text_eq, or_default, truthy,
}
use picot.Transport.Target.{Target, same_target}

pub data Lifecycle : Type 0 where
  starting working idle : Lifecycle

pub record Queue : Type 0 where
  pub steering : List Text
  pub follow_up : List Text

pub data Progress : Type 0 where
  running waiting : Text → Progress
  completed : Option Text → Progress

pub record SessionState : Type 0 where
  pub target : Target
  pub sequence : ℕ
  pub snapshot_required : Bool
  pub lifecycle : Lifecycle
  pub active_leaf_id : Option Text
  pub messages : List Text
  pub streaming : Option Text
  pub tools : List Text
  pub queue : Queue
  pub retry : Option Progress
  pub compaction : Option Progress
  pub dialogs : List Text
  pub model : Option Text
  pub thinking_level : Option Text
  pub context_usage : Option Text
  pub cost : ℕ

unfoldable pub create_session_store : Target → SessionState
create_session_store target = record {
  target = target;
  sequence = 0;
  snapshot_required = false;
  lifecycle = starting;
  active_leaf_id = none;
  messages = [];
  streaming = none;
  tools = [];
  queue = record { steering = []; follow_up = [] };
  retry = none;
  compaction = none;
  dialogs = [];
  model = none;
  thinking_level = none;
  context_usage = none;
  cost = 0;
}

pub data RuntimeEvent : Type 0 where
  agent_start agent_settled agent_end compaction_start unknown : RuntimeEvent
  queue_update : Option (List Text) → Option (List Text) → RuntimeEvent
  compaction_end : Option Text → RuntimeEvent
  auto_retry_start auto_retry_end extension_ui_request : Text → RuntimeEvent

unfoldable pub apply_runtime_event : RuntimeEvent → SessionState → SessionState
apply_runtime_event agent_start s = record s { lifecycle = working }
apply_runtime_event agent_settled s = record s { lifecycle = idle }
apply_runtime_event agent_end s = record s { lifecycle = idle }
apply_runtime_event (queue_update steering follow_up) s = record s {
  queue = record { steering = or_default steering []; follow_up = or_default follow_up [] };
}
apply_runtime_event compaction_start s = record s { compaction = some (running []) }
apply_runtime_event (compaction_end result) s = record s { compaction = some (completed result) }
apply_runtime_event (auto_retry_start event) s = record s { retry = some (waiting event) }
apply_runtime_event (auto_retry_end event) s = record s { retry = some (completed (some event)) }
apply_runtime_event (extension_ui_request event) s = record s { dialogs = s.dialogs ++ event ∷ [] }
apply_runtime_event unknown s = s

-- The state that a snapshot carries: a field that it lacks keeps its value.
pub record Snapshot : Type 0 where
  pub lifecycle : Option Lifecycle
  pub active_leaf_id : Option (Option Text)
  pub messages : Option (List Text)
  pub streaming : Option (Option Text)
  pub tools : Option (List Text)
  pub queue : Option Queue
  pub retry : Option (Option Progress)
  pub compaction : Option (Option Progress)
  pub dialogs : Option (List Text)
  pub model : Option (Option Text)
  pub thinking_level : Option (Option Text)
  pub context_usage : Option (Option Text)
  pub cost : Option ℕ

pub data Action : Type 0 where
  runtime_snapshot : ℕ → Snapshot → Action
  runtime_event : ℕ → RuntimeEvent → Action
  other : Action

unfoldable pub restore : ℕ → Snapshot → SessionState → SessionState
restore n p s = record {
  target = s.target;
  sequence = n;
  snapshot_required = false;
  lifecycle = or_default p.lifecycle s.lifecycle;
  active_leaf_id = or_default p.active_leaf_id s.active_leaf_id;
  messages = or_default p.messages s.messages;
  streaming = or_default p.streaming s.streaming;
  tools = or_default p.tools s.tools;
  queue = or_default p.queue s.queue;
  retry = or_default p.retry s.retry;
  compaction = or_default p.compaction s.compaction;
  dialogs = or_default p.dialogs s.dialogs;
  model = or_default p.model s.model;
  thinking_level = or_default p.thinking_level s.thinking_level;
  context_usage = or_default p.context_usage s.context_usage;
  cost = or_default p.cost s.cost;
}

-- The part of `reduceSessionState` behind the check of the target.
unfoldable pub reduce_own : Action → SessionState → SessionState
reduce_own (runtime_snapshot n p) s = restore n p s
reduce_own (runtime_event n e) s =
    if leb n s.sequence
    then s
    else if not (nat_beq n (suc s.sequence))
    then (if s.snapshot_required then s else record s { snapshot_required = true })
    else record (apply_runtime_event e s) { sequence = n; snapshot_required = false }
reduce_own other s = s

abbrev pub is_for : Option Target → SessionState → Bool
is_for none s = false
is_for (some t) s = same_target s.target t

unfoldable pub reduce_session_state : Option Target × Action → SessionState → SessionState
unfolding reduce_own
reduce_session_state (target, a) s = if not (is_for target s) then s else reduce_own a s

unfoldable pub reduce_all : List (Option Target × Action) → SessionState → SessionState
reduce_all [] s = s
reduce_all (a ∷ as') s = reduce_all as' (reduce_session_state a s)

pub data Route : Type 0 where
  background foreground consumed_background consumed_foreground : Route

-- `routeRuntimeFrame`: `consumed` is what `consumeConfigResponse(frame)` returned.
unfoldable pub route_runtime_frame :
    {S F : Type 0} → (F → Target) → Bool → (S → F → S) → F → Target → S → Route × S
route_runtime_frame target_of consumed reduce_foreground frame target store =
    let from = target_of frame in
    if not (from.instance_id == target.instance_id)
      || (truthy from.session_id && not (from.session_id == target.session_id))
    then ((if consumed then consumed_background else background), store)
    else ((if consumed then consumed_foreground else foreground), reduce_foreground store frame)
