-- ===== src/Transport/Gateway.antt =====
-- `RuntimeGateway` of public/native/transport/runtime-gateway.js.
-- A promise is a number given at its creation; what the gateway does to the world (the frames it
-- sends, the subscriptions it asks for, the promises it settles, the listeners it calls) is a list
-- of effects. The adapter is the interface that the socket adapter fills.
pub mod Accounts
pub mod Exact
pub mod Replies
pub mod Examples
use picot.Base.{
  ℕ, suc, ◌+◌, Bool, true, false, not, ◌&&◌, Option, none, some, List, [], ◌∷◌, ◌++◌, if◌then◌else◌,
  ◌==◌, nat_eq, option_eq, Text, codes, text_eq, decimal, keep, any, or_default, truthy, truthy?,
}
use picot.JsMap.{get, set, delete, values}
use picot.Transport.Target.{Target, is_complete}

pub record Command : Type 0 where
  pub type : Text
  pub request_id : Option Text
  pub body : Text

-- What the gateway sends, before the request id is added.
pub data OutFrame : Type 0 where
  runtime_request : Target → Command → Option Text → OutFrame
  host_request : Text → OutFrame
  runtime_snapshot_request : Text → OutFrame
  runtime_rebind_session_request : Target → Text → OutFrame
  git_ai_commit_message : Text → OutFrame
  git_command : Text → Command → OutFrame
  runtime_capabilities_request : Text → OutFrame

pub record InFrame : Type 0 where
  pub request_id : Option Text
  pub error : Option Text
  -- `response.data.target`
  pub target : Option Target
  pub body : Text

-- The transport below: `send` tells whether it threw.
pub record RuntimeAdapter : Type 1 where
  pub State : Type 0
  pub send : OutFrame → Text → State → State × Bool
  pub subscribe_target : Target → State → State

pub record Pending : Type 0 where
  pub promise : ℕ
  pub rebinds : Bool
  pub generation : ℕ

pub data Reason : Type 0 where
  invalid : Reason
  send_failed : Reason
  reported : Text → Reason
  disconnected : Reason

-- What a promise of the gateway resolves with: `rebindSession` hands on the target of the frame, or
-- null, and every other operation the frame.
pub data Reply : Type 0 where
  whole : InFrame → Reply
  rebound : Option Target → Reply

pub data Effect : Type 0 where
  resolved : ℕ → Reply → Effect
  rejected : ℕ → Reason → Effect
  delivered : ℕ → InFrame → Effect

abbrev pub mutation_types : List Text
mutation_types =
    codes "prompt"
    ∷ codes "steer"
    ∷ codes "follow_up"
    ∷ codes "compact"
    ∷ codes "bash"
    ∷ codes "fork"
    ∷ codes "clone"
    ∷ codes "navigate_tree"
    ∷ codes "set_model"
    ∷ codes "set_thinking_level"
    ∷ codes "set_auto_compaction"
    ∷ codes "set_auto_retry"
    ∷ codes "set_steering_mode"
    ∷ codes "set_follow_up_mode"
    ∷ []

unfoldable pub is_mutation : Text → Bool
is_mutation type = any (λ t. t == type) mutation_types

abbrev pub member : ℕ → List ℕ → Bool
member x l = any (λ y. y == x) l

module _ (a : RuntimeAdapter) where
  pub record Gateway : Type 0 where
    pub adapter : a.State
    pub generation : ℕ
    pub listeners : List ℕ
    pub next_request_id : ℕ
    pub pending : List (Text × Pending)
    pub promises : ℕ

pub data Call : Type 0 where
  request : Command → Target → Option Text → Call
  send_host_request : Text → Option Text → Call
  snapshot : Text → Call
  rebind_session : Target → Text → Call
  git : Command → Target → Call
  capabilities : Text → Call
  subscribe unsubscribe : ℕ → Call
  receive : InFrame → Call
  connection_changed : Bool → Call

abbrev pub is_git_ai : Command → Bool
is_git_ai c = c.type == codes "git_ai_commit_message"

unfoldable pub request_id_of : Option Text → ℕ → Text
request_id_of override n =
    if truthy? override then or_default override [] else codes "client-" ++ decimal n

unfoldable pub deliver : InFrame → List ℕ → List Effect
deliver f [] = []
deliver f (l ∷ ls) = delivered l f ∷ deliver f ls

unfoldable pub reject_all : List (Text × Pending) → List Effect
reject_all [] = []
reject_all ((id, p) ∷ ps) = rejected p.promise disconnected ∷ reject_all ps

abbrev pub git_frame : Command → Target → OutFrame
git_frame c t =
    if is_git_ai c then git_ai_commit_message t.workspace_id else git_command t.workspace_id c

abbrev pub answer : InFrame → Pending → Effect
answer f q = elim f.error [
  | none ↦ resolved q.promise (if q.rebinds then rebound f.target else whole f)
  | some e ↦ rejected q.promise (reported e)
]

abbrev pub is_rebind : OutFrame → Bool
is_rebind (runtime_rebind_session_request t sid) = true
is_rebind frame = false

module _ {a : RuntimeAdapter} where
  -- A promise that is rejected before anything is sent.
  pub refuse : Gateway a → Gateway a × List Effect
  refuse g = (record g { promises = suc g.promises }, rejected g.promises invalid ∷ [])

  abbrev pub entry_of : OutFrame → Gateway a → Pending
  entry_of frame g = record {
    promise = g.promises;
    rebinds = is_rebind frame;
    generation = g.generation;
  }

  -- `#send`
  unfoldable pub send : OutFrame → Option Text → Gateway a → Gateway a × List Effect
  send frame override g =
      let id = request_id_of override g.next_request_id in
      let entry = entry_of frame g in
      let (below, sent) = a.send frame id g.adapter in
      let after : Gateway a = record g {
        adapter = below;
        next_request_id = if truthy? override then g.next_request_id else suc g.next_request_id;
        promises = suc g.promises;
      } in
      if sent then (record after { pending = set id entry g.pending }, []) else (
        record after { pending = delete id (set id entry g.pending) },
        rejected g.promises send_failed ∷ [],
      )

  abbrev pub subscribed : Target → Gateway a → Gateway a
  subscribed t g = record g { adapter = a.subscribe_target t g.adapter }

  -- `#receive`
  unfoldable pub receive_frame : InFrame → Gateway a → Gateway a × List Effect
  unfolding deliver
  receive_frame f g =
      let others = deliver f g.listeners in
      let id = or_default f.request_id [] in
      if truthy id
      then elim (get id g.pending) [
        | none ↦ (g, others)
        | some p ↦
            if p.generation == g.generation
            then (record g { pending = delete id g.pending }, answer f p ∷ [])
            else (g, others)
      ]
      else (g, others)

  -- `#connectionChanged`
  unfoldable pub change_connection : Bool → Gateway a → Gateway a × List Effect
  change_connection true g = (g, [])
  change_connection false g =
      (record g { generation = suc g.generation; pending = [] }, reject_all g.pending)

  unfoldable pub step : Call → Gateway a → Gateway a × List Effect
  unfolding refuse
  step (request c t key) g =
      if not (is_complete t)
      then refuse g
      else if is_mutation c.type && not (truthy? key)
      then refuse g
      else send (runtime_request t c (if truthy? key then key else none)) none (subscribed t g)
  step (send_host_request payload override) g = send (host_request payload) override g
  step (snapshot sid) g =
      if truthy sid then send (runtime_snapshot_request sid) none g else refuse g
  step (rebind_session t sid) g =
      if is_complete t && truthy sid
      then send (runtime_rebind_session_request t sid) none g
      else refuse g
  step (git c t) g =
      if is_complete t then send (git_frame c t) c.request_id (subscribed t g) else refuse g
  step (capabilities iid) g =
      if truthy iid then send (runtime_capabilities_request iid) none g else refuse g
  step (subscribe l) g = (
    record g { listeners = if member l g.listeners then g.listeners else g.listeners ++ l ∷ [] },
    [],
  )
  step (unsubscribe l) g = (record g { listeners = keep (λ x. not (x == l)) g.listeners }, [])
  step (receive f) g = receive_frame f g
  step (connection_changed b) g = change_connection b g

  unfoldable pub run : List Call → Gateway a → Gateway a × List Effect
  run [] g = (g, [])
  run (c ∷ cs) g = let (g', es) = step c g in let (g'', fs) = run cs g' in (g'', es ++ fs)

unfoldable pub new : (a : RuntimeAdapter) → a.State → Gateway a
new a s = record {
  adapter = s;
  generation = 0;
  listeners = [];
  next_request_id = 1;
  pending = [];
  promises = 0;
}
