-- ===== src/Extensions/UiHost.antt =====
-- `ExtensionUiHost` of public/native/extensions/extension-ui-host.js: prompts of extensions are
-- queued per session, shown when their session is in the foreground, and answered to the runtime.
-- An activation of `#showAndRespond` that waits for its dialog is a `Show`; `rest` is what its loop
-- in `flushForegroundQueue` still holds. The dialog settles by the event `settles`, at any time; a
-- dialog that throws settles as cancelled. `sent` lists what is requested of the runtime. A loop that
-- has answered and awaits the runtime is a `Waiting`, with what it still holds; the runtime's reply
-- is the event `replies`, at any time, and one that rejects the answer ends the loop.
pub mod Counts
pub mod Ledger
pub mod Examples
use picot.Base.{
  ℕ, suc, ◌+◌, Bool, true, not, ◌&&◌, ◌||◌, Option, none, some, List, [], ◌∷◌, ◌++◌, ltb, nat_beq,
  if◌then◌else◌, ◌==◌, nat_eq, option_eq, Text, codes, text_eq, length, any, or_default, is_some,
  truthy,
}
use picot.JsMap.{get, set, delete}
use picot.Transport.Target.{Target}

pub record Request : Type 0 where
  pub is_ui_request : Bool
  pub id : Text
  pub method : Text

pub record Pending : Type 0 where
  pub target : Target
  pub request : Request

pub data Disposition : Type 0 where
  respond requeue_after requeued_now : Disposition

pub record Show : Type 0 where
  pub id : ℕ
  pub pending : Pending
  pub disposition : Disposition
  pub rest : List Pending

-- `cancelled` or the value that the dialog returned.
pub data Answer : Type 0 where
  cancelled unsupported : Answer
  value : Text → Answer

pub record Response : Type 0 where
  pub to : Pending
  pub answer : Answer

-- What a loop does with the next prompt that it holds: `flushForegroundQueue` shows it,
-- `cancelSession` answers it.
pub data Loop : Type 0 where
  flushing cancelling : Loop

pub record Waiting : Type 0 where
  pub id : ℕ
  pub loop : Loop
  pub rest : List Pending

pub record Host : Type 0 where
  pub foreground : Option Text
  pub queues : List (Text × List Pending)
  pub in_flight : List (Text × ℕ)
  pub shows : List Show
  pub unanswered : List Waiting
  pub next : ℕ
  pub sent : List Response
  pub hooked : List Request

abbrev pub queue_of : Text → Host → List Pending
queue_of sid h = or_default (get sid h.queues) []

abbrev pub pending_count : Text → Host → ℕ
pending_count sid h = length (queue_of sid h)

abbrev pub has_pending : Text → Host → Bool
has_pending sid h = ltb 0 (pending_count sid h) || is_some (get sid h.in_flight)

abbrev pub blocking_methods : List Text
blocking_methods = codes "select" ∷ codes "confirm" ∷ codes "input" ∷ codes "editor" ∷ []

unfoldable pub is_blocking : Text → Bool
is_blocking m = any (λ b. b == m) blocking_methods

abbrev pub hook_methods : List Text
hook_methods =
    codes "notify"
    ∷ codes "setStatus"
    ∷ codes "setWidget"
    ∷ codes "setTitle"
    ∷ codes "set_editor_text"
    ∷ []

unfoldable pub is_hook : Text → Bool
is_hook m = any (λ b. b == m) hook_methods

unfoldable pub answers : Answer → List Pending → List Response
answers a [] = []
answers a (p ∷ ps) = record { to = p; answer = a } ∷ answers a ps

-- The start of `#showAndRespond`, up to its wait.
unfoldable pub show : Pending → List Pending → Host → Host
show p rest h = record h {
  shows = record { id = h.next; pending = p; disposition = respond; rest = rest } ∷ h.shows;
  in_flight = set p.target.session_id h.next h.in_flight;
  next = suc h.next;
}

-- The loop of `flushForegroundQueue` over what is left.
unfoldable pub show_next : List Pending → Host → Host
show_next [] h = h
show_next (p ∷ ps) h = show p ps h

-- `abort` of the activation: its disposition changes and its dialog is dismissed.
unfoldable pub abort : ℕ → Disposition → List Show → List Show
abort id d [] = []
abort id d (s ∷ ss) =
    if nat_beq s.id id then record s { disposition = d } ∷ ss else s ∷ abort id d ss

unfoldable pub find_show : ℕ → List Show → Option Show
find_show id [] = none
find_show id (s ∷ ss) = if nat_beq s.id id then some s else find_show id ss

unfoldable pub remove_show : ℕ → List Show → List Show
remove_show id [] = []
remove_show id (s ∷ ss) = if nat_beq s.id id then ss else s ∷ remove_show id ss

abbrev pub unshift : Text → Pending → Host → Host
unshift sid p h = record h { queues = set sid (p ∷ queue_of sid h) h.queues }

-- `#requeueInFlight` for the activation `id` of the session.
unfoldable pub requeue_in_flight : Text → ℕ → Host → Host
requeue_in_flight sid id h = elim (find_show id h.shows) [
  | none ↦ h
  | some s ↦ record (unshift sid s.pending h) { shows = abort id requeued_now h.shows }
]

unfoldable pub requeue_session : Text → Host → Host
requeue_session sid h = elim (get sid h.in_flight) [
  | none ↦ h
  | some id ↦ requeue_in_flight sid id h
]

unfoldable pub requeue_foreground_prompt : Host → Host
requeue_foreground_prompt h = elim h.foreground [ none ↦ h | some sid ↦ requeue_session sid h ]

abbrev pub abort_in_flight : Option ℕ → List Show → List Show
abort_in_flight none ss = ss
abort_in_flight (some id) ss = abort id respond ss

unfoldable pub cancel_foreground : Host → Host
cancel_foreground h = elim h.foreground [
  | none ↦ h
  | some sid ↦ record h {
    shows = abort_in_flight (get sid h.in_flight) h.shows;
    queues = delete sid h.queues;
    sent = h.sent ++ answers cancelled (queue_of sid h);
  }
]

-- `setForegroundSession` up to its flush, which is the event `flushes`.
unfoldable pub set_foreground_session : Text → Host → Host
set_foreground_session sid h =
    let moved = record h { foreground = some sid } in
    elim h.foreground [
      | none ↦ moved
      | some old ↦ if truthy old && not (old == sid) then requeue_session old moved else moved
    ]

-- `flushForegroundQueue` behind its microtask.
unfoldable pub flush_foreground_queue : Host → Host
unfolding show_next show
flush_foreground_queue h = elim h.foreground [
  | none ↦ h
  | some sid ↦
      if truthy sid
      then show_next (queue_of sid h) (record h { queues = delete sid h.queues })
      else h
]

unfoldable pub enqueue : Pending → Host → Host
enqueue p h =
    let sid = p.target.session_id in
    record h { queues = set sid (queue_of sid h ++ p ∷ []) h.queues }

unfoldable pub handle : Pending → Host → Host
unfolding enqueue show is_blocking is_hook
handle p h =
    let r = p.request in
    if not (r.is_ui_request && truthy r.id && truthy r.method)
    then h
    else if is_blocking r.method
    then (if some p.target.session_id == h.foreground then show p [] h else enqueue p h)
    else if is_hook r.method
    then record h { hooked = h.hooked ++ r ∷ [] }
    else record h { sent = h.sent ++ record { to = p; answer = unsupported } ∷ [] }

-- The loop of `cancelSession` over what is left, up to its wait for the runtime.
unfoldable pub cancel_next : List Pending → Host → Host
cancel_next [] h = h
cancel_next (p ∷ ps) h = record h {
  sent = h.sent ++ record { to = p; answer = cancelled } ∷ [];
  unanswered = record { id = h.next; loop = cancelling; rest = ps } ∷ h.unanswered;
  next = suc h.next;
}

unfoldable pub cancel_session : Text → Host → Host
unfolding cancel_next
cancel_session sid h = cancel_next (queue_of sid h) (record h { queues = delete sid h.queues })

-- `if (this.#inFlight.get(id) === inFlight) this.#inFlight.delete(id)`
abbrev pub release : Show → List (Text × ℕ) → List (Text × ℕ)
release s m =
    if get s.pending.target.session_id m == some s.id
    then delete s.pending.target.session_id m
    else m

unfoldable pub conclude : Disposition → Answer → Pending → Host → Host
conclude respond a p h = record h { sent = h.sent ++ record { to = p; answer = a } ∷ [] }
conclude requeue_after a p h = unshift p.target.session_id p h
conclude requeued_now a p h = h

-- Whether `#showAndRespond` awaits the runtime, or returns to its loop.
unfoldable pub proceed : Disposition → ℕ → List Pending → Host → Host
unfolding show_next show
proceed respond id rest h = record h {
  unanswered = record { id = id; loop = flushing; rest = rest } ∷ h.unanswered;
}
proceed requeue_after id rest h = show_next rest h
proceed requeued_now id rest h = show_next rest h

-- The rest of `#showAndRespond` when its dialog settles.
unfoldable pub settle : ℕ → Answer → Host → Host
unfolding conclude proceed
settle id a h = elim (find_show id h.shows) [
  | none ↦ h
  | some s ↦
      let done = record h { shows = remove_show id h.shows; in_flight = release s h.in_flight } in
      proceed s.disposition id s.rest (conclude s.disposition a s.pending done)
]

unfoldable pub find_waiting : ℕ → List Waiting → Option Waiting
find_waiting id [] = none
find_waiting id (w ∷ ws) = if nat_beq w.id id then some w else find_waiting id ws

unfoldable pub remove_waiting : ℕ → List Waiting → List Waiting
remove_waiting id [] = []
remove_waiting id (w ∷ ws) = if nat_beq w.id id then ws else w ∷ remove_waiting id ws

-- The next round of a loop.
unfoldable pub next_round : Loop → List Pending → Host → Host
unfolding show_next show cancel_next
next_round flushing ps h = show_next ps h
next_round cancelling ps h = cancel_next ps h

-- `await this.#runtime.request(…)` ends: it throws when the answer is rejected.
unfoldable pub resume : ℕ → Bool → Host → Host
unfolding next_round
resume id accepted h = elim (find_waiting id h.unanswered) [
  | none ↦ h
  | some w ↦
      let done = record h { unanswered = remove_waiting id h.unanswered } in
      if accepted then next_round w.loop w.rest done else done
]

pub data Event : Type 0 where
  handles : Pending → Event
  switches : Text → Event
  flushes requeues cancels : Event
  cancels_session : Text → Event
  settles : ℕ → Answer → Event
  replies : ℕ → Bool → Event

unfoldable pub step : Event → Host → Host
step (handles p) h = handle p h
step (switches sid) h = set_foreground_session sid h
step flushes h = flush_foreground_queue h
step requeues h = requeue_foreground_prompt h
step cancels h = cancel_foreground h
step (cancels_session sid) h = cancel_session sid h
step (settles id a) h = settle id a h
step (replies id accepted) h = resume id accepted h

unfoldable pub run : List Event → Host → Host
run [] h = h
run (e ∷ es) h = run es (step e h)

unfoldable pub new_host : Host
new_host = record {
  foreground = none;
  queues = [];
  in_flight = [];
  shows = [];
  unanswered = [];
  next = 0;
  sent = [];
  hooked = [];
}
