-- ===== src/Session/Compaction.antt =====
-- `createCompactCoordinator`: public/compact-coordinator.js. A request's promise and a timer are numbers;
-- an event is a call, the answer to `send()` of a request, or a timer that fires.
pub mod Watchdog
pub mod Examples
use picot.Base.{
  ℕ, suc, ◌+◌, Bool, true, false, not, ◌&&◌, Option, none, some, List, [], ◌∷◌, ◌++◌, ltb, nat_beq,
  if◌then◌else◌, ◌==◌, nat_eq, option_eq, text_eq, keep, any,
}

pub data Phase : Type 0 where
  idle requested running : Phase

pub record Coordinator : Type 0 where
  pub state : Phase
  pub watchdog : Option ℕ
  -- the requests whose `send()` has not been answered, and the next number of a request and of a timer
  pub sent : List ℕ
  pub next_request : ℕ
  pub next_timer : ℕ

pub data Effect : Type 0 where
  on_state : Phase → Effect
  on_timeout : Effect
  send : ℕ → Effect
  set_timer : ℕ → Effect
  clear_timer : ℕ → Effect
  resolve : ℕ → Bool → Effect

pub data Event : Type 0 where
  request : Event
  -- the response of a request: it failed (`success` is false, or `send()` was rejected) or not
  answered : ℕ → Bool → Event
  started : Event
  -- `success !== false`, and whether there is an error
  ended : Bool → Bool → Event
  reset : Event
  fires : ℕ → Event

abbrev pub new_coordinator : Coordinator
new_coordinator = record {
  state = idle;
  watchdog = none;
  sent = [];
  next_request = 0;
  next_timer = 0;
}

abbrev pub is_idle : Phase → Bool
is_idle idle = true
is_idle requested = false
is_idle running = false

abbrev pub busy : Coordinator → Bool
busy c = not (is_idle c.state)

unfoldable pub clear_watchdog : Coordinator → Coordinator × List Effect
clear_watchdog c = elim c.watchdog [
  | none ↦ (c, [])
  | some t ↦ (record c { watchdog = none }, clear_timer t ∷ [])
]

unfoldable pub set_state : Phase → Coordinator → Coordinator × List Effect
set_state next c = (record c { state = next }, on_state next ∷ [])

-- `clearWatchdog(); setState("idle")`
unfoldable pub stop : Coordinator → Coordinator × List Effect
unfolding clear_watchdog set_state
stop c =
    let cleared = clear_watchdog c in
    let done = set_state idle cleared.0 in (done.0, cleared.1 ++ done.1)

module _ (timeout_ms : ℕ) where
  unfoldable pub arm_watchdog : Coordinator → Coordinator × List Effect
  unfolding clear_watchdog
  arm_watchdog c =
      let cleared = clear_watchdog c in
      let armed = record (cleared.0) {
        watchdog = some c.next_timer;
        next_timer = suc c.next_timer;
      } in
      if ltb 0 timeout_ms then (armed, cleared.1 ++ set_timer c.next_timer ∷ []) else cleared

  -- `setState(next); armWatchdog()`
  unfoldable pub enter : Phase → Coordinator → Coordinator × List Effect
  unfolding set_state arm_watchdog
  enter next c =
      let entered = set_state next c in
      let armed = arm_watchdog entered.0 in (armed.0, entered.1 ++ armed.1)

  unfoldable pub handle_request : Coordinator → Coordinator × List Effect
  unfolding enter
  handle_request c =
      let id = c.next_request in
      let entered = enter requested (record c { next_request = suc id }) in
      if is_idle c.state
      then (record (entered.0) { sent = id ∷ entered.0.sent }, entered.1 ++ send id ∷ [])
      else (record c { next_request = suc id }, resolve id false ∷ [])

  unfoldable pub handle_answer : ℕ → Bool → Coordinator → Coordinator × List Effect
  unfolding stop
  handle_answer id is_failure c =
      let rest = record c { sent = keep (λ i. not (nat_beq i id)) c.sent } in
      let stopped = stop rest in
      if not (any (λ i. nat_beq i id) c.sent)
      then (c, [])
      else if is_failure
      then (stopped.0, stopped.1 ++ resolve id false ∷ [])
      else (rest, resolve id true ∷ [])

  -- Only the timer that is set fires; the platform drops one that was cleared.
  unfoldable pub handle_timer : ℕ → Coordinator → Coordinator × List Effect
  unfolding set_state
  handle_timer t c =
      let done = set_state idle (record c { watchdog = none }) in
      if c.watchdog == some t then (done.0, done.1 ++ on_timeout ∷ []) else (c, [])

  unfoldable pub step : Coordinator → Event → Coordinator × List Effect
  unfolding handle_request handle_answer handle_timer enter stop
  step c request = handle_request c
  step c (answered id is_failure) = handle_answer id is_failure c
  step c started = elim c.state [
    | idle ↦ enter running c
    | requested ↦ enter running c
    | running ↦ (c, [])
  ]
  step c (ended success error) = if is_idle c.state then (c, []) else stop c
  step c reset = if is_idle c.state then (c, []) else stop c
  step c (fires t) = handle_timer t c

  unfoldable pub run : Coordinator → List Event → Coordinator × List Effect
  unfolding step
  run c [] = (c, [])
  run c (e ∷ es) = let first = step c e in let rest = run first.0 es in (rest.0, first.1 ++ rest.1)

-- What `ended` returns: whether a compaction ended well.
abbrev pub ended_well : Coordinator → Bool → Bool → Bool
ended_well c success error = busy c && success && not error
