-- ===== src/Transport/Adapter.antt =====
-- `HostRuntimeAdapter` of public/native/transport/runtime-adapter.js: the socket to the host, its
-- reconnection with growing delays, and the subscriptions that every new connection repeats.
-- What the adapter does to the world is appended to `log`. A socket is named by a number, and its
-- `readyState` is the platform's: 0 connecting, 1 open, 2 closing, 3 closed.
pub mod Invariant
pub mod Reconnect
pub mod Keyed
pub mod Subscriptions
pub mod Examples
use picot.Base.{
  ℕ, suc, ◌+◌, ◌*◌, ◌^◌, min, max, Bool, true, false, not, ◌||◌, Option, none, some, List, [], ◌∷◌,
  ◌++◌, ltb, nat_beq, if◌then◌else◌, nat_eq, option_eq, Text, codes, text_eq, join, decimal,
  is_some,
}
use picot.JsMap.{get, set, values, has}
use picot.Transport.Target.{Target}
use picot.Transport.Gateway.{OutFrame, InFrame, RuntimeAdapter}

pub record Socket : Type 0 where
  pub id : ℕ
  pub ready_state : ℕ

pub data Output : Type 0 where
  opened : ℕ → Output
  closing : ℕ → Output
  hello : ℕ → Output
  sent : OutFrame → Text → Output
  subscribe_sent : Text → Target → Output
  connection : Bool → Output
  readied : ℕ → Output
  scheduled : ℕ → Output
  received : InFrame → Output
  invalid_json : Output

pub record HostAdapter : Type 0 where
  pub base_delay : ℕ
  pub max_delay : ℕ
  pub connected : Bool
  pub next_subscription_id : ℕ
  pub ready_waiters : List ℕ
  pub reconnect_attempts : ℕ
  pub reconnect_timer : Option ℕ
  pub should_reconnect : Bool
  pub subscriptions : List (Text × Target)
  pub socket : Option Socket
  pub sockets : ℕ
  pub log : List Output

unfoldable pub create : ℕ → ℕ → HostAdapter
create base limit = record {
  base_delay = base;
  max_delay = limit;
  connected = false;
  next_subscription_id = 1;
  ready_waiters = [];
  reconnect_attempts = 0;
  reconnect_timer = none;
  should_reconnect = false;
  subscriptions = [];
  socket = none;
  sockets = 0;
  log = [];
}

abbrev pub emit : Output → HostAdapter → HostAdapter
emit o s = record s { log = s.log ++ o ∷ [] }

-- `#isSocketOpen`
abbrev pub is_open : Option Socket → Bool
is_open none = false
is_open (some k) = nat_beq k.ready_state 1

-- `this.#socket && this.#socket.readyState < 2`
abbrev pub is_alive : Option Socket → Bool
is_alive none = false
is_alive (some k) = ltb k.ready_state 2

-- `#scheduleReconnect`
unfoldable pub schedule_reconnect : HostAdapter → HostAdapter
schedule_reconnect s =
    let delay = min (s.base_delay * 2 ^ s.reconnect_attempts) s.max_delay in
    if not s.should_reconnect || is_some s.reconnect_timer then s else record s {
      reconnect_attempts = suc s.reconnect_attempts;
      reconnect_timer = some delay;
      log = s.log ++ scheduled delay ∷ [];
    }

unfoldable pub connect : HostAdapter → HostAdapter
connect s =
    let t = record s { should_reconnect = true; reconnect_timer = none } in
    if is_alive s.socket then t else record t {
      socket = some (record { id = s.sockets; ready_state = 0 });
      sockets = suc s.sockets;
      log = s.log ++ opened s.sockets ∷ [];
    }

-- `close()` of a socket that is not closed yet leaves it closing.
abbrev pub close_socket : Option Socket → Option Socket
close_socket none = none
close_socket (some k) = some (record k { ready_state = max 2 k.ready_state })

abbrev pub closing_log : Option Socket → List Output
closing_log none = []
closing_log (some k) = closing k.id ∷ []

unfoldable pub disconnect : HostAdapter → HostAdapter
disconnect s = record s {
  should_reconnect = false;
  reconnect_timer = none;
  socket = close_socket s.socket;
  log = s.log ++ closing_log s.socket;
}

-- `ready()`, for the promise `p`.
unfoldable pub ready : ℕ → HostAdapter → HostAdapter
ready p s =
    if s.connected
    then emit (readied p) s
    else record s { ready_waiters = s.ready_waiters ++ p ∷ [] }

-- The Boolean is false where the source throws.
unfoldable pub send : OutFrame → Text → HostAdapter → HostAdapter × Bool
send frame id s =
    if not s.connected || not (is_open s.socket)
    then (schedule_reconnect s, false)
    else (emit (sent frame id) s, true)

-- `#sendSubscription`
unfoldable pub send_subscription : Target → HostAdapter → HostAdapter
send_subscription t s =
    if is_open s.socket
    then record s {
      next_subscription_id = suc s.next_subscription_id;
      log = s.log ++ subscribe_sent (codes "subscribe-" ++ decimal s.next_subscription_id) t ∷ [];
    }
    else s

abbrev pub target_key : Target → Text
target_key t = join 0 (t.workspace_id ∷ t.session_id ∷ t.instance_id ∷ [])

unfoldable pub subscribe_target : Target → HostAdapter → HostAdapter
subscribe_target t s =
    let u = record s { subscriptions = set (target_key t) t s.subscriptions } in
    if has (target_key t) s.subscriptions
    then s
    else if s.connected
    then send_subscription t u
    else u

unfoldable pub send_subscriptions : List Target → HostAdapter → HostAdapter
send_subscriptions [] s = s
send_subscriptions (t ∷ ts) s = send_subscriptions ts (send_subscription t s)

unfoldable pub readied_all : List ℕ → List Output
readied_all [] = []
readied_all (p ∷ ps) = readied p ∷ readied_all ps

pub data Message : Type 0 where
  malformed : Message
  hello_ack : ℕ → Message
  runtime_subscribed : Message
  frame : InFrame → Message

-- `#socket.close()` of the socket that the message came from.
abbrev pub close_if : ℕ → Option Socket → Option Socket
close_if id none = none
close_if id (some k) = if nat_beq k.id id then close_socket (some k) else some k

-- `socket.onmessage` once the host has acknowledged the hello.
unfoldable pub acknowledge : HostAdapter → HostAdapter
acknowledge s =
    let t =
      send_subscriptions (values s.subscriptions)
        (record s { connected = true; reconnect_attempts = 0 }) in
    record t { ready_waiters = []; log = t.log ++ connection true ∷ readied_all s.ready_waiters }

unfoldable pub on_message : ℕ → Message → HostAdapter → HostAdapter
on_message id malformed s = emit invalid_json s
on_message id (hello_ack version) s =
    if nat_beq version 2
    then acknowledge s
    else record s { socket = close_if id s.socket; log = s.log ++ closing id ∷ [] }
on_message id runtime_subscribed s = s
on_message id (frame f) s = emit (received f) s

abbrev pub is_current : ℕ → Option Socket → Bool
is_current id none = false
is_current id (some k) = nat_beq k.id id

unfoldable pub on_close : ℕ → HostAdapter → HostAdapter
on_close id s =
    if is_current id s.socket
    then schedule_reconnect (record s { connected = false; log = s.log ++ connection false ∷ [] })
    else s

-- The timer of `#scheduleReconnect`.
unfoldable pub on_timer : HostAdapter → HostAdapter
on_timer s = connect (record s { reconnect_timer = none })

-- The platform moves the current socket to another state.
abbrev pub move_socket : ℕ → Option Socket → Option Socket
move_socket r none = none
move_socket r (some k) = some (record k { ready_state = r })

pub data Event : Type 0 where
  connects disconnects fires : Event
  readies : ℕ → Event
  sends : OutFrame → Text → Event
  subscribes : Target → Event
  opens : ℕ → Event
  messages : ℕ → Message → Event
  closes : ℕ → Event
  moves : ℕ → Event

unfoldable pub step : Event → HostAdapter → HostAdapter
step connects s = connect s
step disconnects s = disconnect s
step fires s = if is_some s.reconnect_timer then on_timer s else s
step (readies p) s = ready p s
step (sends f id) s = (send f id s).0
step (subscribes t) s = subscribe_target t s
step (opens id) s = emit (hello id) s
step (messages id m) s = on_message id m s
step (closes id) s = on_close id s
step (moves r) s = record s { socket = move_socket r s.socket }

unfoldable pub run : List Event → HostAdapter → HostAdapter
run [] s = s
run (e ∷ es) s = run es (step e s)

-- The interface that the gateway asks for.
abbrev pub host_adapter : RuntimeAdapter
host_adapter = record { State = HostAdapter; send = send; subscribe_target = subscribe_target }
