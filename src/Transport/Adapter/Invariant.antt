-- ===== src/Transport/Adapter/Invariant.antt =====
-- What holds of `HostRuntimeAdapter` (public/native/transport/runtime-adapter.js) after any events.
use picot.Base.{
  ℕ, ◌≤◌, ◌≡◌, refl, ◌⊎◌, inl, inr, true, false, Option, none, some, List, [], ◌∷◌, ◌++◌, arith,
  nat_eq, Bool-cases, if-both, option_eq, text_eq, is_some,
}
use picot.JsMap.{values}
use picot.Transport.Adapter.{
  HostAdapter, Event, connects, disconnects, fires, readies, sends, subscribes, opens, messages,
  closes, moves, malformed, hello_ack, runtime_subscribed, frame, create, schedule_reconnect,
  connect, disconnect, ready, send, send_subscription, subscribe_target, acknowledge, on_message,
  on_close, on_timer, step, run, is_current, connection, is_open, Message,
}
use picot.Transport.Adapter.Subscriptions.{send_subscriptions_open, send_subscriptions_closed}

abbrev pub Within : ℕ → Option ℕ → Type 0
Within n none = Unit
Within n (some d) = d ≤ n

pub record IsSound (s : HostAdapter) : Type 0 where
  pub wanted : (s.reconnect_timer ≡ none) ⊎ (s.should_reconnect ≡ true)
  pub bounded : Within s.max_delay s.reconnect_timer
  pub served : (s.connected ≡ false) ⊎ (s.ready_waiters ≡ [])

pub schedule-IsSound : (s : HostAdapter) → IsSound s → IsSound (schedule_reconnect s)
unfolding schedule_reconnect
schedule-IsSound s h = record {
  wanted = ground (arith, h.wanted);
  bounded = ground (arith, h.bounded);
  served = ground (arith, h.served);
}

acknowledge-IsSound : (s : HostAdapter) → IsSound s → IsSound (acknowledge s)
unfolding acknowledge
acknowledge-IsSound s h =
    let ts = values s.subscriptions in
    let s' = record s { connected = true; reconnect_attempts = 0 } in
    elim (Bool-cases (is_open s.socket)) [
      | inl o ↦
          rw (send_subscriptions_open ts s' o)
            (record { wanted = h.wanted; bounded = h.bounded; served = inr refl })
      | inr o ↦
          rw (send_subscriptions_closed ts s' o)
            (record { wanted = h.wanted; bounded = h.bounded; served = inr refl })
    ]

message-IsSound : (id : ℕ) (m : Message) (s : HostAdapter) → IsSound s → IsSound (on_message id m s)
unfolding on_message
message-IsSound id malformed s h = ground arith
message-IsSound id (hello_ack v) s h = ground (arith, acknowledge-IsSound s h)
message-IsSound id runtime_subscribed s h = h
message-IsSound id (frame f) s h = ground arith

connect-IsSound : (s : HostAdapter) → IsSound s → IsSound (connect s)
unfolding connect
connect-IsSound s h = ground arith

close-IsSound : (id : ℕ) (s : HostAdapter) → IsSound s → IsSound (on_close id s)
unfolding on_close
close-IsSound id s h =
    let closed = record s { connected = false; log = s.log ++ connection false ∷ [] } in
    let kept : IsSound closed = record {
      wanted = h.wanted;
      bounded = h.bounded;
      served = inl refl;
    } in
    if-both IsSound (is_current id s.socket) _ _ (schedule-IsSound closed kept) h

timer-IsSound : (s : HostAdapter) → IsSound s → IsSound (on_timer s)
unfolding on_timer
timer-IsSound s h =
    connect-IsSound (record s { reconnect_timer = none })
      (record { wanted = inl refl; bounded = tt; served = h.served })

step-IsSound : (e : Event) (s : HostAdapter) → IsSound s → IsSound (step e s)
unfolding step
step-IsSound connects s h = connect-IsSound s h
step-IsSound disconnects s h = unfold disconnect in ground arith
step-IsSound fires s h = if-both IsSound (is_some s.reconnect_timer) _ _ (timer-IsSound s h) h
step-IsSound (readies p) s h = unfold ready in ground arith
step-IsSound (sends f id) s h = unfold send in ground (arith, schedule-IsSound s h)
step-IsSound (subscribes t) s h = unfold subscribe_target send_subscription in ground arith
step-IsSound (opens id) s h = ground arith
step-IsSound (messages id m) s h = message-IsSound id m s h
step-IsSound (closes id) s h = close-IsSound id s h
step-IsSound (moves r) s h = ground arith

run-IsSound : (es : List Event) (s : HostAdapter) → IsSound s → IsSound (run es s)
unfolding run
run-IsSound [] s h = h
run-IsSound (e ∷ es) s h = run-IsSound es (step e s) (step-IsSound e s h)

-- After any events of callers, socket and timer: a reconnect is scheduled only while the caller
-- wants the connection, its delay is at most the limit in force, and a connected adapter has nobody
-- waiting in `ready()`.
pub reached-IsSound : (base limit : ℕ) (es : List Event) → IsSound (run es (create base limit))
unfolding create
reached-IsSound base limit es =
    run-IsSound es (create base limit)
      (record { wanted = inl refl; bounded = tt; served = inl refl })
