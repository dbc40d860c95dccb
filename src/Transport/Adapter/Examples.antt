-- ===== src/Transport/Adapter/Examples.antt =====
-- Runs of `HostRuntimeAdapter`.
use picot.Base.{
  ◌+◌, ◌≡◌, refl, true, false, none, some, List, [], ◌∷◌, ◌++◌, nat_eq, option_eq, codes, text_eq,
  decimal, length, map, text_beq, join,
}
use picot.JsMap.{get, set, values}
use picot.Transport.Target.{Target}
use picot.Transport.Adapter.{
  HostAdapter, create, run, step, connect, acknowledge, on_message, Event, connects, opens, moves,
  messages, subscribes, hello_ack, opened, hello, connection, readied, subscribe_sent,
  subscribe_target, target_key, readied_all, send_subscriptions, send_subscription,
}
use picot.Transport.Adapter.Invariant.{IsSound, reached-IsSound}
use picot.Transport.Adapter.Reconnect.{outages, outages_log, outages_retry}
use picot.Transport.Adapter.Subscriptions.{requests, acknowledge_lem, subscribe_target_lem}

abbrev home : Target
home = record { workspace_id = codes "w"; session_id = codes "s"; instance_id = codes "i" }

abbrev away : Target
away = record { workspace_id = codes "w"; session_id = codes "t"; instance_id = codes "i" }

-- A connection is opened and acknowledged after a subscription was asked for.
abbrev opening : List Event
opening = subscribes home ∷ connects ∷ moves 1 ∷ opens 0 ∷ messages 0 (hello_ack 2) ∷ []

opening_log :
    (run opening (create 250 5000)).log
    ≡ opened 0 ∷ hello 0 ∷ subscribe_sent (codes "subscribe-1") home ∷ connection true ∷ []
unfolding run step create connect acknowledge on_message subscribe_target send_subscriptions
    send_subscription get set decimal readied_all
opening_log = refl

reached-IsSound_example : IsSound (run opening (create 250 5000))
reached-IsSound_example = reached-IsSound 250 5000 opening

-- An adapter that is waiting for its socket 0 to open.
abbrev waiting_adapter : HostAdapter
waiting_adapter = record {
  base_delay = 250;
  max_delay = 5000;
  connected = false;
  next_subscription_id = 1;
  ready_waiters = 4 ∷ 5 ∷ [];
  reconnect_attempts = 0;
  reconnect_timer = none;
  should_reconnect = true;
  subscriptions = (target_key home, home) ∷ [];
  socket = some (record { id = 0; ready_state = 1 });
  sockets = 1;
  log = opened 0 ∷ [];
}

outages_retry_example :
    ((run (outages 3 0 1) waiting_adapter).log ≡ (opened 0 ∷ []) ++ outages_log 250 5000 3 0 1)
    × ((run (outages 3 0 1) waiting_adapter).reconnect_attempts ≡ 0 + 3)
    × ((run (outages 3 0 1) waiting_adapter).reconnect_timer ≡ none)
    × ((run (outages 3 0 1) waiting_adapter).should_reconnect ≡ true)
outages_retry_example =
    outages_retry 3 waiting_adapter (record { id = 0; ready_state = 1 }) refl refl refl

acknowledge_lem_example : acknowledge waiting_adapter ≡ record waiting_adapter {
  connected = true;
  reconnect_attempts = 0;
  ready_waiters = [];
  next_subscription_id = 1 + length (values waiting_adapter.subscriptions);
  log =
      (opened 0 ∷ [])
      ++ requests 1 (values waiting_adapter.subscriptions)
      ++ connection true ∷ map readied (4 ∷ 5 ∷ []);
}
acknowledge_lem_example = acknowledge_lem waiting_adapter refl

abbrev opened_adapter : HostAdapter
opened_adapter = run opening (create 250 5000)

subscribe_target_lem_example :
    (get (target_key home) (subscribe_target away opened_adapter).subscriptions ≡ some home)
    × ((subscribe_target away opened_adapter).subscriptions
        ≡ (target_key home, home) ∷ (target_key away, away) ∷ [])
    × ((subscribe_target away opened_adapter).log
        ≡ opened_adapter.log ++ subscribe_sent (codes "subscribe-2") away ∷ [])
    × (subscribe_target away (subscribe_target away opened_adapter)
        ≡ subscribe_target away opened_adapter)
unfolding run step create connect acknowledge on_message subscribe_target send_subscriptions
    send_subscription get set decimal readied_all requests text_beq join
subscribe_target_lem_example =
    subscribe_target_lem 250 5000 opening away (target_key home)
      (((refl, tt), (refl, tt), (refl, tt)), (tt, (tt, (tt, (tt, tt)))))
      ((refl, tt), (refl, tt), (refl, tt))
