-- ===== src/Transport/Adapter/Subscriptions.antt =====
-- The subscriptions of `HostRuntimeAdapter` (public/native/transport/runtime-adapter.js).
use picot.Base.{
  ℕ, suc, ◌+◌, ◌≡◌, refl, ap, ◌∙◌, inl, inr, true, false, not, ◌&&◌, some, List, [], ◌∷◌, ◌++◌,
  append_assoc, append-nil, arith, if◌then◌else◌, ◌==◌, nat_eq, Option-cases, option_eq, Text,
  codes, text_beq_iff, text_eq, decimal, length, map, All,
}
use picot.JsMap.{get, values, has, get-set, set_new, get-set_self}
use picot.Transport.Target.{Target}
use picot.Transport.Adapter.Keyed.{Keyed, IsPlain, SubscribesPlain, get-Keyed, run-Keyed}
use picot.Transport.Adapter.{
  Event, create, run, HostAdapter, Output, subscribe_sent, connection, readied, readied_all,
  is_open, send_subscription, send_subscriptions, subscribe_target, target_key, acknowledge,
}

-- The requests for the targets, numbered from `n`.
unfoldable pub requests : ℕ → List Target → List Output
requests n [] = []
requests n (t ∷ ts) = subscribe_sent (codes "subscribe-" ++ decimal n) t ∷ requests (suc n) ts

pub send_subscriptions_open :
    (ts : List Target) (s : HostAdapter)
    → is_open s.socket ≡ true
    → send_subscriptions ts s ≡ record s {
      next_subscription_id = s.next_subscription_id + length ts;
      log = s.log ++ requests s.next_subscription_id ts;
    }
unfolding send_subscriptions send_subscription requests
send_subscriptions_open [] s h = ground (arith, append-nil s.log)
send_subscriptions_open (t ∷ ts) s h =
    let o = subscribe_sent (codes "subscribe-" ++ decimal s.next_subscription_id) t in
    let s' = record s {
      next_subscription_id = suc s.next_subscription_id;
      log = s.log ++ o ∷ [];
    } in
    rw h (
      send_subscriptions_open ts s' h
      ∙ ground (arith, append_assoc s.log (o ∷ []) (requests (suc s.next_subscription_id) ts)))

pub send_subscriptions_closed :
    (ts : List Target) (s : HostAdapter) → is_open s.socket ≡ false → send_subscriptions ts s ≡ s
unfolding send_subscriptions send_subscription
send_subscriptions_closed [] s h = refl
send_subscriptions_closed (t ∷ ts) s h = rw h (send_subscriptions_closed ts s h)

readied_all_lem : (ps : List ℕ) → readied_all ps ≡ map readied ps
unfolding readied_all
readied_all_lem [] = refl
readied_all_lem (p ∷ ps) = ap (λ os. readied p ∷ os) (readied_all_lem ps)

-- When the host acknowledges the hello on an open socket, the adapter asks again for every
-- subscription in the order in which they were made, under fresh request numbers, then tells the
-- connection listeners, then settles every `ready()` that waited, each once and in the order of the
-- calls; nobody waits any more, and the delays start over.
pub acknowledge_lem :
    (s : HostAdapter)
    → is_open s.socket ≡ true
    → let ts = values s.subscriptions in
      acknowledge s ≡ record s {
        connected = true;
        reconnect_attempts = 0;
        ready_waiters = [];
        next_subscription_id = s.next_subscription_id + length ts;
        log =
            s.log
            ++ requests s.next_subscription_id ts
            ++ connection true ∷ map readied s.ready_waiters;
      }
unfolding acknowledge
acknowledge_lem s h =
    let ts = values s.subscriptions in
    let s' = record s { connected = true; reconnect_attempts = 0 } in
    rw (send_subscriptions_open ts s' h) (
      ground (
        arith,
        append_assoc s.log (requests s.next_subscription_id ts)
            (connection true ∷ readied_all s.ready_waiters),
        readied_all_lem s.ready_waiters,
      ))

subscribe_target-Keyed :
    (t : Target) (s : HostAdapter) (k : Text)
    → Keyed s.subscriptions
    → IsPlain t
    → (get k (subscribe_target t s).subscriptions
        ≡ (if target_key t == k then some t else get k s.subscriptions))
      × ((subscribe_target t s).subscriptions ≡ (
          if has (target_key t) s.subscriptions
          then s.subscriptions
          else s.subscriptions ++ (target_key t, t) ∷ []))
      × ((subscribe_target t s).log ≡ (
          if not (has (target_key t) s.subscriptions) && s.connected && is_open s.socket
          then s.log ++ requests s.next_subscription_id (t ∷ [])
          else s.log))
      × (subscribe_target t (subscribe_target t s) ≡ subscribe_target t s)
unfolding subscribe_target send_subscription requests
subscribe_target-Keyed t s k keyed plain =
    elim (Option-cases (get (target_key t) s.subscriptions)) [
      | inl absent ↦ (
        ground (arith, absent, get-set (target_key t) k t s.subscriptions),
        ground (arith, absent, set_new (target_key t) t s.subscriptions absent),
        ground (arith, absent),
        ground (arith, absent, get-set_self (target_key t) t s.subscriptions),
      )
      | inr (u, found) ↦
          let same = get-Keyed s.subscriptions t u keyed plain found in
          (
            ground (arith, found, same, text_beq_iff (target_key t) k),
            ground (arith, found),
            ground (arith, found),
            ground (arith, found),
          )
    ]

-- In every state that an adapter reaches by events whose subscribed targets have ids without the
-- NUL that joins them in a key: after a subscription of another such target the table holds the
-- target under its key, and every other key as before. The first subscription of a target adds it
-- at the end of the table, and asks the host at once if the adapter is connected and its socket
-- open; a repeated one changes nothing.
pub subscribe_target_lem :
    (base limit : ℕ) (es : List Event) (t : Target) (k : Text)
    → All SubscribesPlain es
    → IsPlain t
    → let s = run es (create base limit) in
      (get k (subscribe_target t s).subscriptions
        ≡ (if target_key t == k then some t else get k s.subscriptions))
      × ((subscribe_target t s).subscriptions ≡ (
          if has (target_key t) s.subscriptions
          then s.subscriptions
          else s.subscriptions ++ (target_key t, t) ∷ []))
      × ((subscribe_target t s).log ≡ (
          if not (has (target_key t) s.subscriptions) && s.connected && is_open s.socket
          then s.log ++ requests s.next_subscription_id (t ∷ [])
          else s.log))
      × (subscribe_target t (subscribe_target t s) ≡ subscribe_target t s)
unfolding create
subscribe_target_lem base limit es t k plain_events plain =
    let s = create base limit in
    subscribe_target-Keyed t (run es s) k (run-Keyed es s plain_events tt) plain
