-- ===== src/Transport/Adapter/Keyed.antt =====
-- The table of subscriptions of `HostRuntimeAdapter` (public/native/transport/runtime-adapter.js):
-- its keys after any events.
use picot.Base.{
  ℕ, ◌≡◌, refl, sym, ap, ◌∙◌, inl, inr, true, false, some, List, [], ◌∷◌, ◌++◌, arith, ◌==◌, nat_eq,
  Bool-cases, option_eq, Text, text_beq_iff, text_eq, split, Lacks, split-join, All,
}
use picot.JsMap.{get, set, values}
use picot.Transport.Target.{Target}
use picot.Transport.Adapter.{
  HostAdapter, Event, connects, disconnects, fires, readies, sends, subscribes, opens, messages,
  closes, moves, malformed, hello_ack, runtime_subscribed, frame, schedule_reconnect, connect,
  disconnect, ready, send, send_subscription, send_subscriptions, subscribe_target, acknowledge,
  on_message, on_close, on_timer, step, run, Message, target_key, connection,
}

-- The parts of a target are free of the NUL that separates them in its key.
abbrev pub IsPlain : Target → Type 0
IsPlain t = Lacks 0 t.workspace_id × Lacks 0 t.session_id × Lacks 0 t.instance_id

parts : Target → List Text
parts t = t.workspace_id ∷ t.session_id ∷ t.instance_id ∷ []

parts-key : (t : Target) → IsPlain t → split 0 (target_key t) ≡ parts t
unfolding parts
parts-key t (a, b, c) =
    split-join 0 t.workspace_id (t.session_id ∷ t.instance_id ∷ []) (a, (b, (c, tt)))

-- Different targets have different keys.
pub target_key-injective :
    (t u : Target) → IsPlain t → IsPlain u → target_key t ≡ target_key u → t ≡ u
unfolding parts
target_key-injective t u ht hu e =
    let same : parts t ≡ parts u = sym (parts-key t ht) ∙ ap (split 0) e ∙ parts-key u hu in
    ground arith

-- Every entry stands under its target's key.
abbrev pub Keyed : List (Text × Target) → Type 0
Keyed [] = Unit
Keyed ((k, t) ∷ m) = (k ≡ target_key t) × IsPlain t × Keyed m

pub get-Keyed :
    (m : List (Text × Target)) (t u : Target)
    → Keyed m
    → IsPlain t
    → get (target_key t) m ≡ some u
    → u ≡ t
unfolding get
get-Keyed [] t u h ht e = cc
get-Keyed ((k, v) ∷ m) t u h ht e = elim (Bool-cases (k == target_key t)) [
  | inl hit ↦
      let same =
        target_key-injective v t h.1 ht (ground (arith, text_beq_iff k (target_key t), h.0)) in
      ground (arith, same)
  | inr miss ↦ get-Keyed m t u h.2 ht (ground arith)
]

set-Keyed :
    (t : Target) (m : List (Text × Target)) → IsPlain t → Keyed m → Keyed (set (target_key t) t m)
unfolding set
set-Keyed t [] plain h = (refl, plain, tt)
set-Keyed t ((k, u) ∷ m) plain h =
    ground (arith, h, text_beq_iff k (target_key t), set-Keyed t m plain h.2)

send_subscriptions-subscriptions :
    (ts : List Target) (s : HostAdapter) → (send_subscriptions ts s).subscriptions ≡ s.subscriptions
unfolding send_subscriptions send_subscription
send_subscriptions-subscriptions [] s = refl
send_subscriptions-subscriptions (t ∷ ts) s =
    ground (arith, send_subscriptions-subscriptions ts (send_subscription t s))

schedule-subscriptions : (s : HostAdapter) → (schedule_reconnect s).subscriptions ≡ s.subscriptions
unfolding schedule_reconnect
schedule-subscriptions s = ground arith

message-subscriptions :
    (id : ℕ) (m : Message) (s : HostAdapter) → (on_message id m s).subscriptions ≡ s.subscriptions
unfolding on_message acknowledge
message-subscriptions id malformed s = refl
message-subscriptions id (hello_ack v) s = ground (
  arith,
  send_subscriptions-subscriptions (values s.subscriptions)
      (record s { connected = true; reconnect_attempts = 0 }),
)
message-subscriptions id runtime_subscribed s = refl
message-subscriptions id (frame f) s = refl

-- A target that the event subscribes to is plain.
abbrev pub SubscribesPlain : Event → Type 0
SubscribesPlain (subscribes t) = IsPlain t
SubscribesPlain e = Unit

step-Keyed :
    (e : Event) (s : HostAdapter)
    → SubscribesPlain e
    → Keyed s.subscriptions
    → Keyed (step e s).subscriptions
unfolding step
step-Keyed connects s p h = unfold connect in ground arith
step-Keyed disconnects s p h = unfold disconnect in ground arith
step-Keyed fires s p h = unfold connect on_timer in ground arith
step-Keyed (readies q) s p h = unfold ready in ground arith
step-Keyed (sends f id) s p h = unfold send in ground (arith, schedule-subscriptions s)
step-Keyed (subscribes t) s p h =
    unfold subscribe_target send_subscription in ground (arith, set-Keyed t s.subscriptions p h)
step-Keyed (opens id) s p h = h
step-Keyed (messages id m) s p h = ground (arith, message-subscriptions id m s)
step-Keyed (closes id) s p h =
    unfold on_close in
    ground (
      arith,
      schedule-subscriptions (record s { connected = false; log = s.log ++ connection false ∷ [] }),
    )
step-Keyed (moves r) s p h = h

pub run-Keyed :
    (es : List Event) (s : HostAdapter)
    → All SubscribesPlain es
    → Keyed s.subscriptions
    → Keyed (run es s).subscriptions
unfolding run
run-Keyed [] s p h = h
run-Keyed (e ∷ es) s p h = run-Keyed es (step e s) p.1 (step-Keyed e s p.0 h)
