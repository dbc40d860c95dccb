-- ===== src/Transport/Gateway/Accounts.antt =====
-- The promises of `RuntimeGateway` (public/native/transport/runtime-gateway.js): what becomes of
-- each of them over any sequence of calls, frames and connection changes.
use picot.Base.{
  ℕ, ◌+◌, ◌≤◌, ◌≡◌, refl, ap, inl, inr, Bool, true, false, not, ◌&&◌, Option, none, some, List, [],
  ◌∷◌, ◌++◌, arith, ltb, nat_beq, if◌then◌else◌, nat_eq, Option-cases, if-both, option_eq, Text,
  text_beq_iff, text_eq, or_default, truthy?,
}
use picot.Transport.Target.{is_complete}
use picot.JsMap.{get, set, delete}
use picot.Transport.Gateway.{
  entry_of, Gateway, RuntimeAdapter, Pending, InFrame, OutFrame, host_request, runtime_request,
  Effect, resolved, rejected, delivered, Call, deliver, reject_all, send, refuse, receive_frame,
  change_connection, step, run, new, request_id_of, request, send_host_request, snapshot,
  rebind_session, git, capabilities, subscribe, unsubscribe, receive, connection_changed,
  subscribed, is_mutation,
}

abbrev pub hit : ℕ → ℕ → ℕ
hit p q = if nat_beq p q then 1 else 0

-- How often the effects settle the promise `p`.
abbrev pub settles : ℕ → Effect → ℕ
settles p (resolved q f) = hit p q
settles p (rejected q r) = hit p q
settles p (delivered l f) = 0

unfoldable pub settled : ℕ → List Effect → ℕ
settled p [] = 0
settled p (e ∷ es) = settles p e + settled p es

-- How many entries of the table hold the promise `p`.
unfoldable pub waiting : ℕ → List (Text × Pending) → ℕ
waiting p [] = 0
waiting p ((id, q) ∷ m) = hit p q.promise + waiting p m

pub settled-append :
    (p : ℕ) (es fs : List Effect) → settled p (es ++ fs) ≡ settled p es + settled p fs
unfolding settled
settled-append p [] fs = omega arith
settled-append p (e ∷ es) fs = omega (arith, settled-append p es fs)

waiting-append :
    (p : ℕ) (m n : List (Text × Pending)) → waiting p (m ++ n) ≡ waiting p m + waiting p n
unfolding waiting
waiting-append p [] n = omega arith
waiting-append p ((id, q) ∷ m) n = omega (arith, waiting-append p m n)

waiting-set-le :
    (p : ℕ) (k : Text) (q : Pending) (m : List (Text × Pending))
    → waiting p (set k q m) ≤ waiting p m + hit p q.promise
unfolding waiting set
waiting-set-le p k q [] = omega arith
waiting-set-le p k q ((i, w) ∷ m) = ground (arith, waiting-set-le p k q m)

waiting-delete-le :
    (p : ℕ) (k : Text) (m : List (Text × Pending)) → waiting p (delete k m) ≤ waiting p m
unfolding waiting delete
waiting-delete-le p k [] = omega arith
waiting-delete-le p k ((i, w) ∷ m) = ground (arith, waiting-delete-le p k m)

waiting-delete-set-le :
    (p : ℕ) (k : Text) (q : Pending) (m : List (Text × Pending))
    → waiting p (delete k (set k q m)) ≤ waiting p m
unfolding waiting delete set
waiting-delete-set-le p k q [] = ground (arith, text_beq_iff k k)
waiting-delete-set-le p k q ((i, w) ∷ m) =
    ground (arith, waiting-delete-set-le p k q m, waiting-delete-le p k m)

waiting-delete-get :
    (p : ℕ) (k : Text) (q : Pending) (m : List (Text × Pending))
    → get k m ≡ some q
    → waiting p (delete k m) + hit p q.promise ≤ waiting p m
unfolding waiting delete get
waiting-delete-get p k q [] h = cc
waiting-delete-get p k q ((i, w) ∷ m) h =
    ground (arith, waiting-delete-get p k q m, waiting-delete-le p k m)

pub settled-deliver : (p : ℕ) (f : InFrame) (ls : List ℕ) → settled p (deliver f ls) ≡ 0
unfolding settled deliver
settled-deliver p f [] = refl
settled-deliver p f (l ∷ ls) = omega (arith, settled-deliver p f ls)

pub settled-reject_all :
    (p : ℕ) (m : List (Text × Pending)) → settled p (reject_all m) ≡ waiting p m
unfolding settled reject_all waiting
settled-reject_all p [] = refl
settled-reject_all p ((id, q) ∷ m) = ap (◌+◌ (hit p q.promise)) (settled-reject_all p m)

-- What may still settle the promise: its entries, or its creation.
abbrev pub quota : {a : RuntimeAdapter} → ℕ → Gateway a → ℕ
quota p g = waiting p g.pending + (if ltb p g.promises then 0 else 1)

module _ {a : RuntimeAdapter} (p : ℕ) where
  abbrev Spends : Gateway a → Gateway a × List Effect → Type 0
  Spends g (g', es) = settled p es + quota p g' ≤ quota p g

  send-Spends :
      (frame : OutFrame) (override : Option Text) (g : Gateway a) → Spends g (send frame override g)
  unfolding send settled
  send-Spends frame override g =
      let id = request_id_of override g.next_request_id in
      let entry = entry_of frame g in
      ground
        (arith, waiting-set-le p id entry g.pending, waiting-delete-set-le p id entry g.pending)

  refuse-Spends : (g : Gateway a) → Spends g (refuse g)
  unfolding refuse settled
  refuse-Spends g = ground arith

  receive-Spends : (f : InFrame) (g : Gateway a) → Spends g (receive_frame f g)
  unfolding receive_frame settled
  receive-Spends f g =
      let id = or_default f.request_id [] in
      elim (Option-cases (get id g.pending)) [
        | inl absent ↦ ground (arith, settled-deliver p f g.listeners)
        | inr (q, found) ↦
            ground (arith, settled-deliver p f g.listeners, waiting-delete-get p id q g.pending)
      ]

  connection-Spends : (b : Bool) (g : Gateway a) → Spends g (change_connection b g)
  unfolding change_connection settled waiting
  connection-Spends true g = omega arith
  connection-Spends false g = ground (arith, settled-reject_all p g.pending)

  -- A call is refused, or hands one frame down.
  gate-Spends :
      (b : Bool) (frame : OutFrame) (override : Option Text) (g g' : Gateway a)
      → quota p g' ≡ quota p g
      → Spends g (if b then send frame override g' else refuse g)
  gate-Spends b frame override g g' e =
      if-both (Spends g) b _ _ (rw (← e) (send-Spends frame override g')) (refuse-Spends g)

  step-Spends : (c : Call) (g : Gateway a) → Spends g (step c g)
  unfolding step settled
  step-Spends (request c t key) g = if-both (Spends g) (not (is_complete t)) _ _ (refuse-Spends g) (
      if-both (Spends g) (is_mutation c.type && not (truthy? key)) _ _ (refuse-Spends g) (
        send-Spends (runtime_request t c (if truthy? key then key else none)) none
          (subscribed t g)))
  step-Spends (send_host_request payload override) g = send-Spends (host_request payload) override g
  step-Spends (snapshot sid) g = gate-Spends _ _ none g g refl
  step-Spends (rebind_session t sid) g = gate-Spends _ _ none g g refl
  step-Spends (git c t) g = gate-Spends _ _ c.request_id g (subscribed t g) refl
  step-Spends (capabilities iid) g = gate-Spends _ _ none g g refl
  step-Spends (subscribe l) g = omega arith
  step-Spends (unsubscribe l) g = omega arith
  step-Spends (receive f) g = receive-Spends f g
  step-Spends (connection_changed b) g = connection-Spends b g

  run-Spends : (cs : List Call) (g : Gateway a) → Spends g (run cs g)
  unfolding run settled
  run-Spends [] g = omega arith
  run-Spends (c ∷ cs) g = omega (
    arith,
    settled-append p (step c g).1 (run cs (step c g).0).1,
    step-Spends c g,
    run-Spends cs (step c g).0,
  )

-- Over any calls, frames and connection changes, also with request ids that the callers repeat, no
-- promise of a new gateway is settled twice, and one that is settled is no longer waiting.
pub settled_at_most_once :
    (a : RuntimeAdapter) (s : a.State) (cs : List Call) (p : ℕ)
    → settled p (run cs (new a s)).1 + waiting p (run cs (new a s)).0.pending ≤ 1
unfolding new waiting
settled_at_most_once a s cs p = ground (arith, run-Spends p cs (new a s))
