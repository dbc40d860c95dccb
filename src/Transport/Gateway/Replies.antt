-- ===== src/Transport/Gateway/Replies.antt =====
-- The replies of `RuntimeGateway` (public/native/transport/runtime-gateway.js): which frames settle
-- a request, and which go to the listeners.
use picot.Base.{
  ℕ, ◌≡◌, refl, inl, inr, Bool, true, false, not, ◌&&◌, Option, none, some, List, [], ◌∷◌, map,
  arith, ap, if◌then◌else◌, nat_eq, Option-cases, if-both, option_eq, Text, text_eq, or_default,
  truthy, truthy?,
}
use picot.JsMap.{get, set, delete, get-delete_self}
use picot.Transport.Target.{is_complete}
use picot.Transport.Gateway.{
  entry_of, whole, rebound, Gateway, RuntimeAdapter, Pending, InFrame, OutFrame, host_request,
  runtime_request, Effect, Call, deliver, send, refuse, receive_frame, change_connection, delivered,
  resolved, rejected, reported, step, run, new, request_id_of, request, send_host_request, snapshot,
  rebind_session, git, capabilities, subscribe, unsubscribe, receive, connection_changed,
  subscribed, is_mutation,
}

-- Every waiting entry was made under the generation `n`.
unfoldable pub Current : ℕ → List (Text × Pending) → Type 0
Current n [] = Unit
Current n ((id, q) ∷ m) = (q.generation ≡ n) × Current n m

Current-set :
    (n : ℕ) (k : Text) (q : Pending) (m : List (Text × Pending))
    → q.generation ≡ n
    → Current n m
    → Current n (set k q m)
unfolding Current set
Current-set n k q [] e h = (e, tt)
Current-set n k q ((i, w) ∷ m) e h = ground (arith, Current-set n k q m e h.1)

Current-delete :
    (n : ℕ) (k : Text) (m : List (Text × Pending)) → Current n m → Current n (delete k m)
unfolding Current delete
Current-delete n k [] h = tt
Current-delete n k ((i, w) ∷ m) h = ground (arith, Current-delete n k m h.1)

Current-get :
    (n : ℕ) (k : Text) (m : List (Text × Pending)) (q : Pending)
    → Current n m
    → get k m ≡ some q
    → q.generation ≡ n
unfolding Current get
Current-get n k [] q h e = cc
Current-get n k ((i, w) ∷ m) q h e = ground (arith, Current-get n k m q h.1)

module _ {a : RuntimeAdapter} where
  abbrev pub IsCurrent : Gateway a → Type 0
  IsCurrent g = Current g.generation g.pending

  abbrev Keeps : Gateway a × List Effect → Type 0
  Keeps (g, es) = IsCurrent g

  send-IsCurrent :
      (frame : OutFrame) (override : Option Text) (g : Gateway a)
      → IsCurrent g
      → IsCurrent (send frame override g).0
  unfolding send
  send-IsCurrent frame override g h =
      let id = request_id_of override g.next_request_id in
      let entry = entry_of frame g in
      let stored = Current-set g.generation id entry g.pending refl h in
      ground (arith, stored, Current-delete g.generation id (set id entry g.pending) stored)

  receive-IsCurrent : (f : InFrame) (g : Gateway a) → IsCurrent g → IsCurrent (receive_frame f g).0
  unfolding receive_frame
  receive-IsCurrent f g h =
      ground (arith, Current-delete g.generation (or_default f.request_id []) g.pending h)

  gate-IsCurrent :
      (b : Bool) (frame : OutFrame) (override : Option Text) (g g' : Gateway a)
      → IsCurrent g
      → IsCurrent g'
      → IsCurrent (if b then send frame override g' else refuse g).0
  unfolding refuse
  gate-IsCurrent b frame override g g' h h' =
      if-both Keeps b _ _ (send-IsCurrent frame override g' h') h

  step-IsCurrent : (c : Call) (g : Gateway a) → IsCurrent g → IsCurrent (step c g).0
  unfolding step change_connection Current
  step-IsCurrent (request c t key) g h = if-both Keeps (not (is_complete t)) _ _ h (
      if-both Keeps (is_mutation c.type && not (truthy? key)) _ _ h (
        send-IsCurrent (runtime_request t c (if truthy? key then key else none)) none
          (subscribed t g) h))
  step-IsCurrent (send_host_request payload override) g h =
      send-IsCurrent (host_request payload) override g h
  step-IsCurrent (snapshot sid) g h = gate-IsCurrent _ _ none g g h h
  step-IsCurrent (rebind_session t sid) g h = gate-IsCurrent _ _ none g g h h
  step-IsCurrent (git c t) g h = gate-IsCurrent _ _ c.request_id g (subscribed t g) h h
  step-IsCurrent (capabilities iid) g h = gate-IsCurrent _ _ none g g h h
  step-IsCurrent (subscribe l) g h = h
  step-IsCurrent (unsubscribe l) g h = h
  step-IsCurrent (receive f) g h = receive-IsCurrent f g h
  step-IsCurrent (connection_changed true) g h = h
  step-IsCurrent (connection_changed false) g h = tt

  run-IsCurrent : (cs : List Call) (g : Gateway a) → IsCurrent g → IsCurrent (run cs g).0
  unfolding run
  run-IsCurrent [] g h = h
  run-IsCurrent (c ∷ cs) g h = run-IsCurrent cs (step c g).0 (step-IsCurrent c g h)

deliver_lem : (f : InFrame) (ls : List ℕ) → deliver f ls ≡ map (λ l. delivered l f) ls
unfolding deliver
deliver_lem f [] = refl
deliver_lem f (l ∷ ls) = ap (λ es. delivered l f ∷ es) (deliver_lem f ls)

-- In every state that a new gateway reaches, a frame whose request id waits settles that request's
-- promise and no other, which it rejects with the frame's error if there is one, and if there is none
-- resolves with the frame, or for a rebinding with the target in it, takes the request off the table and reaches no listener; a second
-- frame under the same id then settles nothing and reaches every listener, once each and in order.
-- So does a frame under any other request id, an empty one or none at all, and it changes nothing.
pub receive_reached :
    (a : RuntimeAdapter) (s : a.State) (cs : List Call) (f f' : InFrame)
    → f'.request_id ≡ f.request_id
    → let g = (run cs (new a s)).0 in
      let id = or_default f.request_id [] in
      let found = if truthy id then get id g.pending else none in
      let (g', es) = receive_frame f g in
      (g' ≡ elim found [ none ↦ g | some q ↦ record g { pending = delete id g.pending } ])
      × (es ≡ elim found [
        | none ↦ map (λ l. delivered l f) g.listeners
        | some q ↦ elim f.error [
          | none ↦ resolved q.promise (if q.rebinds then rebound f.target else whole f) ∷ []
          | some e ↦ rejected q.promise (reported e) ∷ []
        ]
      ])
      × (receive_frame f' g' ≡ (g', map (λ l. delivered l f') g.listeners))
unfolding receive_frame new Current
receive_reached a s cs f f' same =
    let g = (run cs (new a s)).0 in
    let id = or_default f.request_id [] in
    let current : IsCurrent g = run-IsCurrent cs (new a s) tt in
    elim (Option-cases (get id g.pending)) [
      | inl absent ↦ ground (arith, absent, deliver_lem f g.listeners, deliver_lem f' g.listeners)
      | inr (q, found) ↦ ground (
        arith,
        found,
        Current-get g.generation id g.pending q current found,
        get-delete_self id g.pending,
        deliver_lem f g.listeners,
        deliver_lem f' g.listeners,
      )
    ]
