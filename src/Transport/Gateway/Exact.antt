-- ===== src/Transport/Gateway/Exact.antt =====
-- `RuntimeGateway` (public/native/transport/runtime-gateway.js) under callers that leave the
-- request ids to it: no promise is lost.
use picot.Base.{
  ℕ, ◌+◌, ◌≤◌, ◌<◌, ◌≡◌, refl, ap, inl, inr, true, false, not, ◌&&◌, Option, none, some, List, [],
  ◌∷◌, ◌++◌, arith, nat_eq, Option-cases, if-both, option_eq, Text, codes, text_beq_iff, text_eq,
  decimal, decimal-injective, drop, All, or_default, truthy, truthy?,
}
use picot.JsMap.{
  get, set, delete, IsMap, get-set, get-delete, set-IsMap, delete-IsMap, delete_missing,
}
use picot.Transport.Target.{Target, is_complete}
use picot.Transport.Gateway.{
  entry_of, Gateway, RuntimeAdapter, Pending, InFrame, OutFrame, Effect, Call, send, refuse,
  receive_frame, change_connection, step, run, new, request_id_of, request, send_host_request,
  snapshot, rebind_session, git, capabilities, subscribe, unsubscribe, receive, connection_changed,
  subscribed, is_mutation,
}
use picot.Transport.Gateway.Accounts.{
  hit, settled, waiting, quota, settled-append, settled-deliver, settled-reject_all,
}

-- The call does not choose its own request id.
abbrev pub IsPlain : Call → Type 0
IsPlain (send_host_request payload override) = truthy? override ≡ false
IsPlain (git c t) = truthy? c.request_id ≡ false
IsPlain (request c t key) = Unit
IsPlain (snapshot sid) = Unit
IsPlain (rebind_session t sid) = Unit
IsPlain (capabilities iid) = Unit
IsPlain (subscribe l) = Unit
IsPlain (unsubscribe l) = Unit
IsPlain (receive f) = Unit
IsPlain (connection_changed b) = Unit

delete-set_new :
    (k : Text) (q : Pending) (m : List (Text × Pending)) → get k m ≡ none → delete k (set k q m) ≡ m
unfolding get set delete
delete-set_new k q [] h = ground (arith, text_beq_iff k k)
delete-set_new k q ((i, w) ∷ m) h = ground (arith, delete-set_new k q m)

waiting-set_new :
    (p : ℕ) (k : Text) (q : Pending) (m : List (Text × Pending))
    → get k m ≡ none
    → waiting p (set k q m) ≡ waiting p m + hit p q.promise
unfolding waiting get set
waiting-set_new p k q [] h = omega arith
waiting-set_new p k q ((i, w) ∷ m) h = ground (arith, waiting-set_new p k q m)

waiting-delete_eq :
    (p : ℕ) (k : Text) (q : Pending) (m : List (Text × Pending))
    → IsMap m
    → get k m ≡ some q
    → waiting p (delete k m) + hit p q.promise ≡ waiting p m
unfolding waiting get delete
waiting-delete_eq p k q [] u h = cc
waiting-delete_eq p k q ((i, w) ∷ m) u h =
    ground (arith, text_beq_iff i k, delete_missing i m u.0, waiting-delete_eq p k q m u.1)

abbrev client : ℕ → Text
client n = codes "client-" ++ decimal n

client-injective : (m n : ℕ) → client m ≡ client n → m ≡ n
client-injective m n h = decimal-injective m n (ap (drop 7) h)

request_id_of_plain :
    (override : Option Text) (n : ℕ)
    → truthy? override ≡ false
    → request_id_of override n ≡ client n
unfolding request_id_of
request_id_of_plain override n h = rw h

-- A key stands once in the table, and the ids to come are not in it.
pub record IsClean {a : RuntimeAdapter} (g : Gateway a) : Type 0 where
  pub unique : IsMap g.pending
  pub fresh : (k : ℕ) → g.next_request_id ≤ k → get (client k) g.pending ≡ none

module _ {a : RuntimeAdapter} where
  -- Nothing of a promise's quota is lost.
  abbrev Exact : ℕ → Gateway a → Gateway a × List Effect → Type 0
  Exact p g (g', es) = settled p es + quota p g' ≡ quota p g

  send-Exact :
      (p : ℕ) (frame : OutFrame) (override : Option Text) (g : Gateway a)
      → truthy? override ≡ false
      → IsClean g
      → Exact p g (send frame override g)
  unfolding send settled
  send-Exact p frame override g plain h =
      let id = client g.next_request_id in
      let entry = entry_of frame g in
      let vacant = h.fresh g.next_request_id (omega arith) in
      rw (request_id_of_plain override g.next_request_id plain) (
        ground (
          arith,
          waiting-set_new p id entry g.pending vacant,
          delete-set_new id entry g.pending vacant,
        ))

  send-IsClean :
      (frame : OutFrame) (override : Option Text) (g : Gateway a)
      → truthy? override ≡ false
      → IsClean g
      → IsClean (send frame override g).0
  unfolding send
  send-IsClean frame override g plain h =
      let id = client g.next_request_id in
      let entry = entry_of frame g in
      let vacant = h.fresh g.next_request_id (omega arith) in
      rw (request_id_of_plain override g.next_request_id plain) (record {
        unique = ground (
          arith,
          set-IsMap id entry g.pending h.unique,
          delete-set_new id entry g.pending vacant,
          h.unique,
        );
        fresh = λ k le. ground (
          arith,
          h.fresh k,
          get-set id (client k) entry g.pending,
          delete-set_new id entry g.pending vacant,
          text_beq_iff id (client k),
          client-injective g.next_request_id k,
        );
      })

  receive-Exact : (p : ℕ) (f : InFrame) (g : Gateway a) → IsClean g → Exact p g (receive_frame f g)
  unfolding receive_frame settled
  receive-Exact p f g h =
      let id = or_default f.request_id [] in
      elim (Option-cases (get id g.pending)) [
        | inl absent ↦ ground (arith, settled-deliver p f g.listeners)
        | inr (q, found) ↦ ground (
          arith,
          settled-deliver p f g.listeners,
          waiting-delete_eq p id q g.pending h.unique found,
        )
      ]

  receive-IsClean : (f : InFrame) (g : Gateway a) → IsClean g → IsClean (receive_frame f g).0
  unfolding receive_frame
  receive-IsClean f g h =
      let id = or_default f.request_id [] in
      record {
        unique = ground (arith, delete-IsMap id g.pending h.unique, h.unique);
        fresh = λ k le. ground (arith, h.fresh k, get-delete id (client k) g.pending);
      }

  -- Both at once, for the calls that are refused or hand a frame down.
  abbrev Careful : ℕ → Gateway a → Gateway a × List Effect → Type 0
  Careful p g (g', es) = Exact p g (g', es) × IsClean g'

  refuse-Careful : (p : ℕ) (g : Gateway a) → IsClean g → Careful p g (refuse g)
  unfolding refuse settled
  refuse-Careful p g h = (ground arith, record { unique = h.unique; fresh = h.fresh })

  send-Careful :
      (p : ℕ) (frame : OutFrame) (override : Option Text) (g : Gateway a)
      → truthy? override ≡ false
      → IsClean g
      → Careful p g (send frame override g)
  send-Careful p frame override g plain h =
      (send-Exact p frame override g plain h, send-IsClean frame override g plain h)

  subscribed-IsClean : (t : Target) (g : Gateway a) → IsClean g → IsClean (subscribed t g)
  subscribed-IsClean t g h = record { unique = h.unique; fresh = h.fresh }

  step-Careful : (p : ℕ) (c : Call) (g : Gateway a) → IsPlain c → IsClean g → Careful p g (step c g)
  unfolding step settled change_connection get
  step-Careful p (request c t key) g plain h =
      if-both (Careful p g) (not (is_complete t)) _ _ (refuse-Careful p g h) (
        if-both (Careful p g) (is_mutation c.type && not (truthy? key)) _ _ (refuse-Careful p g h)
          (send-Careful p _ none (subscribed t g) refl (subscribed-IsClean t g h)))
  step-Careful p (send_host_request payload override) g plain h =
      send-Careful p _ override g plain h
  step-Careful p (snapshot sid) g plain h =
      if-both (Careful p g) (truthy sid) _ _ (send-Careful p _ none g refl h) (refuse-Careful p g h)
  step-Careful p (rebind_session t sid) g plain h =
      if-both (Careful p g) (is_complete t && truthy sid) _ _ (send-Careful p _ none g refl h)
        (refuse-Careful p g h)
  step-Careful p (git c t) g plain h =
      if-both (Careful p g) (is_complete t) _ _
        (send-Careful p _ c.request_id (subscribed t g) plain (subscribed-IsClean t g h))
        (refuse-Careful p g h)
  step-Careful p (capabilities iid) g plain h =
      if-both (Careful p g) (truthy iid) _ _ (send-Careful p _ none g refl h) (refuse-Careful p g h)
  step-Careful p (subscribe l) g plain h =
      (omega arith, record { unique = h.unique; fresh = h.fresh })
  step-Careful p (unsubscribe l) g plain h =
      (omega arith, record { unique = h.unique; fresh = h.fresh })
  step-Careful p (receive f) g plain h = (receive-Exact p f g h, receive-IsClean f g h)
  step-Careful p (connection_changed true) g plain h = (omega arith, h)
  step-Careful p (connection_changed false) g plain h = (
    unfold waiting in ground (arith, settled-reject_all p g.pending),
    record { unique = tt; fresh = λ k le. refl },
  )

  run-Careful :
      (p : ℕ) (cs : List Call) (g : Gateway a) → All IsPlain cs → IsClean g → Careful p g (run cs g)
  unfolding run settled
  run-Careful p [] g plain h = (omega arith, h)
  run-Careful p (c ∷ cs) g plain h =
      let now = step-Careful p c g plain.0 h in
      let later = run-Careful p cs (step c g).0 plain.1 now.1 in
      (
        omega (arith, settled-append p (step c g).1 (run cs (step c g).0).1, now.0, later.0),
        later.1,
      )

-- When the callers leave the request ids to the gateway and the connection is lost after any
-- calls and frames, each promise that the gateway has made has been settled exactly once: by a
-- reply, at its creation, or by the loss of the connection.
pub disconnect_settles_each :
    (a : RuntimeAdapter) (s : a.State) (cs : List Call) (p : ℕ)
    → All IsPlain cs
    → p < (run cs (new a s)).0.promises
    → let g = (run cs (new a s)).0 in
      settled p (run cs (new a s)).1 + settled p (step (connection_changed false) g).1 ≡ 1
unfolding new step change_connection waiting get
disconnect_settles_each a s cs p plain issued =
    let done = run-Careful p cs (new a s) plain (record { unique = tt; fresh = λ k le. refl }) in
    ground (arith, done.0, settled-reject_all p (run cs (new a s)).0.pending)
