-- ===== src/Transport/Adapter/Reconnect.antt =====
-- The reconnection of `HostRuntimeAdapter` (public/native/transport/runtime-adapter.js).
use picot.Base.{
  ℕ, zero, suc, ◌+◌, ◌*◌, ◌^◌, min, ◌≡◌, refl, sym, subst, true, false, none, some, List, [], ◌∷◌,
  ◌++◌, append_assoc, append-nil, arith, nat_eq, ==_refl, option_eq, text_eq,
}
use picot.Transport.Adapter.{
  HostAdapter, Socket, Output, opened, connection, scheduled, Event, fires, closes, moves,
  schedule_reconnect, connect, on_close, on_timer, step, run,
}

-- The delay after `a` failed attempts.
abbrev pub backoff : ℕ → ℕ → ℕ → ℕ
backoff base limit a = min (base * 2 ^ a) limit

-- The platform closes the current socket and its timer fires, `n` times: first socket `id`, then
-- those that the adapter opens, numbered from `next`.
pub outages : ℕ → ℕ → ℕ → List Event
outages zero id next = []
outages (suc n) id next = moves 3 ∷ closes id ∷ fires ∷ outages n next (suc next)

pub outages_log : ℕ → ℕ → ℕ → ℕ → ℕ → List Output
outages_log base limit zero a next = []
outages_log base limit (suc n) a next =
    connection false
    ∷ scheduled (backoff base limit a)
    ∷ opened next
    ∷ outages_log base limit n (suc a) (suc next)

abbrev after_outage : HostAdapter → HostAdapter
after_outage s = record s {
  connected = false;
  reconnect_attempts = suc s.reconnect_attempts;
  reconnect_timer = none;
  socket = some (record { id = s.sockets; ready_state = 0 });
  sockets = suc s.sockets;
  log =
      s.log
      ++ connection false
        ∷ scheduled (backoff s.base_delay s.max_delay s.reconnect_attempts)
        ∷ opened s.sockets
        ∷ [];
}

abbrev retrying : HostAdapter → Socket → HostAdapter
retrying s k = record s { socket = some k; should_reconnect = true; reconnect_timer = none }

one_outage :
    (s : HostAdapter) (k : Socket)
    → step fires (step (closes k.id) (step (moves 3) (retrying s k))) ≡ after_outage (retrying s k)
unfolding step on_close schedule_reconnect on_timer connect
one_outage s k = rw (==_refl k.id) (
    ground (
      arith,
      append_assoc (s.log ++ connection false ∷ [])
          (scheduled (backoff s.base_delay s.max_delay s.reconnect_attempts) ∷ [])
          (opened s.sockets ∷ []),
      append_assoc s.log (connection false ∷ []) (
          scheduled (backoff s.base_delay s.max_delay s.reconnect_attempts)
          ∷ opened s.sockets
          ∷ []),
    ))

abbrev Retries : ℕ → ℕ → HostAdapter → HostAdapter → Type 0
Retries n next s t =
    (t.log ≡ s.log ++ outages_log s.base_delay s.max_delay n s.reconnect_attempts next)
    × (t.reconnect_attempts ≡ s.reconnect_attempts + n)
    × (t.reconnect_timer ≡ none)
    × (t.should_reconnect ≡ true)

outages-retrying :
    (n : ℕ) (s : HostAdapter) (k : Socket)
    → Retries n s.sockets s (run (outages n k.id s.sockets) (retrying s k))
unfolding run outages outages_log
outages-retrying zero s k = (ground (arith, append-nil s.log), omega arith, refl, refl)
outages-retrying (suc n) s k =
    let t = after_outage (retrying s k) in
    let later = outages-retrying n t (record { id = s.sockets; ready_state = 0 }) in
    subst (λ r. Retries (suc n) s.sockets s (run (outages n s.sockets (suc s.sockets)) r))
      (sym (one_outage s k))
      (
        ground (
          arith,
          later.0,
          append_assoc s.log
              (connection false
                ∷ scheduled (backoff s.base_delay s.max_delay s.reconnect_attempts)
                ∷ opened s.sockets
                ∷ [])
              (outages_log s.base_delay s.max_delay n (suc s.reconnect_attempts) (suc s.sockets)),
        ),
        omega (arith, later.1),
        later.2,
        later.3,
      )

-- An adapter that wants its connection and has no reconnect timer pending, and whose socket the
-- platform closes `n` times in a row without a hello acknowledged in between, tells the listeners each time, waits each time twice as
-- long as before up to the limit, and opens a new socket each time: it never gives up.
pub outages_retry :
    (n : ℕ) (s : HostAdapter) (k : Socket)
    → s.socket ≡ some k
    → s.should_reconnect ≡ true
    → s.reconnect_timer ≡ none
    → let t = run (outages n k.id s.sockets) s in
      (t.log ≡ s.log ++ outages_log s.base_delay s.max_delay n s.reconnect_attempts s.sockets)
      × (t.reconnect_attempts ≡ s.reconnect_attempts + n)
      × (t.reconnect_timer ≡ none)
      × (t.should_reconnect ≡ true)
outages_retry n s k here wanted idle =
    let same : s ≡ retrying s k = ground arith in
    subst (λ r. Retries n s.sockets s (run (outages n k.id s.sockets) r)) (sym same)
      (outages-retrying n s k)
