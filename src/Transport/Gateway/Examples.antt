-- ===== src/Transport/Gateway/Examples.antt =====
-- Runs of `RuntimeGateway` over the in-memory adapter of its own file.
use picot.Base.{
  ◌+◌, ◌≤◌, ◌≡◌, refl, false, none, some, List, [], ◌∷◌, ◌++◌, arith, nat_eq, option_eq, codes,
  text_beq, text_eq, decimal,
}
use picot.JsMap.{get, set, delete}
use picot.Transport.Target.{Target, is_complete}
use picot.Transport.Gateway.{
  whole, rebound, rebind_session, Gateway, InFrame, reported, resolved, rejected, delivered,
  disconnected, Call, request, snapshot, subscribe, receive, connection_changed, run, step, new,
  is_mutation, request_id_of, send, refuse, receive_frame, change_connection, deliver, reject_all,
}
use picot.Transport.Gateway.Accounts.{settled, waiting, settled_at_most_once}
use picot.Transport.Gateway.Exact.{disconnect_settles_each}
use picot.Transport.Gateway.Replies.{receive_reached}
use picot.Transport.Memory.{memory_adapter, new_memory}

abbrev home : Target
home = record { workspace_id = codes "w"; session_id = codes "s"; instance_id = codes "i" }

abbrev away : Target
away = record { workspace_id = codes "w"; session_id = codes "t"; instance_id = codes "i" }

abbrev first_reply : InFrame
first_reply = record {
  request_id = some (codes "client-1");
  error = none;
  target = some away;
  body = codes "ok";
}

-- Two snapshots are asked for, the first is answered, and the connection goes.
abbrev busy : List Call
busy = subscribe 7 ∷ snapshot (codes "s") ∷ snapshot (codes "t") ∷ receive first_reply ∷ []

abbrev keyless : Call
keyless = request (record { type = codes "prompt"; request_id = none; body = codes "hi" }) home none

busy-run : (run busy (new memory_adapter new_memory)).1 ≡ resolved 0 (whole first_reply) ∷ []
unfolding run step send receive_frame request_id_of decimal new get set delete text_beq deliver
busy-run = refl

-- A mutation without an idempotency key is refused.
keyless-run : (run (keyless ∷ []) (new memory_adapter new_memory)).0.pending ≡ []
unfolding run step is_complete is_mutation refuse new text_beq
keyless-run = refl

-- A rebinding resolves with the target that the host answers.
abbrev moving : List Call
moving = rebind_session home (codes "t") ∷ receive first_reply ∷ []

moving-run : (run moving (new memory_adapter new_memory)).1 ≡ resolved 0 (rebound (some away)) ∷ []
unfolding run step is_complete send receive_frame request_id_of decimal new get set delete text_beq
    deliver
moving-run = refl

-- A late reply of an old connection goes to the listeners.
late_run :
    (run
      (busy ++ connection_changed false ∷ receive first_reply ∷ [])
      (new memory_adapter new_memory)).1
    ≡ resolved 0 (whole first_reply) ∷ rejected 1 disconnected ∷ delivered 7 first_reply ∷ []
unfolding run step send receive_frame request_id_of decimal new get set delete text_beq deliver
    change_connection reject_all
late_run = refl

settled_at_most_once_example :
    settled 0 (run busy (new memory_adapter new_memory)).1
      + waiting 0 (run busy (new memory_adapter new_memory)).0.pending
    ≤ 1
settled_at_most_once_example = settled_at_most_once memory_adapter new_memory busy 0

disconnect_settles_each_example :
    settled 1 (run busy (new memory_adapter new_memory)).1
      + settled 1 (step (connection_changed false) (run busy (new memory_adapter new_memory)).0).1
    ≡ 1
unfolding run step send receive_frame request_id_of decimal new get set delete text_beq deliver
disconnect_settles_each_example =
    disconnect_settles_each memory_adapter new_memory busy 1 (tt, (tt, (tt, (tt, tt))))
      (omega arith)

-- The host reports an error for the first snapshot, and the same id comes a second time.
abbrev error_reply : InFrame
error_reply = record {
  request_id = some (codes "client-1");
  error = some (codes "no");
  target = none;
  body = codes "failed";
}

abbrev asking : List Call
asking = subscribe 7 ∷ subscribe 8 ∷ snapshot (codes "s") ∷ snapshot (codes "t") ∷ []

abbrev asked : Gateway memory_adapter
asked = (run asking (new memory_adapter new_memory)).0

abbrev reported_state : Gateway memory_adapter
reported_state = (receive_frame error_reply asked).0

receive_reached_example :
    (reported_state ≡ record asked { pending = delete (codes "client-1") asked.pending })
    × ((receive_frame error_reply asked).1 ≡ rejected 0 (reported (codes "no")) ∷ [])
    × (receive_frame first_reply reported_state
        ≡ (reported_state, delivered 7 first_reply ∷ delivered 8 first_reply ∷ []))
unfolding run step send receive_frame request_id_of decimal new get set delete text_beq
receive_reached_example =
    receive_reached memory_adapter new_memory asking error_reply first_reply refl
