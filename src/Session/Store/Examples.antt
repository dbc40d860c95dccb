-- ===== src/Session/Store/Examples.antt =====
-- Runs of the session store.
use picot.Base.{
  ℕ, zero, suc, ◌+◌, ◌≡◌, refl, true, false, none, some, [], ◌∷◌, arith, nat_eq, option_eq, codes,
  text_beq, text_eq,
}
use picot.Transport.Target.{Target, same_target}
use picot.Session.Store.{
  create_session_store, RuntimeEvent, agent_start, agent_end, extension_ui_request,
  apply_runtime_event, Snapshot, runtime_snapshot, restore, reduce_own, reduce_session_state,
  reduce_all, working,
}
use picot.Session.Store.Sequence.{
  deliveries, applied, following, deliveries_in_sequence, snapshot_recovers,
}

abbrev home : Target
home = record { workspace_id = codes "w"; session_id = codes "s"; instance_id = codes "i" }

abbrev turn : ℕ → RuntimeEvent
turn zero = agent_end
turn (suc zero) = agent_start
turn (suc (suc zero)) = extension_ui_request (codes "ask")
turn (suc (suc (suc n))) = agent_end

abbrev empty_snapshot : Snapshot
empty_snapshot = record {
  lifecycle = some working;
  active_leaf_id = none;
  messages = none;
  streaming = none;
  tools = none;
  queue = none;
  retry = none;
  compaction = none;
  dialogs = none;
  model = none;
  thinking_level = none;
  context_usage = none;
  cost = none;
}

-- A repeated event is dropped and a gap asks for a snapshot.
gap_run :
    reduce_all (deliveries turn home (1 ∷ 1 ∷ 3 ∷ [])) (create_session_store home)
    ≡ record (create_session_store home) {
      sequence = 1;
      snapshot_required = true;
      lifecycle = working;
    }
unfolding reduce_all reduce_session_state reduce_own create_session_store apply_runtime_event
    same_target text_beq
gap_run = refl

deliveries_in_sequence_example :
    (n : ℕ) × ((reduce_all
        (deliveries turn home (1 ∷ 3 ∷ 2 ∷ 3 ∷ []))
        (create_session_store home)).sequence
      ≡ 0 + n)
    × (record (reduce_all (deliveries turn home (1 ∷ 3 ∷ 2 ∷ 3 ∷ [])) (create_session_store home)) {
      snapshot_required = false;
    }
        ≡ record (applied turn n (create_session_store home)) { snapshot_required = false })
unfolding create_session_store
deliveries_in_sequence_example =
    deliveries_in_sequence turn (create_session_store home) (1 ∷ 3 ∷ 2 ∷ 3 ∷ [])

snapshot_recovers_example :
    (reduce_all (deliveries turn home (2 ∷ 3 ∷ [])) (create_session_store home)
      ≡ record (create_session_store home) { snapshot_required = true })
    × (reduce_all
          ((some home, runtime_snapshot 1 empty_snapshot) ∷ deliveries turn home (following 1 2))
          (reduce_all (deliveries turn home (2 ∷ 3 ∷ [])) (create_session_store home))
        ≡ applied turn 2 (restore 1 empty_snapshot (create_session_store home)))
unfolding create_session_store
snapshot_recovers_example =
    snapshot_recovers turn (create_session_store home) 2 (3 ∷ []) 1 2 empty_snapshot
      (omega arith, (omega arith, tt))
