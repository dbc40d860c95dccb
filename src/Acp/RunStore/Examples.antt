-- ===== src/Acp/RunStore/Examples.antt =====
-- A run is written and read back.
use picot.Base.{
  suc, ◌-◌, ◌≤◌, ◌≡◌, refl, true, false, none, some, [], ◌∷◌, ◌++◌, arith, if◌then◌else◌, nat_eq,
  option_eq, codes, text_beq, text_beq_iff, text_eq, length, drop, is_some,
}
use picot.JsMap.{get}
use picot.Acp.RunStore.{max_runs_per_session, Run, Storage, read_runs, write_run, record_of}
use picot.Acp.RunStore.Upsert.{run_of, Unique, upsert}
use picot.Acp.RunStore.Laws.{write-read}

abbrev fresh_run : Run
fresh_run = record {
  id = some (codes "r1");
  agent_id = none;
  agent_label = none;
  task_text = some (codes "look");
  started_at = none;
  finished_at = none;
  status = none;
  result_text = none;
  result_sent = false;
  state_blocks = none;
  blocks = none;
}

abbrev empty_storage : Storage
empty_storage = record { available = true; writable = true; items = [] }

write-read_example :
    (run_of (codes "r1") (read_runs (codes "s") (write_run (codes "s") fresh_run empty_storage))
      ≡ some (record_of (codes "r1") fresh_run))
    × (read_runs (codes "s") (write_run (codes "s") fresh_run empty_storage) ≡ (
        if is_some (run_of (codes "r1") (read_runs (codes "s") empty_storage))
        then upsert (record_of (codes "r1") fresh_run) (read_runs (codes "s") empty_storage)
        else drop
            (suc (length (read_runs (codes "s") empty_storage)) - max_runs_per_session)
            (read_runs (codes "s") empty_storage)
          ++ record_of (codes "r1") fresh_run ∷ []))
    × (length (read_runs (codes "s") (write_run (codes "s") fresh_run empty_storage))
        ≤ max_runs_per_session)
    × Unique (read_runs (codes "s") (write_run (codes "s") fresh_run empty_storage))
    × (read_runs (codes "t") (write_run (codes "s") fresh_run empty_storage)
        ≡ read_runs (codes "t") empty_storage)
unfolding read_runs get text_beq
write-read_example =
    write-read (codes "s") (codes "t") 114 (codes "1") fresh_run empty_storage refl refl refl refl
      tt (omega arith) (ground (arith, text_beq_iff (codes "s") (codes "t")))
