-- ===== src/Acp/RunStore/Laws.antt =====
-- What the store of runs keeps: public/native/acp/subagent-store.js.
use picot.Base.{
  ℕ, suc, ◌-◌, ◌≤◌, ◌≡◌, refl, ap, ◌∙◌, ◌≢◌, true, ◌&&◌, some, List, [], ◌∷◌, ◌++◌, arith,
  if◌then◌else◌, ◌==◌, nat_eq, ==_refl, option_eq, Text, text_beq_iff, text_eq, length, drop,
  is_some, truthy,
}
use picot.JsMap.{set, values, get-set}
use picot.Acp.RunStore.{
  RunRecord, Run, Storage, runs, max_runs_per_session, key_for, read_runs, persist, record_of, cap,
  write_run,
}
use picot.Acp.RunStore.Upsert.{
  run_of, Unique, upsert, by_id_lem, Apart-nil, values-set, upsert-Unique, cap-upsert, length-cap,
  cap-Unique, run_of-cap,
}

key_for-injective : (a b : Text) → key_for a ≡ key_for b → a ≡ b
key_for-injective a b e = ap (drop 20) e

read-persist :
    (sid other : Text) (l : List RunRecord) (s : Storage)
    → s.available ≡ true
    → s.writable ≡ true
    → read_runs other (persist sid l s)
      ≡ (if truthy other && sid == other then l else read_runs other s)
unfolding read_runs persist
read-persist sid other l s readable writes =
    rw (readable, writes)
      (ground (
        arith,
        get-set (key_for sid) (key_for other) (runs l) s.items,
        text_beq_iff (key_for sid) (key_for other),
        text_beq_iff sid other,
        key_for-injective sid other,
        ap key_for {x = sid} {y = other},
      ))

write_lem :
    (sid : Text) (c : ℕ) (id : Text) (run : Run) (s : Storage)
    → truthy sid ≡ true
    → run.id ≡ some (c ∷ id)
    → Unique (read_runs sid s)
    → write_run sid run s ≡ persist sid (cap (upsert (record_of (c ∷ id) run) (read_runs sid s))) s
unfolding write_run record_of
write_lem sid c id run s named has_id u =
    rw (named, has_id)
      (ap (λ l. persist sid (cap l) s)
        (ap (λ m. values (set (c ∷ id) (record_of (c ∷ id) run) m))
            (by_id_lem (read_runs sid s) [] u (Apart-nil (read_runs sid s)))
          ∙ unfold record_of in values-set (record_of (c ∷ id) run) (read_runs sid s)))

-- A run with an id, written for a session with an id where the storage works, over a list of at
-- most twenty records with ids that all differ, can be read back: its session's list holds the record that was written, under ids that all differ, and at most twenty records; every other
-- session's list is as before. In the list the record stands where the run with its id stood, or
-- else at the end, and only then and only from a full list the oldest record is gone.
pub write-read :
    (sid other : Text) (c : ℕ) (id : Text) (run : Run) (s : Storage)
    → truthy sid ≡ true
    → run.id ≡ some (c ∷ id)
    → s.available ≡ true
    → s.writable ≡ true
    → Unique (read_runs sid s)
    → length (read_runs sid s) ≤ max_runs_per_session
    → sid ≢ other
    → let old = read_runs sid s in
      let new = read_runs sid (write_run sid run s) in
      let x = record_of (c ∷ id) run in
      (run_of (c ∷ id) new ≡ some x)
      × (new ≡ (
          if is_some (run_of (c ∷ id) old)
          then upsert x old
          else drop (suc (length old) - max_runs_per_session) old ++ x ∷ []))
      × (length new ≤ max_runs_per_session)
      × Unique new
      × (read_runs other (write_run sid run s) ≡ read_runs other s)
write-read sid other c id run s named has_id readable writes u short apart =
    let old = read_runs sid s in
    let x = record_of (c ∷ id) run in
    let l = cap (upsert x old) in
    let written = write_lem sid c id run s named has_id u in
    let back : read_runs sid (write_run sid run s) ≡ l =
      ap (read_runs sid) written
      ∙ read-persist sid sid l s readable writes
      ∙ rw (named, ==_refl sid) refl in
    rw back (
      unfold record_of in run_of-cap x old short,
      unfold record_of in cap-upsert x old short,
      length-cap (upsert x old),
      cap-Unique (upsert x old) (upsert-Unique x old u),
      ap (read_runs other) written
          ∙ read-persist sid other l s readable writes
          ∙ ground (arith, text_beq_iff sid other),
    )
