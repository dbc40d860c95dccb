-- ===== src/Inbox/TaskStore/Examples.antt =====
-- An update of a persisted list.
use picot.Base.{
  ℕ, decimal, Text, ◌++◌, String, true, none, some, [], ◌∷◌, nat_eq, option_eq, codes, text_eq,
}
use picot.Inbox.Task.{Task, normalize_super_agent_task, mark_task_needs_input}
use picot.Inbox.TaskStore.{Plane, Updated, update_super_agent_task}

abbrev task : String → Task
task id = record {
  id = some (codes id);
  status = none;
  title = none;
  description = none;
  target_project = none;
  fail_reason = none;
  source = none;
  result = none;
  dispatch = none;
  events = none;
}

abbrev plane : Plane
plane = record { reads = true; writes = true; tasks = task "a" ∷ task "b" ∷ [] }

abbrev asking : Task → Task
asking t = mark_task_needs_input (codes "f") (codes "t") none t

abbrev fresh : ℕ → Text
fresh n = codes "f" ++ decimal n

abbrev found : Task
found = normalize_super_agent_task (fresh 1) (task "b")

-- Another writer empties the list between the read and the write.
abbrev emptied : Plane → Plane
emptied p = record p { tasks = [] }

abbrev outcome : Plane × Updated
outcome = update_super_agent_task fresh (codes "b") (λ t. some (asking t)) emptied plane
