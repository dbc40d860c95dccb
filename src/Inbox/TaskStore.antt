-- ===== src/Inbox/TaskStore.antt =====
-- `updateSuperAgentTask` of public/super-agent/task-store.js: the read-modify-write of the persisted
-- list. The data plane that `call` reaches is `Plane`: whether it answers a read and a write, and the
-- list it holds. `fresh` gives the id that a task without one gets, by its place in the list, and
-- `later` what others make of the plane between the answer to the read and the write.
pub mod Replaced
pub mod Examples
use picot.Base.{
  ℕ, suc, Bool, not, Option, none, some, List, [], ◌∷◌, if◌then◌else◌, ◌==◌, nat_eq, option_eq,
  Text, text_eq,
}
use picot.Inbox.Task.{Task, normalize_super_agent_task}

pub record Plane : Type 0 where
  pub reads : Bool
  pub writes : Bool
  pub tasks : List Task

pub data Updated : Type 0 where
  missing read_failed write_failed : Updated
  updated : Task → Updated

-- The tasks from place `n` on.
unfoldable pub normalize_super_agent_tasks : (ℕ → Text) → ℕ → List Task → List Task
unfolding normalize_super_agent_task
normalize_super_agent_tasks fresh n [] = []
normalize_super_agent_tasks fresh n (t ∷ ts) =
    normalize_super_agent_task (fresh n) t ∷ normalize_super_agent_tasks fresh (suc n) ts

-- `tasks.find((task) => task.id === taskId)`
unfoldable pub find_task : Text → List Task → Option Task
find_task id [] = none
find_task id (t ∷ ts) = if t.id == some id then some t else find_task id ts

-- `tasks[index] = next` at the first task of the id.
unfoldable pub replace_task : Text → Task → List Task → List Task
replace_task id next [] = []
replace_task id next (t ∷ ts) = if t.id == some id then next ∷ ts else t ∷ replace_task id next ts

unfoldable pub update_super_agent_task :
    (ℕ → Text) → Text → (Task → Option Task) → (Plane → Plane) → Plane → Plane × Updated
unfolding normalize_super_agent_tasks find_task replace_task
update_super_agent_task fresh id updater later p =
    let tasks = normalize_super_agent_tasks fresh 0 p.tasks in
    if not p.reads then (p, read_failed) else elim (find_task id tasks) [
      | none ↦ (p, missing)
      | some t ↦ elim (updater t) [
        | none ↦ (p, missing)
        | some next ↦
            let q = later p in
            if q.writes
            then (record q { tasks = replace_task id next tasks }, updated next)
            else (q, write_failed)
      ]
    ]
