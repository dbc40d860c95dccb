-- ===== src/Inbox/Prompt/Examples.antt =====
-- Prompts of one task.
use picot.Base.{
  ◌≡◌, refl, none, some, [], ◌∷◌, ◌++◌, nat_eq, option_eq, codes, text_beq, text_eq, split, join,
  get_elem?,
}
use picot.Inbox.Task.{Task, normalize_super_agent_task}
use picot.Inbox.Prompt.{
  newline, build_project_agent_prompt, build_task_composer_prompt,
  build_super_agent_notification_prompt, notification_lines, format_reply_target,
}
use picot.Inbox.Prompt.Lines.{prompt_names_task}

abbrev stored : Task
stored = record {
  id = some (codes "task-1");
  status = none;
  title = some (codes "Fix it");
  description = some (codes "now");
  target_project = none;
  fail_reason = none;
  source = none;
  result = none;
  dispatch = none;
  events = none;
}

notification :
    build_super_agent_notification_prompt (some (codes "done")) (some (codes "ok")) none [] stored
    ≡ codes "Task done: \"Fix it\""
      ++ 10 ∷ codes "Task ID: task-1"
      ++ 10 ∷ codes "Summary: ok"
      ++ 10 ∷ codes "Use the source binding above when replying to the original user."
unfolding build_super_agent_notification_prompt notification_lines format_reply_target
    normalize_super_agent_task join text_beq
notification = refl

prompt_names_task_example :
    (get_elem? (split newline (build_project_agent_prompt (codes "f") stored)) 0
      ≡ some (codes "Task ID: task-1"))
    × (get_elem? (split newline (build_task_composer_prompt (codes "f") stored)) 1
        ≡ some (codes "Task ID: task-1"))
prompt_names_task_example =
    prompt_names_task (codes "f") stored (refl, (refl, (refl, (refl, (refl, (refl, tt))))))
