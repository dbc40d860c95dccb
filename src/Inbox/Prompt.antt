-- ===== src/Inbox/Prompt.antt =====
-- The prompts that public/super-agent/task-state.js builds from a task, line by line.
pub mod Lines
pub mod Examples
use picot.Base.{
  ℕ, ◌+◌, not, ◌||◌, Option, none, some, List, [], ◌∷◌, ◌++◌, if◌then◌else◌, ◌==◌, nat_eq,
  option_eq, Text, codes, text_eq, join, keep, any, or_default, truthy, truthy?, or_text,
}
use picot.Inbox.Task.{Source, Task, source_of, normalize_super_agent_task}

abbrev pub newline : ℕ
newline = 10

-- The channel of a normalized source, if it names one.
abbrev pub channel_of : Source → Text
channel_of s = or_default (or_default s.channel none) []

-- `[a, b].filter(Boolean).join("/")` of a source that is not local.
unfoldable pub format_reply_target : Source → Option Text
unfolding join
format_reply_target s =
    let channel = channel_of s in
    if not (truthy channel) || channel == codes "local"
    then none
    else some (join 47 (keep truthy (channel ∷ or_default s.conversation_id [] ∷ [])))

-- A labelled part, when its value is not empty.
abbrev pub labelled : Text → Option Text → List Text
labelled label v = if truthy? v then (label ++ or_default v []) ∷ [] else []

unfoldable pub join_with : Text → List Text → Text
join_with sep [] = []
join_with sep (p ∷ []) = p
join_with sep (p ∷ q ∷ ps) = p ++ sep ++ join_with sep (q ∷ ps)

unfoldable pub format_source_label : Source → Option Text
unfolding join_with
format_source_label s =
    if truthy (channel_of s)
    then some (
        join_with (codes " · ") (
          channel_of s ∷ labelled (codes "conversation ") s.conversation_id
          ++ labelled (codes "user ") s.user_id
          ++ labelled (codes "message ") s.message_id))
    else none

abbrev pub id_line : Task → Text
id_line t = codes "Task ID: " ++ or_default t.id []

abbrev pub title_or_untitled : Task → Text
title_or_untitled t = or_text t.title (codes "(untitled)")

abbrev pub title_line : Task → Text
title_line t = codes "Title: " ++ title_or_untitled t

abbrev pub described : Option Text → List Text
described d = if truthy? d then [] ∷ or_default d [] ∷ [] else []

unfoldable pub project_agent_lines : Task → List Text
unfolding format_source_label
project_agent_lines n =
    id_line n ∷ title_line n ∷ labelled (codes "Source: ") (format_source_label (source_of n))
    ++ described n.description
    ++ []
      ∷ codes
          "If you need clarification, stop and report the question clearly so the Super Agent can ask the original user before continuing."
      ∷ codes
          "When finished, summarize the outcome, files changed, verification run, and any remaining risk."
      ∷ []

unfoldable pub build_project_agent_prompt : Text → Task → Text
unfolding project_agent_lines normalize_super_agent_task join
build_project_agent_prompt fresh t =
    join newline (project_agent_lines (normalize_super_agent_task fresh t))

unfoldable pub task_composer_lines : Task → List Text
unfolding format_reply_target
task_composer_lines n =
    codes "[Task context — keep this task bound]"
      ∷ id_line n
      ∷ (codes "Status: " ++ or_default n.status [])
      ∷ title_line n
      ∷ labelled (codes "Description: ") n.description
    ++ labelled (codes "Target project: ") n.target_project
    ++ labelled (codes "Source: ") (format_reply_target (source_of n))
    ++ []
      ∷ codes
          "Use this task ID as the authoritative target. Apply requested task edits without dropping existing fields. If clarification is requested, mark the task needs_input and use the source binding to ask the original user."
      ∷ []
      ∷ codes "User instruction:"
      ∷ []

unfoldable pub build_task_composer_prompt : Text → Task → Text
unfolding task_composer_lines normalize_super_agent_task join
build_task_composer_prompt fresh t =
    join newline (task_composer_lines (normalize_super_agent_task fresh t))

unfoldable pub notification_lines : Option Text → Option Text → Option Text → Task → List Text
unfolding format_reply_target
notification_lines status summary reason n =
    (codes "Task "
        ++ or_text status (or_default n.status [])
        ++ codes ": \""
        ++ title_or_untitled n
        ++ codes "\"")
      ∷ id_line n
      ∷ labelled (codes "Reply target: ") (format_reply_target (source_of n))
    ++ labelled (codes "Summary: ") summary
    ++ labelled (codes "Reason: ") reason
    ++ codes "Use the source binding above when replying to the original user." ∷ []

unfoldable pub build_super_agent_notification_prompt :
    Option Text → Option Text → Option Text → Text → Task → Text
unfolding notification_lines normalize_super_agent_task join
build_super_agent_notification_prompt status summary reason fresh t =
    join newline (notification_lines status summary reason (normalize_super_agent_task fresh t))
