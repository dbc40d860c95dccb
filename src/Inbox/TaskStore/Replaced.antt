-- ===== src/Inbox/TaskStore/Replaced.antt =====
-- What `updateSuperAgentTask` of public/super-agent/task-store.js leaves in the persisted list.
use picot.Base.{nat_eq, option_eq, text_eq}
use picot.Inbox.Task.{Task}
