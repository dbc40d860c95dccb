-- ===== src/Inbox.antt =====
-- The Agent Inbox: tasks, the list they are persisted in, and the prompts built from them.
pub mod Task
pub mod TaskStore
pub mod Prompt
