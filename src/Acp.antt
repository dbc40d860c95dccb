-- ===== src/Acp.antt =====
-- External agents over ACP: the block list that a subagent card shows, and the store of finished
-- runs. public/native/acp/
pub mod Store
pub mod RunStore
