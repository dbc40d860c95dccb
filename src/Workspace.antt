-- ===== src/Workspace.antt =====
-- public/workspace: patches of the diff views and local paths.
pub mod Patch
pub mod Paths
