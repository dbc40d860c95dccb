-- ===== src/Files.antt =====
-- The files that a window has open. public/file-tab-state.js
pub mod Data
pub mod Tabs
