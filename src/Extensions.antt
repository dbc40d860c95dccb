-- ===== src/Extensions.antt =====
-- Requests of extensions to the user. public/native/extensions/
pub mod UiHost
