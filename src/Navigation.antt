-- ===== src/Navigation.antt =====
-- How the frontend finds the session that it shows: routes, the bootstrap of a route's runtime, and
-- the model that a restored session gets.
pub mod Router
pub mod Bootstrap
pub mod Restoration
