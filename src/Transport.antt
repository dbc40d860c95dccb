-- ===== src/Transport.antt =====
-- The frontend's transport: the request gateway over the host's socket adapter, and the routing of
-- what arrives. public/native/transport/
pub mod Target
pub mod Gateway
pub mod Memory
pub mod Adapter
