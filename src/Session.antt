-- ===== src/Session.antt =====
-- What a window keeps of one session: the sequenced state, the streaming answer, the pins, the turns
-- of the saved log and a compaction that is asked for. public/native/session/, and
-- public/compact-coordinator.js
pub mod Store
pub mod Stream
pub mod Pins
pub mod TurnHistory
pub mod Compaction
