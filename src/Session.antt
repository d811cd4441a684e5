-- ===== src/Session.antt =====
-- core/include/loom/core/session.hpp, core/src/session.cpp: the client session state machine.
-- Its parts: the records and `parse_config` (Config), the operations (Ops).
pub mod Config
pub mod Ops
pub mod Rounds
pub mod Stream
pub mod Phases
pub mod Order
pub mod Handshake
