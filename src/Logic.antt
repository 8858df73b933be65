-- ===== src/Logic.antt =====
-- meshias_daemon/aodv/logic.c: the AODV protocol.
pub mod Starting
pub mod Spreading
pub mod Delivery
pub mod Discovery
pub mod Reply
pub mod Rreq
pub mod Rrep
pub mod Receive
pub mod Answers
pub mod Duplicates
pub mod Retries
