-- ===== src/Invariant.antt =====
-- What holds in every state that the daemon reaches. `Steps` lists the steps that the handlers are
-- made of; `Handlers` shows that a property which the steps keep is kept by every handler; the other
-- children apply this to one part of the state each.
pub mod Steps
pub mod Key
pub mod Handlers
pub mod Messages
pub mod Reach
pub mod Basics
pub mod Alarms
pub mod Packets
pub mod Types
pub mod Words
pub mod Keys
pub mod Table
pub mod Requests
