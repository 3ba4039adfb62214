-- ===== src/PduAssocThread/Attached.antt =====
-- src/yaz-pdu-assoc-thread.cpp: the association of a worker and its entry in the manager. The calls
-- of an event register it exactly if they leave it open.
mod Calls
pub mod Events
pub use Calls.*
