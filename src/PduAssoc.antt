-- ===== src/PduAssoc.antt =====
-- src/yaz-pdu-assoc.cpp: an association sends and receives packages over one COMSTACK connection.
-- State holds the objects and `shutdown`, Output the queue of outgoing packages, Setup what opens
-- and destroys an association, and Notify the handler of socket events. The others are about these.
pub mod State
pub mod Output
pub mod Setup
pub mod Notify
pub mod Safety
pub mod Opening
pub mod Events
pub mod Sending
pub mod Stream
pub mod Waiting
pub mod Backlog
pub mod Closing
