-- ===== src/SocketManager.antt =====
-- src/yaz-socket-manager.cpp: the observers of sockets, the queue of their events, and one turn of
-- the event loop. Registry holds the entries and the queue, Turn the turn; Safety and Loop have the
-- invariant, and Polling is about the poll.
pub mod Registry
pub mod Turn
pub mod Safety
pub mod Loop
pub mod Polling
pub mod Observers
