-- ===== src/Examples.antt =====
-- Concrete inputs at which the theorems' hypotheses hold.
mod Traffic
mod Sockets
mod Associations
mod Records
mod Sessions
mod Samples
mod Dialogues
mod Protocol
mod Lint
mod Bindings
