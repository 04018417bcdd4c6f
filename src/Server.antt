-- ===== src/Server.antt =====
-- lib/server/GdbServer.cpp and .h: the server. State has its members and the sequencing of the
-- handlers, Dispatch the choice of the handler for a packet and the main loop.
pub mod State
pub mod Scan
pub mod Signals
pub mod Range
pub mod Registers
pub mod Access
pub mod Memory
pub mod Syscall
pub mod Run
pub mod Resume
pub mod Query
pub mod Output
pub mod Settings
pub mod Monitor
pub mod Dispatch
pub mod Loop
pub mod Answers
pub mod Pending
pub mod Timed
pub mod Flags
pub mod Shown
pub mod Kill
pub mod Chunks
pub mod Store
pub mod Waiting
pub mod Assign
pub mod Threads
pub mod Wire
