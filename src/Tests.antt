-- ===== src/Tests.antt =====
-- Concrete libraries, and runs of the theorems on them.
mod Library
mod Interpreter
mod Queue
mod Locks
mod Setup
mod Threads
mod Sending
mod Orders
mod Reconnecting
mod Rpc
mod Histories
mod Resources
mod Values
mod Binding
mod Api
