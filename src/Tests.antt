-- ===== src/Tests.antt =====
-- Runs of the models at concrete inputs, and the theorems there.
mod Names
mod Calls
mod Paths
mod Types
mod Objects
mod Headers
mod Append
mod Signatures
mod Received
mod Exchange
mod Connections
mod Methods
mod Sent
mod Loops
