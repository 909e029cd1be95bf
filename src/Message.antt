-- ===== src/Message.antt =====
-- Conversion between Python objects and the arguments of a D-Bus message.
pub mod Objects
pub mod Types
pub mod Guess
pub mod Headers
pub mod Accessors
pub mod Copies
pub mod Append
pub mod Values
pub mod Signature
pub mod Write
pub mod Read
pub mod Resent
