-- ===== src/Os.antt =====
-- The functions of user-guide/linkkit/Vendors/ubuntu/wrapper.c over threads, time, memory and the identity
-- of the device.
pub mod Handles
pub mod Balance
pub mod Timing
pub mod Deadlines
pub mod Threads
pub mod Identity
pub mod Opening
pub mod Network
pub mod Names
mod Tests
