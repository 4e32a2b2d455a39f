-- ===== src/Tcp.antt =====
-- The TCP functions of user-guide/linkkit/Vendors/ubuntu/wrapper.c: `HAL_TCP_Establish` and
-- `HAL_TCP_Read`.
pub mod Establish
pub mod Outcome
pub mod Read
pub mod Delivery
pub mod Write
pub mod Sending
mod Tests
