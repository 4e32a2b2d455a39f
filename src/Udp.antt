-- ===== src/Udp.antt =====
-- The UDP functions of user-guide/linkkit/Vendors/ubuntu/wrapper.c.
pub mod Socket
pub mod Binding
pub mod Datagram
pub mod Reply
mod Tests
