-- ===== src/Jabsco.antt =====
-- The functions of user-guide/linkkit/Vendors/Jabsco/wrapper.c that the ubuntu port does not have, or
-- has in another form.
pub mod Client
pub mod Addresses
pub mod Waiting
pub mod Device
pub mod Provision
pub mod System
pub mod Differences
mod Tests
