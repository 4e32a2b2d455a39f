-- ===== src/Example.antt =====
-- The example application, user-guide/linkkit/Vendors/ubuntu/linkkit_example_solo.c.
pub mod Events
pub mod Connection
pub mod Service
pub mod Response
pub mod Main
pub mod Schedule
pub mod Startup
pub mod Registration
pub mod Ready
mod Tests
