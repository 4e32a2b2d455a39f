-- ===== src/Wifi.antt =====
-- The Wi-Fi functions of user-guide/linkkit/Vendors/ubuntu/wrapper.c: the commands of provisioning and
-- the sniffer.
pub mod Commands
pub mod Limits
pub mod AccessPoint
pub mod Sniffer
pub mod Frames
mod Tests
