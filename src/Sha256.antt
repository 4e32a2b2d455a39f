-- ===== src/Sha256.antt =====
-- SHA-256 of user-guide/linkkit/Paho_MQTT_Guide/aiot_mqtt_sign.c: the code, FIPS 180-4 as its
-- specification, and the modules that relate the two.
pub mod Word
pub mod Process
pub mod Stream
pub mod Spec
pub mod Macros
pub mod Rounds
pub mod Blocks
pub mod Absorb
pub mod Update
pub mod Digest
mod Tests
