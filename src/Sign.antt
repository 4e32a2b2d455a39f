-- ===== src/Sign.antt =====
-- The MQTT signature of user-guide/linkkit/Paho_MQTT_Guide/aiot_mqtt_sign.c: HMAC-SHA256, the
-- hexadecimal form, and `aiotMqttSign`.
pub mod Hmac
pub mod Hex
pub mod Mqtt
pub mod Buffers
pub mod Source
pub mod Contract
mod Tests
