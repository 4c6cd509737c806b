-- ===== src/Mqtt.antt =====
-- What stands between the controllers and the MQTT client: src/common/.
pub mod Utf8
pub mod AgvIdMap
pub mod Topics
pub mod Subscriptions
pub mod Client
mod Examples
