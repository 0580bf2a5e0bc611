-- ===== src/Mqtt.antt =====
-- tflo-connect-mqtt/src/lib.rs: the connector to MQTT, of which the cursor is modelled.
pub mod Cursor
mod Tests
