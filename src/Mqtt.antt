-- ===== src/Mqtt.antt =====
-- The MQTT 3.1.1 codec of main/mqtt: the data of mqtt_types.h, the encoder and the decoder.
pub mod PacketType
pub mod Types
pub mod Encoder
pub mod Decoder
pub mod Length
pub mod Strings
pub mod Publish
pub mod Cut
pub mod Reads
pub mod Packets
pub mod Client
mod Tests
