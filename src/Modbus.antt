-- ===== src/Modbus.antt =====
-- pkg/protocol/modbus: the Modbus client of the gateway.
pub mod Types
pub mod Layout
pub mod Request
pub mod Response
pub mod Decode
pub mod Action
pub mod Plan
pub mod Broker
pub mod Messenger
pub mod Message
pub mod Clients
pub mod Deliver
