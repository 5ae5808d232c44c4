-- ===== src/S7.antt =====
-- pkg/protocol/s7: the S7 client of the gateway.
pub mod Types
pub mod Address
pub mod Request
pub mod Plan
pub mod Response
pub mod Message
pub mod Action
pub mod Connect
pub mod Broker
