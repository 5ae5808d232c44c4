-- ===== src/Tests.antt =====
-- Concrete runs of the definitions, and the theorems at concrete inputs.
mod Floats
mod Crc
mod Modbus
mod Message
mod Clients
mod Deliver
mod S7
mod S7Connect
mod Device
