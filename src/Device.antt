-- ===== src/Device.antt =====
-- pkg/device: the devices of the gateway and the collection of their data.
pub mod Types
pub mod Manager
