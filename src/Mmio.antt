-- ===== src/Mmio.antt =====
-- The MMIO transport of virtio devices: src/devices/virtio/mmio.rs and the device interface of
-- src/devices/virtio/device.rs, with the entropy device of src/devices/virtio/rng/device.rs.
pub mod Device
pub mod Transport
pub mod Access
pub mod Features
pub mod Writes
pub mod Status
pub mod Registers
pub mod Interrupts
pub mod Rng
pub mod Config
pub mod Console
pub mod Net
pub mod Block
mod Examples
