-- ===== src/Buffers.antt =====
-- Readers and writers of descriptor chains: src/devices/virtio/descriptor_utils.rs. The slices of
-- guest memory belong to the crate vm-memory and stand as a parameter.
pub mod Slice
pub mod Consumer
pub mod Flat
pub mod Consume
pub mod Split
pub mod Exact
pub mod Build
pub mod Transfer
pub mod Available
pub mod Concrete
mod Examples
