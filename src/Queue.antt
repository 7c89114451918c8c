-- ===== src/Queue.antt =====
-- The split virtqueue of virtio devices: src/devices/virtio/queue.rs. `Descriptor` has the descriptor
-- chains, `Vring` the queue and its operations on the available and used rings.
pub mod Descriptor
pub mod Vring
pub mod Chain
pub mod Valid
pub mod Pop
pub mod Taken
pub mod Used
pub mod Notify
mod Examples
