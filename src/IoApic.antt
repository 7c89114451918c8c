-- ===== src/IoApic.antt =====
-- The software I/O interrupt controller: src/devices/legacy/ioapic.rs.
pub mod Device
pub mod Pin
pub mod Service
pub mod Registers
pub mod EndOfInterrupt
pub mod Invariant
pub mod Examples
