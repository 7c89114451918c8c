-- ===== src/Bus/Dispatch.antt =====
-- Reads and writes through a bus reach the device that was registered for the address.
use whypa.Base.{ℕ, ◌+◌, ◌^◌, ◌≤◌, ◌<◌, ◌≡◌, ◌∙◌, true, false, none, some, List, ok, arith}
use whypa.Bus.{Bus, BusDevice, update, get_device, insert, read, write}
use whypa.Bus.Lookup.{IsOrdered, lookup, get_device-lookup}
use whypa.Bus.Insert.{insert-get_device}

module _ {S : Type 0} (device : ℕ → BusDevice S) (bus : Bus ℕ) (store : ℕ → S) (vcpuid : ℕ)
    (buf : List ℕ) (v : IsOrdered 0 bus.devices) where
  -- On a bus with ordered ranges, a read in no range answers `false` and leaves the devices and
  -- the buffer alone; any other answers `true`, and the device of the range, given the distance
  -- from the base, alone changes its state and fills the buffer.
  pub read-lookup :
      (addr : ℕ)
      → addr < 2 ^ 64
      → read device bus store vcpuid addr buf ≡ (elim (lookup addr bus.devices) [
        | none ↦ (false, store, buf)
        | some (offset, dev) ↦ (
          true,
          update store dev ((device dev).read (store dev) vcpuid offset buf).0,
          ((device dev).read (store dev) vcpuid offset buf).1,
        )
      ])
  unfolding read
  read-lookup addr h = ground (arith, get_device-lookup bus addr v h)

  module _ (dev base len offset : ℕ) (fits : base + len ≤ 2 ^ 64) (within : offset < len)
      (accepted : (insert bus dev base len).0 ≡ ok tt) where
    found : get_device (insert bus dev base len).1 (base + offset) ≡ some (offset, dev)
    found =
        insert-get_device bus dev base len v fits (base + offset) (omega arith)
        ∙ (rw accepted (ground arith))

    -- After a successful `insert` of a device on a bus with ordered ranges, a write at `offset`
    -- from its base, inside its range, is the device's own write at that offset.
    pub insert-write :
        write device (insert bus dev base len).1 store vcpuid (base + offset) buf
        ≡ (true, update store dev ((device dev).write (store dev) vcpuid offset buf))
    unfolding write
    insert-write = ground (arith, found)
