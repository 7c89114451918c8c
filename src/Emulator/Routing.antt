-- ===== src/Emulator/Routing.antt =====
-- What an access of the guest reaches by the emulator's callbacks in src/emulator.rs.
use Prim.Native.String.{String}
use whypa.Base.{
  ℕ, ◌+◌, ◌-◌, ◌^◌, ◌<◌, ◌≤◌, ◌≡◌, refl, ◌==◌, ◌||◌, ◌&&◌, Bool, true, false, ltb, leb, some, List,
  ◌++◌, take, replicate, min, u64, sub64, find-some, to_le_bytes, from_le_bytes, arith,
}
use whypa.Memory.{MmioRegion, find_mmio}
use whypa.Bus.{BusDevice, update, get_device, read, write}
use whypa.Emulator.{
  Partition, IoAccessInfo, io_in, io_out, in_bus, io_port_callback, call_handler, memory_callback,
}

-- The ports that the callback answers itself when they are read.
unfoldable pub is_answered : ℕ → Bool
is_answered port =
    port == 43
    || port == 0x40
    || port == 0x43
    || port == 0x61
    || port == 0x70
    || port == 0x71
    || port == 0xcf8
    || port == 0xcfc

module _ {S : Type 0} (device : ℕ → BusDevice S) (p : Partition S) where
  io_in-in_bus :
      (port n : ℕ) → is_answered port ≡ false → io_in device port n p ≡ in_bus device port n p
  unfolding io_in is_answered
  io_in-in_bus port n free = ground arith

  -- A port that the callback does not answer itself and that the bus has a device for: a write gives
  -- the device the low bytes of the data, as many as the access has and at most four, and changes its
  -- state alone.
  pub io_port_callback_out :
      (io : IoAccessInfo) (offset dev : ℕ)
      → io.direction ≡ 1
      → (io.port == 0xcf8) ≡ false
      → get_device p.io_bus io.port ≡ some (offset, dev)
      → io_port_callback device io p ≡ (
        io,
        record p {
          store = update p.store dev (
              (device dev).write
                (p.store dev)
                0
                offset
                (take (min io.access_size 4) (to_le_bytes 4 io.io_data)));
        },
      )
  unfolding io_port_callback io_out write
  io_port_callback_out io offset dev out free found =
      let is_out : (io.direction == 1) ≡ true = ground arith in rw (is_out, free, write, found) refl

  -- A read gives the device as many bytes as the access has, at most four, and answers the number
  -- that they stand for.
  pub io_port_callback_in :
      (io : IoAccessInfo) (offset dev : ℕ)
      → (io.direction == 1) ≡ false
      → is_answered io.port ≡ false
      → get_device p.io_bus io.port ≡ some (offset, dev)
      → io_port_callback device io p ≡ (
          let size = min io.access_size 4 in
          let answer = (device dev).read (p.store dev) 0 offset (replicate size 0) in
          (
            record io { io_data = from_le_bytes (answer.1 ++ replicate (4 - size) 0) },
            record p { store = update p.store dev answer.0 },
          ))
  unfolding io_port_callback in_bus read
  io_port_callback_in io offset dev is_in free found =
      rw (is_in, io_in-in_bus io.port io.access_size free, in_bus, read, found) refl

  -- An access of an MMIO region whose handler is registered reaches that handler, at the distance of
  -- the address from the start of the region, which is below its size. The region ends below 2 ^ 64.
  pub memory_callback_lem :
      (gpa direction size h : ℕ) (buf : List ℕ) (region : MmioRegion) (name : String)
      → find_mmio p.memory_manager gpa ≡ some region
      → region.gpa + region.size < 2 ^ 64
      → gpa < 2 ^ 64
      → region.handler ≡ some name
      → p.mmio_handlers name ≡ some h
      → (gpa - region.gpa < region.size)
        × (memory_callback device gpa direction size buf p
            ≡ call_handler device h (gpa - region.gpa) direction size buf p)
  unfolding memory_callback find_mmio
  memory_callback_lem gpa direction size h buf region name found ends small named registered =
      let inside : (leb region.gpa gpa && ltb gpa (u64 (region.gpa + region.size))) ≡ true =
        find-some (λ r. leb r.gpa gpa && ltb gpa (u64 (r.gpa + r.size)))
          p.memory_manager.mmio_regions {x = region} found in
      let above : region.gpa ≤ gpa = ground arith in
      let below : gpa < region.gpa + region.size = ground arith in
      let same : sub64 gpa region.gpa ≡ gpa - region.gpa = omega arith in
      (omega arith, rw (memory_callback, found, named, registered, same) refl)
