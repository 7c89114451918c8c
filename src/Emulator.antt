-- ===== src/Emulator.antt =====
-- The callbacks of the instruction emulator that decide what an access of the guest reaches:
-- `io_port_callback` and `memory_callback` of src/emulator.rs. The counters are the program's atomics;
-- the handlers of MMIO regions are a map from names to handles of devices.
pub mod Routing
pub mod Refresh
use Prim.Native.String.{String}
use whypa.Base.{
  ℕ, ◌+◌, ◌-◌, ◌%◌, ◌^◌, ◌==◌, ◌||◌, ltb, if◌then◌else◌, Option, none, some, List, ◌++◌, length,
  take, drop, replicate, min, bit_and, bit_or, u32, u64, sub64, ◌<<<◌, ◌>>>◌, to_le_bytes,
  from_le_bytes, Outcome, done, panic,
}
use whypa.Memory.{MemoryManager, MmioRegion, find_mmio}
use whypa.Bus.{Bus, BusDevice, update, read, write}

pub record Partition (S : Type 0) : Type 0 where
  pub pci_address_config : ℕ
  pub dummy_rtc_time : ℕ
  pub dummy_rtc_counter : ℕ
  pub internal_counter : ℕ
  pub io_bus : Bus ℕ
  pub memory_manager : MemoryManager
  pub mmio_handlers : String → Option ℕ
  pub store : ℕ → S

pub record IoAccessInfo : Type 0 where
  pub port : ℕ
  pub direction : ℕ
  pub access_size : ℕ
  pub io_data : ℕ

pub data HResult : Type 0 where
  s_ok error_invalid_parameter error_not_found : HResult

module _ {S : Type 0} (device : ℕ → BusDevice S) where
  unfoldable pub io_out : ℕ → ℕ → ℕ → Partition S → Partition S
  io_out port access_size value p =
      if port == 0xcf8 then record p { pci_address_config = value } else record p {
        store =
            (write device p.io_bus p.store 0 port
              (take (min access_size 4) (to_le_bytes 4 value))).1;
      }

  -- The timer's ports.
  unfoldable pub in_rtc : Partition S → ℕ × Partition S
  in_rtc p =
      let counter = u64 (p.dummy_rtc_counter + 1) in
      let time = if counter % 100 == 0 then u64 (p.dummy_rtc_time + 1) else p.dummy_rtc_time in
      (u32 time, record p { dummy_rtc_counter = counter; dummy_rtc_time = time })

  -- The refresh toggle and the speaker.
  unfoldable pub in_refresh : Partition S → ℕ × Partition S
  in_refresh p =
      let counter = u64 (p.internal_counter + 1) in
      let bit4 = bit_and (counter >>> 7) 1 <<< 4 in
      let bit5 = bit_and (counter >>> 6) 1 <<< 5 in
      (u32 (bit_or bit4 bit5), record p { internal_counter = counter })

  unfoldable pub in_bus : ℕ → ℕ → Partition S → ℕ × Partition S
  in_bus port access_size p =
      let size = min access_size 4 in
      let answer = read device p.io_bus p.store 0 port (replicate size 0) in
      (
        if answer.0 then from_le_bytes (answer.2 ++ replicate (4 - size) 0) else 0,
        record p { store = answer.1 },
      )

  unfoldable pub io_in : ℕ → ℕ → Partition S → ℕ × Partition S
  io_in port access_size p =
      if port == 43
      then (99, p)
      else if port == 0x40 || port == 0x43
      then in_rtc p
      else if port == 0x61
      then in_refresh p
      else if port == 0x70 || port == 0x71
      then (0, p)
      else if port == 0xcf8
      then (p.pci_address_config, p)
      else if port == 0xcfc
      then (0xffff_ffff, p)
      else in_bus port access_size p

  unfoldable pub io_port_callback : IoAccessInfo → Partition S → IoAccessInfo × Partition S
  io_port_callback io p =
      let answer = io_in io.port io.access_size p in
      if io.direction == 1
      then (io, io_out io.port io.access_size io.io_data p)
      else (record io { io_data = answer.0 }, answer.1)

  -- A size beyond the emulator's buffer is a panic of the slice.
  unfoldable pub call_handler :
      ℕ → ℕ → ℕ → ℕ → List ℕ → Partition S → Outcome (HResult × List ℕ × Partition S)
  call_handler h offset direction size buf p =
      if ltb 1 direction
      then done (error_invalid_parameter, buf, p)
      else if ltb (length buf) size
      then panic
      else if direction == 0
      then (let answer = (device h).read (p.store h) 0 offset (take size buf) in
          done (s_ok, answer.1 ++ drop size buf, record p { store = update p.store h answer.0 }))
      else done (
        s_ok,
        buf,
        record p {
          store = update p.store h ((device h).write (p.store h) 0 offset (take size buf));
        },
      )

  unfoldable pub memory_callback :
      ℕ → ℕ → ℕ → List ℕ → Partition S → Outcome (HResult × List ℕ × Partition S)
  memory_callback gpa direction access_size buf p = elim (find_mmio p.memory_manager gpa) [
    | none ↦ done (error_not_found, buf, p)
    | some region ↦ elim region.handler [
      | none ↦ done (error_not_found, buf, p)
      | some handler_name ↦ elim (p.mmio_handlers handler_name) [
        | none ↦ done (error_not_found, buf, p)
        | some h ↦ call_handler h (sub64 gpa region.gpa) direction access_size buf p
      ]
    ]
  ]
