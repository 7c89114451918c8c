-- ===== src/Machine.antt =====
-- The virtual machine and its memory map: `Partition` of src/partition.rs. The calls of the host that
-- reserve memory and map it to the guest are parameters. An MMIO handler is a handle of a device.
pub mod Devices
pub mod Ram
pub mod Windows
pub mod Map
pub mod Apart
pub mod Examples
use Prim.Native.String.{String}
use text.Mathlib.Text.{◌==◌ as str_eq}
use Prim.Native.Nat.{max}
use whypa.Base.{
  ℕ, ◌+◌, ◌-◌, ltb, leb, if◌then◌else◌, ◌&&◌, Bool, Option, none, some, List, [], ◌∷◌, any, u64,
  sub64, checked_add64, Result, ok, err, Host,
}
use whypa.Bus.{Bus}
use whypa.Memory.{
  MemoryManager, MemoryError, MemoryRegion, GuestAddress, last_addr, register_region, register_mmio,
  write_guest_memory,
}
use whypa.Memory.Layout.{mem_32bit_reserved_start, mem_32bit_devices_start, ram_64bit_start}

-- `VirtualAlloc` of so many bytes, which answers with an address, and `WHvMapGpaRange` of a host
-- address, a guest address and a size, which tells whether it succeeds.
pub record HostCalls : Type 0 where
  pub virtual_alloc : ℕ → Option ℕ
  pub map_gpa_range : ℕ → ℕ → ℕ → Bool

pub record PciSegment : Type 0 where
  pub id : ℕ
  pub mmio_config_address : ℕ
  pub start_of_mem32_area : ℕ
  pub end_of_mem32_area : ℕ
  pub start_of_mem64_area : ℕ
  pub end_of_mem64_area : ℕ

pub record VirtioMmioDevice : Type 0 where
  pub name : String
  pub uid : ℕ
  pub base_address : ℕ
  pub size : ℕ
  pub irq : ℕ

-- `DeviceManager`, without the list of serial devices, which stays empty. Of the ACPI platform
-- addresses only that of the timer is ever set.
pub record DeviceManager : Type 0 where
  pub io_bus : Bus ℕ
  pub pci_segments : List PciSegment
  pub virtio_mmio_devices : List VirtioMmioDevice
  pub pm_timer_address : Option ℕ

pub record Partition : Type 0 where
  pub memory : MemoryManager
  pub mmio_handlers : String → Option ℕ
  pub device_manager : DeviceManager
  pub guest_memory_base : Option ℕ
  pub guest_memory_size : ℕ

pub data SetupError : Type 0 where
  alloc_failed map_failed size_overflow overlaps_memory overlaps_mmio device_failed : SetupError

abbrev pub Step : Type 0
Step = Result (Unit {0}) SetupError × Partition

-- What follows a step that succeeded.
infixl 5 ◌>>=◌
abbrev pub ◌>>=◌ : Step → (Partition → Step) → Step
(ok _, p) >>= f = f p
(err e, p) >>= f = (err e, p)

abbrev pub rwx : ℕ
rwx = 7

-- One range: mapped, then known to the memory manager.
unfoldable pub map_region : HostCalls → ℕ → GuestAddress → ℕ → Partition → Step
map_region calls source gpa size p =
    if calls.map_gpa_range source gpa size
    then (
      ok tt,
      record p {
        memory =
            register_region p.memory
              (record { gpa = gpa; size = size; perms = rwx; hpa = some source });
      },
    )
    else (err map_failed, p)

unfoldable pub allocate_memory_with_size : HostCalls → ℕ → Partition → Step
unfolding map_region
allocate_memory_with_size calls total_memory p = elim (calls.virtual_alloc total_memory) [
  | none ↦ (err alloc_failed, p)
  | some source ↦
      let owned : Partition = record p {
        guest_memory_base = some source;
        guest_memory_size = total_memory;
      } in
      let low_size = mem_32bit_devices_start in
      let split : Step =
        map_region calls source 0 low_size owned
        >>= map_region calls (source + low_size) ram_64bit_start (sub64 total_memory low_size) in
      if leb total_memory mem_32bit_reserved_start
      then map_region calls source 0 total_memory owned
      else split
]

unfoldable pub register_mmio_region : ℕ → ℕ → String → Option String → Partition → Step
register_mmio_region gpa size name handler_name p = elim (checked_add64 gpa size) [
  | none ↦ (err size_overflow, p)
  | some mmio_end ↦
      (if any (λ r. ltb gpa (last_addr r) && ltb r.gpa mmio_end) p.memory.regions
        then (err overlaps_memory, p)
        else if any (λ r. ltb gpa (u64 (r.gpa + r.size)) && ltb r.gpa mmio_end)
            p.memory.mmio_regions
        then (err overlaps_mmio, p)
        else (
          ok tt,
          record p {
            memory =
                register_mmio p.memory
                  (record { gpa = gpa; size = size; name = name; handler = handler_name });
          },
        ))
]

-- `HashMap::insert`.
unfoldable pub register_mmio_handler : String → ℕ → Partition → Partition
register_mmio_handler name handler p = record p {
  mmio_handlers = λ k. if str_eq k name then some handler else p.mmio_handlers k;
}

pub write_code : List ℕ → GuestAddress → Partition → Host → Result Host MemoryError
write_code code gpa p host = write_guest_memory p.memory host code gpa

-- The ends of the regions, each a sum of `u64`.
unfoldable pub highest_end : List MemoryRegion → ℕ
highest_end [] = 0
highest_end (r ∷ rs) = max (u64 (r.gpa + r.size)) (highest_end rs)

unfoldable pub get_memory_size : MemoryManager → ℕ
get_memory_size mem = highest_end mem.regions
