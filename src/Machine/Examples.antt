-- ===== src/Machine/Examples.antt =====
-- A host that grants everything at 0x10000000, and a machine with 2 GiB of memory.
use whypa.Base.{
  ℕ, ◌+◌, ◌^◌, ◌<◌, ◌≤◌, ◌≡◌, refl, ◌⊎◌, ◌↔◌, inl, true, none, some, [], ◌∷◌, ok, arith,
}
use whypa.Bus.{BusDevice}
use whypa.Memory.{MmioRegion}
use whypa.Emulator
use whypa.Emulator.{memory_callback, call_handler}
use whypa.Machine.{HostCalls, Partition, rwx, allocate_memory_with_size, register_mmio_region}
use whypa.Machine.Devices.{new}
use whypa.Machine.Ram.{IsGranted, host_address, ram_gpa, allocate_backs_ram}
use whypa.Machine.Map.{set_up, set_up_iff, set_up_routes}
use whypa.Machine.Apart.{AreApart, register_mmio_region-AreApart}

abbrev pub total : ℕ
total = 0x8000_0000

abbrev pub calls : HostCalls
calls = record { virtual_alloc = λ n. some 0x1000_0000; map_gpa_range = λ host gpa size. true }

pub granted : IsGranted calls 0x1000_0000 total
granted = record { allocated = refl; mapped = λ host gpa size. refl }

allocate_backs_ram_example :
    let done = allocate_memory_with_size calls total (new total) in
    (done.0 ≡ ok tt)
    × ((k : ℕ) → k < total → host_address done.1.memory (ram_gpa total k) ≡ some (0x1000_0000 + k))
    × ((gpa a : ℕ)
        → gpa < 2 ^ 64
        → host_address done.1.memory gpa ≡ some a
        → (k : ℕ) × (k < total) × (gpa ≡ ram_gpa total k))
allocate_backs_ram_example =
    allocate_backs_ram calls 0x1000_0000 total granted (omega arith) (omega arith) total

set_up_iff_example :
    ((set_up calls 0x1000_0000 total granted
        (omega arith)
        (omega arith)
        (λ i. true)
        (λ i. refl)
        total).0
      ≡ ok tt)
    ↔ ((total ≤ 0xe800_0001) ⊎ (0xfec0_0000 < total))
set_up_iff_example =
    set_up_iff calls 0x1000_0000 total granted (omega arith) (omega arith) (λ i. true) (λ i. refl)
      total

-- A device that answers with its state and takes the offset for it.
abbrev device : ℕ → BusDevice ℕ
device h = record { read = λ s cpu offset buf. (s, s ∷ []); write = λ s cpu offset buf. offset }

abbrev made_machine : Partition
made_machine =
    (set_up calls 0x1000_0000 total granted (omega arith) (omega arith) (λ i. true) (λ i. refl)
      total).1

abbrev emulated : Emulator.Partition ℕ
emulated = record {
  pci_address_config = 0;
  dummy_rtc_time = 0;
  dummy_rtc_counter = 0;
  internal_counter = 60;
  io_bus = record { devices = [] };
  memory_manager = made_machine.memory;
  mmio_handlers = made_machine.mmio_handlers;
  store = λ h. 7;
}

abbrev rng_window : MmioRegion
rng_window = record {
  gpa = 0xfeb0_1000;
  size = 0x1000;
  name = "Virtio RNG Device";
  handler = some "virtio_rng";
}

set_up_routes_example :
    memory_callback device 0xfeb0_1050 1 4 (1 ∷ 0 ∷ 0 ∷ 0 ∷ 0 ∷ 0 ∷ 0 ∷ 0 ∷ []) emulated
    ≡ call_handler device 3 0x50 1 4 (1 ∷ 0 ∷ 0 ∷ 0 ∷ 0 ∷ 0 ∷ 0 ∷ 0 ∷ []) emulated
set_up_routes_example =
    set_up_routes calls 0x1000_0000 total granted (omega arith) (omega arith) (λ i. true)
      (λ i. refl) total (inl (omega arith)) device emulated 3 0x50 1 4
      (1 ∷ 0 ∷ 0 ∷ 0 ∷ 0 ∷ 0 ∷ 0 ∷ 0 ∷ []) rng_window refl refl refl (omega arith)

abbrev machine : Partition
machine = record (new total) {
  memory = record {
    regions = record { gpa = 0; size = total; perms = rwx; hpa = some 0x1000_0000 } ∷ [];
    mmio_regions = [];
    access_log = [];
    acpi_address = none;
  };
}

register_mmio_region-AreApart_example :
    AreApart (register_mmio_region 0xfeb0_0000 0x1000 "net" none machine).1.memory.mmio_regions
register_mmio_region-AreApart_example =
    register_mmio_region-AreApart 0xfeb0_0000 0x1000 "net" none machine (omega arith) tt
