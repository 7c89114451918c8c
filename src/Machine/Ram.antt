-- ===== src/Machine/Ram.antt =====
-- The guest's memory after `allocate_memory_with_size` of src/partition.rs: which byte of the host's
-- allocation stands behind a guest address.
use whypa.Base.{
  ℕ, ◌+◌, ◌-◌, ◌^◌, ◌<◌, ◌≤◌, ◌≡◌, refl, inl, inr, Bool-cases, true, ltb, leb, if◌then◌else◌,
  Option, none, some, [], ◌∷◌, sub64, ok, arith,
}
use whypa.Memory.{
  MemoryManager, GuestAddress, new as new_memory, find_region, register_region, last_addr,
}
use whypa.Memory.Layout.{mem_32bit_reserved_start, mem_32bit_devices_start, ram_64bit_start}
use whypa.Machine.Devices.{new, pci_segment}
use whypa.Machine.{HostCalls, Partition, rwx, map_region, allocate_memory_with_size}

-- Where an access at a guest address lands in the host's memory.
unfoldable pub host_address : MemoryManager → GuestAddress → Option ℕ
host_address mem gpa = elim (find_region mem gpa) [
  | none ↦ none
  | some r ↦ elim r.hpa [ none ↦ none | some hpa ↦ some (hpa + sub64 gpa r.gpa) ]
]

-- The guest address of the `k`-th byte of memory: from 3 GiB on it stands at 4 GiB if the memory does
-- not end below the reserved area.
unfoldable pub ram_gpa : ℕ → ℕ → GuestAddress
ram_gpa total k =
    if leb total mem_32bit_reserved_start
    then k
    else if ltb k mem_32bit_devices_start
    then k
    else ram_64bit_start + (k - mem_32bit_devices_start)

-- The memory manager that the allocation leaves.
unfoldable pub ram_memory : ℕ → ℕ → MemoryManager
ram_memory source total = record {
  regions =
      if leb total mem_32bit_reserved_start
      then record { gpa = 0; size = total; perms = rwx; hpa = some source } ∷ []
      else record { gpa = 0; size = 0xc000_0000; perms = rwx; hpa = some source }
        ∷ record {
          gpa = 0x1_0000_0000;
          size = total - 0xc000_0000;
          perms = rwx;
          hpa = some (source + 0xc000_0000);
        }
        ∷ [];
  mmio_regions = [];
  access_log = [];
  acpi_address = none;
}

module _ (source total : ℕ) (positive : 0 < total) (bound : total < 2 ^ 63) where
  pub host_address-ram_gpa :
      (k : ℕ)
      → k < total
      → host_address (ram_memory source total) (ram_gpa total k) ≡ some (source + k)
  unfolding host_address ram_gpa ram_memory find_region last_addr
  host_address-ram_gpa k inside = ground arith

  pub host_address-some :
      (gpa a : ℕ)
      → gpa < 2 ^ 64
      → host_address (ram_memory source total) gpa ≡ some a
      → (k : ℕ) × (k < total) × (gpa ≡ ram_gpa total k)
  unfolding host_address ram_gpa ram_memory find_region last_addr
  host_address-some gpa a word found = (
    if leb total mem_32bit_reserved_start
        then gpa
        else if ltb gpa 0xc000_0000
        then gpa
        else gpa - 0x1_0000_0000 + 0xc000_0000,
    ground arith,
    ground arith,
  )

-- The partition that the allocation leaves.
abbrev pub with_ram : ℕ → ℕ → Partition → Partition
with_ram source total p = record p {
  memory = ram_memory source total;
  guest_memory_base = some source;
  guest_memory_size = total;
}

-- The calls of the host succeed for the ranges that are asked for.
pub record IsGranted (calls : HostCalls) (source total : ℕ) : Type 0 where
  pub allocated : calls.virtual_alloc total ≡ some source
  pub mapped : (host gpa size : ℕ) → calls.map_gpa_range host gpa size ≡ true

module _ (calls : HostCalls) (source total : ℕ) (granted : IsGranted calls source total)
    (positive : 0 < total) (bound : total < 2 ^ 63) where
  pub allocate_memory_with_size_lem :
      (p : Partition)
      → allocate_memory_with_size calls total (record p { memory = new_memory })
        ≡ (ok tt, with_ram source total p)
  unfolding allocate_memory_with_size map_region ram_memory new_memory register_region
  allocate_memory_with_size_lem p = elim (Bool-cases (leb total mem_32bit_reserved_start)) [
    | inl low ↦
        rw (allocate_memory_with_size, granted.allocated, low, map_region, granted.mapped) refl
    | inr above ↦
        let rest : sub64 total 0xc000_0000 ≡ total - 0xc000_0000 = ground arith in
        rw
          (
            allocate_memory_with_size,
            granted.allocated,
            above,
            map_region,
            granted.mapped source 0 0xc000_0000,
            map_region,
            granted.mapped,
            rest,
          )
          refl
  ]

  -- The host grants the memory that is asked for, more than 0 and less than 2 ^ 63 bytes: then the
  -- allocation succeeds, and the `k`-th byte of it stands behind the guest address `ram_gpa total k`;
  -- no other guest address has memory behind it.
  pub allocate_backs_ram :
      (memory_size : ℕ)
      → let done = allocate_memory_with_size calls total (new memory_size) in
        (done.0 ≡ ok tt)
        × ((k : ℕ) → k < total → host_address done.1.memory (ram_gpa total k) ≡ some (source + k))
        × ((gpa a : ℕ)
            → gpa < 2 ^ 64
            → host_address done.1.memory gpa ≡ some a
            → (k : ℕ) × (k < total) × (gpa ≡ ram_gpa total k))
  allocate_backs_ram memory_size =
      let e : allocate_memory_with_size calls total (new memory_size)
          ≡ (ok tt, with_ram source total (new memory_size)) =
        unfold new in allocate_memory_with_size_lem (new memory_size) in
      rw e (
        refl,
        host_address-ram_gpa source total positive bound,
        host_address-some source total positive bound,
      )

-- A machine with at least 4 GiB of memory tells the guest that 64-bit PCI devices may be placed from
-- the byte after the next of its amount of memory, which is an address of its memory.
pub pci_segment_overlaps_ram :
    (total : ℕ)
    → 2 ^ 32 ≤ total
    → total < 2 ^ 46
    → (k : ℕ) × (k < total) × (ram_gpa total k ≡ (pci_segment total).start_of_mem64_area)
unfolding ram_gpa pci_segment
pci_segment_overlaps_ram total h bound = (total + 1 - 0x4000_0000, omega arith, ground arith)
