-- ===== src/Boot/Writes.antt =====
-- Writes to the low memory of a machine as `allocate_memory_with_size` of src/partition.rs leaves it.
use whypa.Base.{
  ℕ, ◌+◌, ◌^◌, ◌<◌, ◌≡◌, refl, Bool-cases, some, inl, inr, false, ltb, leb, if◌then◌else◌, List,
  length, u64, sub64, Host, copy_in, copy_out, ok, arith,
}
use whypa.Memory.{
  MemoryManager, MemoryRegion, MmioRegion, last_addr, find_region, write_guest_memory,
  read_guest_memory,
}
use whypa.Machine.Ram.{ram_memory}

-- The end of the memory that begins at address 0.
abbrev pub low_end : ℕ → ℕ
low_end total = if leb total 0xfec0_0000 then total else 0xc000_0000

abbrev pub machine_memory : ℕ → ℕ → List MmioRegion → MemoryManager
machine_memory source total ms = record (ram_memory source total) { mmio_regions = ms }

module _ (source total : ℕ) (ms : List MmioRegion) (bound : total < 2 ^ 63) where
  abbrev mem : MemoryManager
  mem = machine_memory source total ms

  abbrev low_region : MemoryRegion
  low_region = record { gpa = 0; size = low_end total; perms = 7; hpa = some source }

  find_low : (gpa : ℕ) → gpa < low_end total → find_region mem gpa ≡ some low_region
  unfolding find_region ram_memory last_addr
  find_low gpa inside = elim (Bool-cases (leb total 0xfec0_0000)) [
    | inl one ↦ rw one (ground arith)
    | inr two ↦ rw two (ground arith)
  ]

  pub low_write :
      (code : List ℕ) (gpa : ℕ) (host : Host)
      → gpa + length code < low_end total
      → write_guest_memory mem host code gpa ≡ ok (copy_in code (source + gpa) host)
  unfolding write_guest_memory last_addr
  low_write code gpa host inside =
      let found = find_low gpa (omega arith) in
      let fits : ltb (last_addr low_region) (u64 (gpa + length code)) ≡ false = ground arith in
      let at : sub64 gpa 0 ≡ gpa = ground arith in rw (write_guest_memory, found, fits, at) refl

  pub low_read :
      (gpa n : ℕ) (host : Host)
      → gpa + n < low_end total
      → read_guest_memory mem host gpa n ≡ ok (copy_out host (source + gpa) n)
  unfolding read_guest_memory last_addr
  low_read gpa n host inside =
      let found = find_low gpa (omega arith) in
      let fits : ltb (last_addr low_region) (u64 (gpa + n)) ≡ false = ground arith in
      let at : sub64 gpa 0 ≡ gpa = ground arith in rw (read_guest_memory, found, fits, at) refl
