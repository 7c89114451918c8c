-- ===== src/Boot/MemoryMap.antt =====
-- What a kernel reads in the memory map that `fill_boot_params` of src/linux_boot.rs writes.
pub mod Entries
use whypa.Base.{
  ℕ, zero, suc, ◌+◌, ◌*◌, ◌^◌, ◌<◌, ◌≤◌, ◌≡◌, refl, ap, ◌∙◌, sym, ◌⊎◌, inl, inr, Bool-cases, true,
  leb, List, [], ◌∷◌, ◌++◌, length, length-append, append_assoc, map, length-map, u8, to_le_bytes,
  from_le_bytes, length-to_le_bytes, from_le_bytes-to_le_bytes, Host, copy_in, copy_out,
  copy_out-copy_in, copy_out-copy_in_outside, min, done, panic, and_then, arith,
}
use whypa.Memory.{MemoryManager}
use whypa.Boot.Params.{
  E820Entry, write_e820, write_entries, ram_entry, mmio_entry, reserved_entries, write_memory_map,
}
use whypa.Boot.MemoryMap.Entries.{
  read_entry, read_entries, IsEntry, AllEntries, put_entry, put_entries, write_entries-put_entries,
  read_entries-put_entries, write_entries-append, read_entries-before,
}

copy_in-at : (v p : ℕ) (b : Host) → copy_in (v ∷ []) p b p ≡ v
unfolding copy_in
copy_in-at v p b = ground arith

-- What the memory map is to hold: the memory, the reserved area, the windows of the devices.
unfoldable pub memory_map : MemoryManager → List E820Entry
memory_map mem =
    map ram_entry mem.regions ++ (reserved_entries mem ++ map mmio_entry mem.mmio_regions)

-- What a kernel takes from the zero page: as many entries as it says, and no more than its table holds.
unfoldable pub kernel_memory_map : Host → List E820Entry
kernel_memory_map b = read_entries (min (b 0x1e8) 128) 0x2d0 b

write_entries_past :
    (es : List E820Entry) (offset : ℕ) (params : Host)
    → 4096 < offset + 20 * length es
    → offset ≤ 4096
    → write_entries es offset params ≡ panic
unfolding write_entries write_e820 put_entry
write_entries_past [] offset params over start = absurd (omega arith)
write_entries_past (e ∷ es) offset params over start = elim (Bool-cases (leb (offset + 20) 4096)) [
  | inl here ↦
      rw here (
        write_entries_past es (offset + 20) (put_entry e offset params) (omega arith)
          (ground arith))
  | inr past ↦ rw past refl
]

module _ (mem : MemoryManager) (params : Host) where
  count-length :
      length mem.regions + length (reserved_entries mem) + length mem.mmio_regions
      ≡ length (memory_map mem)
  unfolding memory_map
  count-length = omega (
    arith,
    length-append (map ram_entry mem.regions)
        (reserved_entries mem ++ map mmio_entry mem.mmio_regions),
    length-append (reserved_entries mem) (map mmio_entry mem.mmio_regions),
    length-map mem.regions ram_entry,
    length-map mem.mmio_regions mmio_entry,
  )

  write_memory_map-write_entries :
      write_memory_map mem params
      ≡ and_then
          (write_entries (memory_map mem) 0x2d0 params)
          (λ b. done (copy_in (u8 (length (memory_map mem)) ∷ []) 0x1e8 b))
  unfolding write_memory_map memory_map
  write_memory_map-write_entries =
      let es = map ram_entry mem.regions in
      let fs = reserved_entries mem in
      let gs = map mmio_entry mem.mmio_regions in
      let at : 0x2d0 + 20 * length es + 20 * length fs ≡ 0x2d0 + 20 * length (es ++ fs) =
        omega (arith, length-append es fs) in
      rw
        (
          write_memory_map,
          at,
          write_entries-append es fs 0x2d0 params,
          write_entries-append (es ++ fs) gs 0x2d0 params,
          append_assoc es fs gs,
          count-length,
        )
        refl

  -- The entries fit their fields and are not more than the 128 of the kernel's table. Then they are
  -- written behind one another from 0x2d0 on, the memory, the reserved area and the windows, with their
  -- number at 0x1e8, and the kernel reads them all back.
  pub write_memory_map_lem :
      AllEntries (memory_map mem)
      → length (memory_map mem) ≤ 128
      → (b : Host) × (write_memory_map mem params ≡ done b)
        × (b 0x1e8 ≡ length (memory_map mem))
        × (kernel_memory_map b ≡ memory_map mem)
  unfolding kernel_memory_map
  write_memory_map_lem entries fits =
      let all = memory_map mem in
      let b = put_entries all 0x2d0 params in
      let count : copy_in (u8 (length all) ∷ []) 0x1e8 b 0x1e8 ≡ length all =
        copy_in-at (u8 (length all)) 0x1e8 b ∙ omega arith in
      let few : min (copy_in (u8 (length all) ∷ []) 0x1e8 b 0x1e8) 128 ≡ length all =
        omega (arith, count) in
      (
        copy_in (u8 (length all) ∷ []) 0x1e8 b,
        rw
            (
              write_memory_map-write_entries,
              write_entries-put_entries all 0x2d0 params (omega arith),
            )
            refl,
        count,
        rw few (
            read_entries-before (length all) 0x2d0 (u8 (length all) ∷ []) 0x1e8 b (omega arith)
            ∙ read_entries-put_entries all 0x2d0 params entries),
      )

  -- With more than 168 entries the loops run beyond the page, which is a panic.
  pub write_memory_map_panics : 168 < length (memory_map mem) → write_memory_map mem params ≡ panic
  write_memory_map_panics over =
      rw
        (
          write_memory_map-write_entries,
          write_entries_past (memory_map mem) 0x2d0 params (omega arith) (omega arith),
        )
        refl
