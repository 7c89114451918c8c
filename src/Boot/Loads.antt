-- ===== src/Boot/Loads.antt =====
-- When an ELF kernel is loaded: `load_elf_kernel` and `fill_boot_params` of src/linux_boot.rs on the
-- memory of a machine.
use whypa.Base.{
  ℕ, ◌+◌, ◌-◌, ◌*◌, ◌^◌, ◌<◌, ◌≤◌, ◌≡◌, refl, ◌⊎◌, inl, inr, Bool-cases, true, false, ◌==◌, List,
  [], ◌∷◌, length, any, sub64, Host, copy_in, copy_out, Outcome, done, and_then, ok, Result-cases,
  arith,
}
use whypa.Memory.{MemoryManager, MmioRegion}
use whypa.Boot.Params.{
  fill_boot_params, fill_fields, setup_elf_boot_params, elf_params, elf_init_size, cmd_line,
}
use whypa.Boot.Elf.{
  Elf64Phdr, Loading, is_load, read_at, ehdr_of, phdrs_of, check_ehdr, start_loading, note_segment,
  copy_segment, load_segment, load_segments, phys_entry, finish_elf, load_elf_kernel,
}
use whypa.Boot.MemoryMap.{memory_map, kernel_memory_map, write_memory_map_lem}
use whypa.Boot.MemoryMap.Entries.{AllEntries}
use whypa.Boot.Segments.{AreLoadable, EachLoad, Loaded, load_segments_lem}
use whypa.Boot.Entry.{first_offset, load_segments-offset}
use whypa.Boot.Start.{copy_out_all}
use whypa.Boot.Writes.{low_end, machine_memory, low_write}

pub cmd_line_short : length cmd_line < 0x1000
unfolding cmd_line
cmd_line_short = omega arith

module _ (source total : ℕ) (ms : List MmioRegion) (bound : total < 2 ^ 63) where
  abbrev mem : MemoryManager
  mem = machine_memory source total ms

  load_segments-lowest :
      (file : List ℕ) (phs : List Elf64Phdr) (l l' : Loading)
      → AreLoadable file total phs
      → load_segments mem file phs l ≡ ok l'
      → (l.lowest_paddr < 2 ^ 63) ⊎ (any is_load phs ≡ true)
      → l'.lowest_paddr < 2 ^ 63
  unfolding load_segments load_segment note_segment
  load_segments-lowest file [] l l' loadable e low = ground arith
  load_segments-lowest file (ph ∷ phs) l l' loadable e low = elim (Bool-cases (is_load ph)) [
    | inr other ↦ load_segments-lowest file phs l l' loadable.1 (ground arith) (ground arith)
    | inl load ↦ elim (Result-cases (copy_segment mem file ph l.host)) [
      | inr (x, failed) ↦ absurd (ground arith)
      | inl (host', copied) ↦
          let here = (loadable.0 load).1 in
          load_segments-lowest file phs (note_segment ph host' l) l' loadable.1 (ground arith)
            (inl (ground (arith, here)))
    ]
  ]

  module _ (room : 0x2_1000 < low_end total) (entries : AllEntries (memory_map mem))
      (few : length (memory_map mem) ≤ 128) (tables : Host → Outcome Host)
      (written : (h : Host) → (h' : Host) × (tables h ≡ done h')) where
    -- The memory after the boot parameters: the command line, the zero page, and what the tables make
    -- of it.
    abbrev Filled : Host → Host → Type 0
    Filled host host' =
        (b : Host) × (kernel_memory_map b ≡ memory_map mem)
        × (tables (
              copy_in (copy_out b 0 4096) (source + 0x7000)
                (copy_in cmd_line (source + 0x2_0000) host))
            ≡ done host')

    fill_boot_params_lem :
        (code32_start : ℕ) (params host : Host)
        → (b host' : Host) × (fill_boot_params mem tables 0x7000 code32_start params host
            ≡ done (ok (b, host')))
          × Filled host host'
    unfolding fill_boot_params
    fill_boot_params_lem code32_start params host =
        let w₁ =
          low_write source total ms bound cmd_line 0x2_0000 host (omega (arith, cmd_line_short)) in
        let b = write_memory_map_lem mem (fill_fields code32_start params) entries few in
        let named = copy_in cmd_line (source + 0x2_0000) host in
        let w₂ =
          low_write source total ms bound (copy_out b.0 0 4096) 0x7000 named
            (omega (arith, copy_out_all b.0 0 4096)) in
        let t = written (copy_in (copy_out b.0 0 4096) (source + 0x7000) named) in
        (b.0, t.0, rw (fill_boot_params, w₁, b.1, and_then, w₂, t.1) refl, (b.0, b.3, t.1))

    -- The kernel is loaded, then the boot parameters are filled.
    pub load_elf_kernel-done :
        (file header table : List ℕ) (host : Host)
        → read_at file 0 64 ≡ ok header
        → check_ehdr (ehdr_of header) ≡ ok tt
        → read_at file (ehdr_of header).e_phoff (56 * (ehdr_of header).e_phnum) ≡ ok table
        → let phs = phdrs_of (ehdr_of header).e_phnum table in
          AreLoadable file total phs
          → any is_load phs ≡ true
          → (host' : Host) × (load_elf_kernel mem tables file host
              ≡ done (ok (phys_entry phs (ehdr_of header).e_entry (first_offset phs), host')))
            × (l : Loading) × EachLoad (Loaded source total ms bound file l.host) phs
            × Filled l.host host'
    unfolding load_elf_kernel finish_elf setup_elf_boot_params
    load_elf_kernel-done file header table host head good heads loadable some_load =
        let phs = phdrs_of (ehdr_of header).e_phnum table in
        let l = load_segments_lem source total ms bound file phs (start_loading host) loadable in
        let low =
          load_segments-lowest file phs (start_loading host) l.0 loadable l.1 (inr some_load) in
        let found : (l.0.lowest_paddr == 2 ^ 64 - 1) ≡ false = ground (arith, low) in
        let offset = load_segments-offset mem file phs (start_loading host) l.0 l.1 in
        let size = elf_init_size (sub64 l.0.highest_end l.0.lowest_paddr) in
        let f = fill_boot_params_lem l.0.lowest_paddr (elf_params size) l.0.host in
        (
          f.1,
          rw (load_elf_kernel, head, good, heads, l.1, finish_elf, found, f.2, offset) refl,
          l.0,
          l.2,
          f.3,
        )
