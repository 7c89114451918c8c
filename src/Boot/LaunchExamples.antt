-- ===== src/Boot/LaunchExamples.antt =====
-- An ELF file of one segment, which holds three bytes, and a machine with 2 GiB of memory that starts it.
use whypa.Base.{
  ℕ, ◌+◌, ◌*◌, ◌^◌, ◌<◌, ◌≤◌, ◌≡◌, refl, ap, ◌∙◌, inl, Outcome, true, some, List, [], ◌∷◌, ◌++◌,
  length, any, replicate, copy_in, copy_in_outside, copy_out, panic, inr, sym, ◌⊎◌, to_le_bytes,
  from_le_bytes, Host, done, ok, arith,
}
use whypa.Machine.{Partition, DeviceManager, register_mmio_handler}
use whypa.Machine.Devices.{
  new, new_device_manager, add_acpi_platform_device, pci_segment, register_virtio_mmio,
}
use whypa.Machine.Examples.{total, calls, granted}
use whypa.Machine.Ram.{with_ram}
use whypa.Machine.Windows.{windows, place, added}
use whypa.Machine.Map.{set_up-place}
use whypa.Acpi.{
  create_acpi_tables, create_dsdt_table, create_facp_table, create_madt, create_mcfg_table,
  try_write, append_all, local_apics, local_apic, write_pm_timer,
}
use whypa.Acpi.Examples.{table, table-IsSdt}
use whypa.Acpi.Tables.{create_acpi_tables_internal_lem}
use whypa.Boot.Params.{codes, cmd_line}
use whypa.Boot.Elf.{
  Elf64Phdr, is_load, read_at, ehdr_of, phdr_of, phdrs_of, check_ehdr, bytes_eq, phys_entry,
  load_elf_kernel,
}
use whypa.Boot.Kernel.{Register, load_linux_kernel}
use whypa.Boot.Segments.{AreLoadable, EachLoad, Loaded}
use whypa.Boot.Entry.{first_offset}
use whypa.Boot.Loads.{cmd_line_short, load_elf_kernel-done}
use whypa.Boot.MemoryMap.{memory_map, kernel_memory_map}
use whypa.Boot.Entering.{EndsWithin, EntersAt}
use whypa.Boot.Image.{IsClear, load_elf_kernel_lem}
use whypa.Boot.Paging.{translate}
use whypa.Boot.Start.{page_tables, first_instruction}
use whypa.Boot.Launch.{load_kernel, start, start_lem, made_machine}
use whypa.Boot.Examples.{mem, zeros, entries-AllEntries, entries_few}

-- The entry is the virtual address 0x81000010.
abbrev header : List ℕ
header =
    0x7f
    ∷ 0x45
    ∷ 0x4c
    ∷ 0x46
    ∷ 2
    ∷ 1
    ∷ 1
    ∷ (replicate 9 0
        ++ (2
            ∷ 0
            ∷ 62
            ∷ 0
            ∷ 1
            ∷ 0
            ∷ 0
            ∷ 0
            ∷ 0x10
            ∷ 0
            ∷ 0
            ∷ 0x81
            ∷ 0
            ∷ 0
            ∷ 0
            ∷ 0
            ∷ 64
            ∷ (replicate 19 0 ++ (64 ∷ 0 ∷ 56 ∷ 0 ∷ 1 ∷ 0 ∷ 0 ∷ 0 ∷ 0 ∷ 0 ∷ 0 ∷ 0 ∷ []))))

abbrev heads : List ℕ
heads =
    1
    ∷ 0
    ∷ 0
    ∷ 0
    ∷ 5
    ∷ 0
    ∷ 0
    ∷ 0
    ∷ 120
    ∷ (replicate 7 0
        ++ (0
            ∷ 0
            ∷ 0
            ∷ 0x81
            ∷ 0
            ∷ 0
            ∷ 0
            ∷ 0
            ∷ 0
            ∷ 0
            ∷ 0
            ∷ 1
            ∷ 0
            ∷ 0
            ∷ 0
            ∷ 0
            ∷ 3
            ∷ (replicate 8 0 ++ (16 ∷ (replicate 7 0 ++ (16 ∷ (replicate 6 0)))))))

abbrev file : List ℕ
file = header ++ (heads ++ (7 ∷ 8 ∷ 9 ∷ []))

abbrev phs : List Elf64Phdr
phs = phdrs_of 1 heads

header_read : read_at file 0 64 ≡ ok header
unfolding read_at
header_read = refl

header_good : check_ehdr (ehdr_of header) ≡ ok tt
unfolding check_ehdr ehdr_of bytes_eq from_le_bytes
header_good = refl

heads_read : read_at file (ehdr_of header).e_phoff (56 * (ehdr_of header).e_phnum) ≡ ok heads
unfolding read_at ehdr_of from_le_bytes
heads_read = refl

heads-AreLoadable : AreLoadable file total (phdrs_of (ehdr_of header).e_phnum heads)
unfolding ehdr_of phdrs_of phdr_of from_le_bytes
heads-AreLoadable = ((λ load. (omega arith, omega arith, tt)), tt)

heads-is_load : any is_load (phdrs_of (ehdr_of header).e_phnum heads) ≡ true
unfolding ehdr_of phdrs_of phdr_of from_le_bytes
heads-is_load = refl

heads-IsClear : EachLoad IsClear (phdrs_of (ehdr_of header).e_phnum heads)
unfolding ehdr_of phdrs_of phdr_of from_le_bytes
heads-IsClear =
    ((λ load. (inl (omega arith), inl (omega (arith, cmd_line_short)), inl (omega arith))), tt)

heads-EndsWithin : EachLoad EndsWithin (phdrs_of (ehdr_of header).e_phnum heads)
unfolding ehdr_of phdrs_of phdr_of from_le_bytes
heads-EndsWithin = ((λ load. omega arith), tt)

-- The virtual entry 0x81000010 is the physical address 0x1000010.
heads-EntersAt :
    EntersAt (phdrs_of (ehdr_of header).e_phnum heads) (ehdr_of header).e_entry 0x100_0010
unfolding ehdr_of phdrs_of phdr_of from_le_bytes first_offset
heads-EntersAt = inr (
  ((λ load holds. omega (arith, holds)), tt),
  phdr_of heads,
  refl,
  omega arith,
  omega arith,
  omega arith,
  omega arith,
  omega arith,
)

-- Tables that are the first letters of the RSDP.
abbrev letters : Host → Outcome Host
letters h = done (copy_in (82 ∷ 83 ∷ 68 ∷ []) (0x1000_0000 + 0xe_0000) h)

letters_frame :
    (h h' : Host)
    → letters h ≡ done h'
    → (a : ℕ) → (a < 0xe_0000) ⊎ (0x10_0000 ≤ a)
    → h' (0x1000_0000 + a) ≡ h (0x1000_0000 + a)
letters_frame h h' same a outside =
    ap (λ (o : Outcome Host). elim o [ done g ↦ g (0x1000_0000 + a) | panic ↦ 0 ]) (sym same)
    ∙ copy_in_outside (82 ∷ 83 ∷ 68 ∷ []) (0x1000_0000 + 0xe_0000) (0x1000_0000 + a) h (omega arith)

load_elf_kernel_lem_example :
    (host' : Host) × (load_elf_kernel mem letters file zeros ≡ done (ok (0x100_0010, host')))
    × EachLoad
        (Loaded 0x1000_0000 total windows (omega arith) file host')
        (phdrs_of (ehdr_of header).e_phnum heads)
    × (copy_out host' (0x1000_0000 + 0x2_0000) (length cmd_line) ≡ cmd_line)
    × (kernel_memory_map (λ a. host' (0x1000_0000 + 0x7000 + a)) ≡ memory_map mem)
load_elf_kernel_lem_example =
    load_elf_kernel_lem 0x1000_0000 total windows (omega arith) (omega arith) entries-AllEntries
      entries_few letters (λ h. (copy_in (82 ∷ 83 ∷ 68 ∷ []) (0x1000_0000 + 0xe_0000) h, refl))
      letters_frame file header heads zeros 0x100_0010 header_read header_good heads_read
      heads-AreLoadable heads-is_load heads-IsClear heads-EndsWithin heads-EntersAt

-- The code of the namespace is two bytes.
abbrev aml : DeviceManager → ℕ → List ℕ
aml d cpus = 1 ∷ 2 ∷ []

abbrev machine : Partition
machine = place 0x1000_0000 total windows (added (with_ram 0x1000_0000 total (new total)))

tables_end :
    0xe_0024
      + length (create_dsdt_table table (1 ∷ 2 ∷ []))
      + length (create_facp_table table 0xe_0024 machine.device_manager)
      + length (create_madt table 1)
      + length (create_mcfg_table table machine.device_manager.pci_segments)
    < 2 ^ 64
unfolding create_dsdt_table create_facp_table create_madt create_mcfg_table append_all local_apics
    local_apic write_pm_timer new new_device_manager add_acpi_platform_device pci_segment
    register_virtio_mmio register_mmio_handler to_le_bytes
tables_end = omega arith

tables_written :
    (host : Host)
    → (host' : Host) × (create_acpi_tables table mem (1 ∷ 2 ∷ []) 1 machine.device_manager host
        ≡ done host')
unfolding create_acpi_tables
tables_written host =
    let r =
      create_acpi_tables_internal_lem table table-IsSdt 0xe_0024 1 (1 ∷ 2 ∷ [])
        machine.device_manager host tables_end in
    (
      try_write table mem r.4 0xe_0024
          (try_write table mem (table.rsdp_new (codes "CLOUDH") r.3) 0xe_0000 host),
      rw (create_acpi_tables, r.5) refl,
    )

abbrev started : Partition
started =
    made_machine table aml calls 0x1000_0000 total granted (omega arith) (omega arith) (omega arith)
      (λ i. true) (λ i. refl) (inl (omega arith))

abbrev entry : ℕ
entry =
    phys_entry (phdrs_of (ehdr_of header).e_phnum heads) (ehdr_of header).e_entry
      (first_offset (phdrs_of (ehdr_of header).e_phnum heads))

kernel_loaded :
    (host' : Host) × (load_kernel table aml 1 file started zeros ≡ done (ok (entry, host')))
unfolding load_kernel load_linux_kernel read_at bytes_eq
kernel_loaded =
    let l =
      load_elf_kernel-done 0x1000_0000 total windows (omega arith) (omega arith) entries-AllEntries
        entries_few (create_acpi_tables table mem (1 ∷ 2 ∷ []) 1 machine.device_manager)
        tables_written file header heads zeros header_read header_good heads_read heads-AreLoadable
        heads-is_load in
    (
      l.0,
      ap (λ p. load_kernel table aml 1 file p zeros)
            (set_up-place calls 0x1000_0000 total granted (omega arith) (omega arith) (λ i. true)
              (λ i. refl) total (inl (omega arith)))
          ∙ l.1,
    )

start_lem_example :
    (registers : List Register) × (host' : Host) × (root : ℕ) × (start table aml calls
        (λ i. true)
        total
        file
        zeros
      ≡ done (ok (registers, host')))
    × (first_instruction registers ≡ some entry)
    × (page_tables registers ≡ some root)
    × ((va : ℕ) → va < 2 ^ 32 → translate (λ a. host' (0x1000_0000 + a)) root va ≡ some va)
start_lem_example =
    start_lem table aml calls 0x1000_0000 total granted (omega arith) (omega arith) (omega arith)
      (λ i. true) (λ i. refl) (inl (omega arith)) file zeros kernel_loaded.0 entry kernel_loaded.1
