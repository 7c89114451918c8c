-- ===== src/Boot/Kernel.antt =====
-- Loading a kernel in either format, and the start of the processor: `load_linux_kernel`,
-- `load_bzimage_kernel` and `setup_linux_registers` of src/linux_boot.rs, with `setup_linux_registers`
-- of src/partition.rs before it.
use whypa.Base.{
  ℕ, ◌+◌, ◌-◌, ◌*◌, ◌==◌, ◌||◌, not, ltb, if◌then◌else◌, List, [], ◌∷◌, ◌++◌, drop, bit_and,
  from_le_bytes, to_le_bytes, Host, copy_in, copy_out, Outcome, done, and_then, Result, ok, err,
}
use whypa.Memory.{MemoryManager, MemoryError, write_guest_memory, read_guest_memory}
use whypa.Memory.Layout.{
  zero_page_start, high_ram_start, boot_gdt_start, boot_stack_pointer, pml4_start,
}
use whypa.Boot.{setup_identity_paging}
use whypa.Boot.Params.{fill_boot_params, no_params}
use whypa.Boot.Elf.{
  LoadError, missing_header, unsupported_version, memory, read_at, field, bytes_eq, elf_magic,
  load_elf_kernel,
}

-- The bytes of the file's own header, at their place.
unfoldable pub setup_bzimage_boot_params :
    MemoryManager
    → (Host → Outcome Host)
    → ℕ
    → List ℕ
    → ℕ
    → Host
    → Outcome (Result (ℕ × Host) LoadError)
setup_bzimage_boot_params mem create_acpi_tables gpa file code32_start host =
    elim (read_at file 0x201 1) [
      | err e ↦ done (err e)
      | ok size_byte ↦
          let setup_header_size = 0x202 + from_le_bytes size_byte - 0x1f1 in
          elim (read_at file 0x1f1 setup_header_size) [
            | err e ↦ done (err e)
            | ok header ↦
                and_then
                  (fill_boot_params mem create_acpi_tables gpa code32_start
                    (copy_in header 0x1f1 no_params) host)
                  λ r. elim r [
                    | err e ↦ done (err (memory e))
                    | ok (b, host') ↦ done (ok (from_le_bytes (copy_out b 0x260 4), host'))
                  ]
          ]
    ]

abbrev pub setup_size : ℕ → ℕ
setup_size sects = ((if sects == 0 then 4 else sects) + 1) * 512

-- The fields of `setup_header` by their offsets in it.
unfoldable pub load_bzimage_kernel :
    MemoryManager → (Host → Outcome Host) → List ℕ → Host → Outcome (Result (ℕ × Host) LoadError)
load_bzimage_kernel mem create_acpi_tables file host = elim (read_at file 0x1f1 123) [
  | err e ↦ done (err e)
  | ok h ↦
      let header = field h 0x11 4 in
      let version = field h 0x15 2 in
      let loadflags = field h 0x20 1 in
      let code32_start = field h 0x23 4 in
      let payload = drop (setup_size (field h 0 1)) file in
      if not (header == 0x5372_6448)
      then done (err missing_header)
      else if ltb version 0x200 || bit_and loadflags 1 == 0
      then done (err unsupported_version)
      else elim (write_guest_memory mem host payload high_ram_start) [
        | err e ↦ done (err (memory e))
        | ok host' ↦
            and_then
              (setup_bzimage_boot_params mem create_acpi_tables zero_page_start file code32_start
                host')
              λ r. elim r [
                | err e ↦ done (err e)
                | ok (init_size, host'') ↦ done (ok (high_ram_start + 0x200, host''))
              ]
      ]
]

unfoldable pub load_linux_kernel :
    MemoryManager → (Host → Outcome Host) → List ℕ → Host → Outcome (Result (ℕ × Host) LoadError)
load_linux_kernel mem create_acpi_tables file host = elim (read_at file 0 4) [
  | err e ↦ done (err e)
  | ok magic ↦
      (if bytes_eq magic elf_magic
        then load_elf_kernel mem create_acpi_tables file host
        else load_bzimage_kernel mem create_acpi_tables file host)
]

pub record Segment : Type 0 where
  pub selector : ℕ
  pub base : ℕ
  pub limit : ℕ
  pub attributes : ℕ

-- The registers that are set, each with its value.
pub data Register : Type 0 where
  gdtr : ℕ → ℕ → Register
  cr3 cr4 efer cr0 rip rsi rsp rflags : ℕ → Register
  cs ds es ss : Segment → Register

abbrev pub boot_cs : Segment
boot_cs = record { selector = 0x10; base = 0; limit = 0xffff_ffff; attributes = 0xa09b }

abbrev pub boot_ds : Segment
boot_ds = record { selector = 0x18; base = 0; limit = 0xffff_ffff; attributes = 0xc093 }

abbrev pub gdt : List ℕ
gdt = 0 ∷ 0 ∷ 0x00af_9a00_0000_ffff ∷ 0x00cf_9300_0000_ffff ∷ []

unfoldable pub gdt_bytes : List ℕ → List ℕ
gdt_bytes [] = []
gdt_bytes (d ∷ rest) = to_le_bytes 8 d ++ gdt_bytes rest

unfoldable pub boot_registers : ℕ → List Register
boot_registers kernel_entry =
    gdtr boot_gdt_start 31
    ∷ cr3 pml4_start
    ∷ cr4 0x20
    ∷ efer 0x100
    ∷ cr0 0x8005_0033
    ∷ cs boot_cs
    ∷ ds boot_ds
    ∷ es boot_ds
    ∷ ss boot_ds
    ∷ rip kernel_entry
    ∷ rsi zero_page_start
    ∷ rsp boot_stack_pointer
    ∷ rflags 2
    ∷ []

-- The registers go to the hypervisor.
unfoldable pub setup_registers :
    MemoryManager → ℕ → Host → Result (List Register × Host) MemoryError
setup_registers mem kernel_entry host =
    elim (write_guest_memory mem host (gdt_bytes gdt) boot_gdt_start) [
      | err e ↦ err e
      | ok host' ↦ ok (boot_registers kernel_entry, host')
    ]

-- `Partition::setup_linux_registers`: the size that it reads from the zero page only goes into a
-- number that the tables do not depend on.
unfoldable pub setup_linux_registers :
    MemoryManager → ℕ → Host → Result (List Register × Host) MemoryError
setup_linux_registers mem kernel_entry host =
    elim (read_guest_memory mem host zero_page_start 4096) [
      | err e ↦ err e
      | ok boot_params ↦ elim (setup_identity_paging mem host) [
        | err e ↦ err e
        | ok host' ↦ setup_registers mem kernel_entry host'
      ]
    ]
