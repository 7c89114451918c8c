-- ===== src/Boot/Params.antt =====
-- The boot parameters of Linux, the "zero page": `fill_boot_params` and its callers in
-- src/linux_boot.rs. The vector of 4096 bytes is a function on the offsets below its length; an index
-- beyond it is a panic. The file of the kernel is its bytes.
use Prim.Native.Char.{code}
use Prim.Native.String.{String}
use whypa.Base.{
  ℕ, ◌+◌, ◌*◌, ltb, leb, if◌then◌else◌, List, [], ◌∷◌, ◌++◌, length, map, replicate, bit_and,
  bit_or, complement, u8, u32, u64, to_le_bytes, Host, copy_in, copy_out, Outcome, done, panic,
  and_then, Result, ok, err,
}
use whypa.Memory.{MemoryManager, MemoryRegion, MmioRegion, MemoryError, write_guest_memory}
use whypa.Memory.Layout.{cmdline_start, mem_32bit_reserved_start, mem_32bit_reserved_size}
use whypa.Machine.{get_memory_size}

abbrev pub codes : String → List ℕ
codes String.[] = []
codes (String.◌∷◌ c s) = code c ∷ codes s

abbrev pub params_len : ℕ
params_len = 4096

pub record E820Entry : Type 0 where
  pub mem_addr : ℕ
  pub mem_size : ℕ
  pub mem_type : ℕ

unfoldable pub write_e820 : Host → ℕ → E820Entry → Outcome Host
write_e820 params offset e =
    if leb (offset + 20) params_len
    then done (
        copy_in (to_le_bytes 4 e.mem_type) (offset + 16) (
          copy_in (to_le_bytes 8 e.mem_size) (offset + 8)
            (copy_in (to_le_bytes 8 e.mem_addr) offset params)))
    else panic

-- A loop of the memory map: an entry after another.
unfoldable pub write_entries : List E820Entry → ℕ → Host → Outcome Host
write_entries [] offset params = done params
write_entries (e ∷ es) offset params =
    and_then (write_e820 params offset e) (write_entries es (offset + 20))

abbrev pub ram_entry : MemoryRegion → E820Entry
ram_entry r = record { mem_addr = r.gpa; mem_size = r.size; mem_type = 1 }

abbrev pub mmio_entry : MmioRegion → E820Entry
mmio_entry r = record { mem_addr = r.gpa; mem_size = r.size; mem_type = 2 }

-- The reserved area below 4 GiB, if the memory goes beyond its start.
unfoldable pub reserved_entries : MemoryManager → List E820Entry
reserved_entries mem =
    if ltb mem_32bit_reserved_start (get_memory_size mem)
    then record {
      mem_addr = mem_32bit_reserved_start;
      mem_size = mem_32bit_reserved_size;
      mem_type = 2;
    }
      ∷ []
    else []

abbrev pub e820_start : ℕ
e820_start = 0x2d0

-- The three parts of the memory map, one after another, and their number.
unfoldable pub write_memory_map : MemoryManager → Host → Outcome Host
write_memory_map mem params =
    let ram = map ram_entry mem.regions in
    let reserved = reserved_entries mem in
    let mmio = map mmio_entry mem.mmio_regions in
    let after_ram = e820_start + 20 * length ram in
    let after_reserved = after_ram + 20 * length reserved in
    let count = length mem.regions + length reserved + length mem.mmio_regions in
    and_then
      (and_then (and_then (write_entries ram e820_start params) (write_entries reserved after_ram))
        (write_entries mmio after_reserved))
      (λ b. done (copy_in (u8 count ∷ []) 0x1e8 b))

-- The fields that both formats share, up to the memory map.
unfoldable pub fill_fields : ℕ → Host → Host
fill_fields code32_start params =
    let loader = copy_in (0xff ∷ []) 0x210 params in
    let flags = copy_in (bit_or (loader 0x211) 0x81 ∷ []) 0x211 loader in
    let start = copy_in (to_le_bytes 4 (u32 code32_start)) 0x214 flags in
    let heap = copy_in (to_le_bytes 2 0xfe00) 0x224 start in
    let cmdline = copy_in (to_le_bytes 4 cmdline_start) 0x228 heap in
    copy_in (codes "HdrS") 0x202 (copy_in (replicate 15 0) 0x1e0 cmdline)

unfoldable pub cmd_line : List ℕ
cmd_line =
    codes
      "console=hvc0 8250.nr_uarts=0 root=/dev/vda rw loglevel=7 ip=192.168.127.2::192.168.127.1:255.255.255.0:virtio-hostname:eth0:off"
    ++ 0 ∷ []

-- With the bytes of the zero page, for those that read them later. `create_acpi_tables` writes to the
-- guest's memory and answers nothing that is used.
unfoldable pub fill_boot_params :
    MemoryManager
    → (Host → Outcome Host)
    → ℕ
    → ℕ
    → Host
    → Host
    → Outcome (Result (Host × Host) MemoryError)
fill_boot_params mem create_acpi_tables gpa code32_start params host =
    elim (write_guest_memory mem host cmd_line cmdline_start) [
      | err e ↦ done (err e)
      | ok host' ↦ and_then (write_memory_map mem (fill_fields code32_start params)) λ b.
          elim (write_guest_memory mem host' (copy_out b 0 params_len) gpa) [
            | err e ↦ done (err e)
            | ok host'' ↦ and_then (create_acpi_tables host'') λ h. done (ok (b, h))
          ]
    ]

abbrev pub no_params : Host
no_params offset = 0

-- The header that an ELF kernel lacks.
unfoldable pub elf_params : ℕ → Host
elf_params init_size = copy_in (to_le_bytes 4 init_size) 0x260 (
    copy_in (to_le_bytes 2 0x20f) 0x206
      (copy_in (codes "HdrS") 0x202 (copy_in (0 ∷ []) 0x1f1 no_params)))

abbrev pub elf_init_size : ℕ → ℕ
elf_init_size kernel_size = u32 (bit_and (u64 (kernel_size + 0xfff)) (complement 64 0xfff))

unfoldable pub setup_elf_boot_params :
    MemoryManager
    → (Host → Outcome Host)
    → ℕ
    → ℕ
    → ℕ
    → Host
    → Outcome (Result (ℕ × Host) MemoryError)
setup_elf_boot_params mem create_acpi_tables gpa code32_start kernel_size host =
    and_then
      (fill_boot_params mem create_acpi_tables gpa code32_start
        (elf_params (elf_init_size kernel_size)) host)
      λ r. elim r [
        | err e ↦ done (err e)
        | ok (b, host') ↦ done (ok (elf_init_size kernel_size, host'))
      ]
