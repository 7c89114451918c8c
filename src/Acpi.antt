-- ===== src/Acpi.antt =====
-- The ACPI tables: src/acpi.rs, and the table of processors of src/cpu.rs. The tables of the crate
-- acpi_tables and the code of the namespace that it makes are parameters.
pub mod Tables
pub mod Processors
pub mod Timer
pub mod Examples
use Prim.Native.String.{String}
use whypa.Base.{
  ℕ, zero, suc, ◌+◌, ◌*◌, ◌/◌, ◌^◌, ◌==◌, ◌≡◌, not, if◌then◌else◌, Option, none, some, List, [],
  ◌∷◌, ◌++◌, length, map, replicate, bit_and, u8, checked_add64, to_le_bytes, Host, Outcome, done,
  panic, and_then, Result, ok, err,
}
use whypa.Memory.{MemoryManager, write_guest_memory}
use whypa.Memory.Layout.{apic_start, ioapic_start, rsdp_pointer}
use whypa.Machine.{PciSegment, DeviceManager}
use whypa.Boot.Params.{codes}

-- `Sdt`: a table with its signature, length, revision and the identities of its maker.
pub record SdtOps (T : Type 0) : Type 0 where
  pub new : List ℕ → ℕ → ℕ → List ℕ → List ℕ → ℕ → T
  pub write : T → ℕ → List ℕ → T
  pub append : T → List ℕ → T
  pub update_checksum : T → T
  pub as_slice : T → List ℕ
  pub len : T → ℕ
  -- The address of an I/O port as a table holds it.
  pub io_port_address : ℕ → List ℕ
  -- `Rsdp::new` with the address of the XSDT.
  pub rsdp_new : List ℕ → ℕ → List ℕ
  pub rsdp_len : ℕ

-- The length is that of the bytes.
pub record IsSdt {T : Type 0} (sdt : SdtOps T) : Type 0 where
  pub len-as_slice : (t : T) → sdt.len t ≡ length (sdt.as_slice t)

-- `LocalApic`, `Ioapic` and `InterruptSourceOverride`, as they stand in memory.
unfoldable pub local_apic : ℕ → List ℕ
local_apic cpu = 0 ∷ 8 ∷ u8 cpu ∷ (to_le_bytes 4 1 ++ u8 cpu ∷ [])

abbrev pub ioapic_entry : List ℕ
ioapic_entry = 1 ∷ 12 ∷ 0 ∷ 0 ∷ (to_le_bytes 4 ioapic_start ++ to_le_bytes 4 0)

abbrev pub source_override : List ℕ
source_override = 2 ∷ 10 ∷ 0 ∷ 0 ∷ (to_le_bytes 4 2 ++ to_le_bytes 2 0)

-- `PciRangeEntry`.
abbrev pub pci_range_entry : PciSegment → List ℕ
pci_range_entry s =
    to_le_bytes 8 s.mmio_config_address ++ (to_le_bytes 2 s.id ++ (0 ∷ 255 ∷ to_le_bytes 4 0))

module _ {T : Type 0} (sdt : SdtOps T) where
  abbrev pub table : String → ℕ → ℕ → String → T
  table signature size revision oem_table =
      sdt.new (codes signature) size revision (codes "CLOUDH") (codes oem_table) 1

  -- Entries one after another.
  unfoldable pub append_all : List (List ℕ) → T → T
  append_all [] t = t
  append_all (e ∷ es) t = append_all es (sdt.append t e)

  unfoldable pub local_apics : ℕ → ℕ → List (List ℕ)
  local_apics zero cpu = []
  local_apics (suc n) cpu = local_apic cpu ∷ local_apics n (cpu + 1)

  unfoldable pub create_madt : ℕ → T
  create_madt cpus =
      let madt = sdt.write (table "APIC" 44 5 "CHMADT  ") 36 (to_le_bytes 8 apic_start) in
      let zeroed = sdt.write madt 32 (to_le_bytes 4 0) in
      sdt.update_checksum (
        sdt.append (sdt.append (append_all (local_apics cpus 0) zeroed) ioapic_entry)
          source_override)

  -- The namespace of the devices and of the processors.
  unfoldable pub create_dsdt_table : List ℕ → T
  create_dsdt_table aml = sdt.append (table "DSDT" 36 6 "CHDSDT  ") aml

  -- The reset and sleep registers have no addresses.
  unfoldable pub write_pm_timer : Option ℕ → T → T
  write_pm_timer none facp = facp
  write_pm_timer (some port) facp =
      sdt.write (sdt.write facp 208 (sdt.io_port_address port)) 76 (to_le_bytes 4 0x608)

  unfoldable pub create_facp_table : ℕ → DeviceManager → T
  create_facp_table dsdt_offset d =
      let facp = write_pm_timer d.pm_timer_address (table "FACP" 276 6 "CHFACP  ") in
      let timer = sdt.write facp 91 (4 ∷ []) in
      let flags = sdt.write timer 112 (to_le_bytes 4 (2 ^ 20 + 2 ^ 10 + 2 ^ 8)) in
      let minor = sdt.write flags 131 (3 ∷ []) in
      let dsdt = sdt.write minor 140 (to_le_bytes 8 dsdt_offset) in
      sdt.update_checksum (sdt.write dsdt 268 (codes "CLOUDHYP"))

  unfoldable pub create_mcfg_table : List PciSegment → T
  create_mcfg_table segments = sdt.update_checksum (
      append_all (map pci_range_entry segments)
        (sdt.append (table "MCFG" 36 1 "CHMCFG  ") (to_le_bytes 8 0)))

  unfoldable pub create_xsdt : List ℕ → T
  create_xsdt pointers =
      sdt.update_checksum (append_all (map (to_le_bytes 8) pointers) (table "XSDT" 36 1 "CHXSDT  "))

  -- `checked_add` and `unwrap`.
  abbrev pub address_after : ℕ → T → Outcome ℕ
  address_after at t = elim (checked_add64 at (sdt.len t)) [ none ↦ panic | some a ↦ done a ]

  -- The RSDP, the bytes of the tables, and the pointers of the XSDT.
  unfoldable pub create_acpi_tables_internal :
      ℕ → List ℕ → ℕ → DeviceManager → Outcome (List ℕ × List ℕ × List ℕ)
  create_acpi_tables_internal dsdt_addr aml cpus d =
      let dsdt = create_dsdt_table aml in
      let facp = create_facp_table dsdt_addr d in
      let madt = create_madt cpus in
      let mcfg = create_mcfg_table d.pci_segments in
      and_then (address_after dsdt_addr dsdt) λ facp_addr.
        and_then (address_after facp_addr facp) λ madt_addr.
          and_then (address_after madt_addr madt) λ mcfg_addr.
            let pointers = facp_addr ∷ madt_addr ∷ mcfg_addr ∷ [] in
            let xsdt = create_xsdt pointers in
            and_then (address_after mcfg_addr mcfg) λ xsdt_addr. done (
              sdt.rsdp_new (codes "CLOUDH") xsdt_addr,
              sdt.as_slice dsdt
                  ++ (sdt.as_slice facp
                      ++ (sdt.as_slice madt ++ (sdt.as_slice mcfg ++ sdt.as_slice xsdt))),
              pointers,
            )

  -- A write that fails is passed over.
  abbrev pub try_write : MemoryManager → List ℕ → ℕ → Host → Host
  try_write mem bytes at host = elim (write_guest_memory mem host bytes at) [
    | ok host' ↦ host'
    | err e ↦ host
  ]

  unfoldable pub create_acpi_tables :
      MemoryManager → List ℕ → ℕ → DeviceManager → Host → Outcome Host
  create_acpi_tables mem aml cpus d host = elim (checked_add64 rsdp_pointer sdt.rsdp_len) [
    | none ↦ panic
    | some dsdt_addr ↦
        and_then (create_acpi_tables_internal dsdt_addr aml cpus d)
          λ r. done (try_write mem r.1 dsdt_addr (try_write mem r.0 rsdp_pointer host))
  ]

-- `AcpiPmTimerDevice::read`, so many nanoseconds after the device was made.
unfoldable pub read_pm_timer : ℕ → List ℕ → List ℕ
read_pm_timer nanos buf =
    let counter = nanos * 3_579_545 / 1_000_000_000 in
    if not (length buf == 4) then buf else to_le_bytes 4 (bit_and counter 0xffff_ffff)
