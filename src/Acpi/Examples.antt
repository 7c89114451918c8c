-- ===== src/Acpi/Examples.antt =====
-- Tables that are their bytes.
use whypa.Base.{
  ℕ, ◌+◌, ◌-◌, ◌*◌, ◌%◌, ◌^◌, ◌<◌, ◌≡◌, refl, List, [], ◌∷◌, ◌++◌, length, take, drop, replicate,
  to_le_bytes, from_le_bytes, Host, copy_in, done, arith,
}
use whypa.Machine.{DeviceManager}
use whypa.Machine.Devices.{new_device_manager, add_acpi_platform_device, pci_segment}
use whypa.Boot.Params.{codes}
use whypa.Acpi.{
  SdtOps, IsSdt, local_apic, create_dsdt_table, create_facp_table, create_madt, create_mcfg_table,
  create_xsdt, create_acpi_tables_internal, read_pm_timer, append_all, local_apics, write_pm_timer,
}
use whypa.Acpi.Tables.{Stands, create_acpi_tables_internal_lem}
use whypa.Acpi.Timer.{read_pm_timer_elapsed}
use whypa.Acpi.Processors.{read_processor, read_processor-local_apic}

abbrev pub table : SdtOps (List ℕ)
table = record {
  new = λ signature size revision oem oem_table oem_revision.
      signature ++ replicate (size - length signature) 0;
  write = λ t at bytes. take at t ++ (bytes ++ drop (at + length bytes) t);
  append = λ t bytes. t ++ bytes;
  update_checksum = λ t. t;
  as_slice = λ t. t;
  len = λ t. length t;
  io_port_address = λ port. 1 ∷ 32 ∷ 0 ∷ 3 ∷ to_le_bytes 8 port;
  rsdp_new = λ oem at. codes "RSD PTR " ++ to_le_bytes 8 at;
  rsdp_len = 36;
}

pub table-IsSdt : IsSdt table
table-IsSdt = record { len-as_slice = λ t. refl }

abbrev devices : DeviceManager
devices = new_device_manager 0x8000_0000

tables_end :
    0xa_0024
      + length (create_dsdt_table table (1 ∷ 2 ∷ []))
      + length (create_facp_table table 0xa_0024 devices)
      + length (create_madt table 2)
      + length (create_mcfg_table table devices.pci_segments)
    < 2 ^ 64
unfolding create_dsdt_table create_facp_table create_madt create_mcfg_table append_all local_apics
    local_apic write_pm_timer new_device_manager add_acpi_platform_device pci_segment to_le_bytes
tables_end = omega arith

abbrev at_tables : ℕ → List ℕ → Host
at_tables at bytes = copy_in bytes at (λ a. 0)

create_acpi_tables_internal_lem_example :
    (f a c x : ℕ) × (bytes : List ℕ) × (create_acpi_tables_internal table 0xa_0024
        (1 ∷ 2 ∷ [])
        2
        devices
      ≡ done (table.rsdp_new (codes "CLOUDH") x, bytes, f ∷ a ∷ c ∷ []))
    × Stands table table-IsSdt 0xa_0024 2
        (1 ∷ 2 ∷ [])
        devices
        (at_tables 0xa_0024 bytes)
        0xa_0024
        (create_dsdt_table table (1 ∷ 2 ∷ []))
    × Stands table table-IsSdt 0xa_0024 2
        (1 ∷ 2 ∷ [])
        devices
        (at_tables 0xa_0024 bytes)
        f
        (create_facp_table table 0xa_0024 devices)
    × Stands table table-IsSdt 0xa_0024 2
        (1 ∷ 2 ∷ [])
        devices
        (at_tables 0xa_0024 bytes)
        a
        (create_madt table 2)
    × Stands table table-IsSdt 0xa_0024 2
        (1 ∷ 2 ∷ [])
        devices
        (at_tables 0xa_0024 bytes)
        c
        (create_mcfg_table table devices.pci_segments)
    × Stands table table-IsSdt 0xa_0024 2
        (1 ∷ 2 ∷ [])
        devices
        (at_tables 0xa_0024 bytes)
        x
        (create_xsdt table (f ∷ a ∷ c ∷ []))
create_acpi_tables_internal_lem_example =
    create_acpi_tables_internal_lem table table-IsSdt 0xa_0024 2 (1 ∷ 2 ∷ []) devices (λ a. 0)
      tables_end

read_pm_timer_elapsed_example :
    let ticks =
      (from_le_bytes (read_pm_timer 9_000_000 (0 ∷ 0 ∷ 0 ∷ 0 ∷ []))
        + 2 ^ 32
        - from_le_bytes (read_pm_timer 4_000_000 (0 ∷ 0 ∷ 0 ∷ 0 ∷ [])))
      % 2 ^ 32 in
    (1_000_000_000 * ticks < 3_579_545 * (9_000_000 - 4_000_000) + 1_000_000_000)
    × (3_579_545 * (9_000_000 - 4_000_000) < 1_000_000_000 * ticks + 1_000_000_000)
read_pm_timer_elapsed_example =
    read_pm_timer_elapsed 4_000_000 9_000_000 (0 ∷ 0 ∷ 0 ∷ 0 ∷ []) (0 ∷ 0 ∷ 0 ∷ 0 ∷ []) refl refl
      (omega arith) (omega arith)

read_processor-local_apic_example :
    (read_processor (local_apic 3) ≡ record { processor_uid = 3; apic_id = 1; flags = 3 * 2 ^ 24 })
    × ((read_processor (local_apic 3)).flags % 2 ≡ 0)
read_processor-local_apic_example = read_processor-local_apic 3 (omega arith)
