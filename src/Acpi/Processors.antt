-- ===== src/Acpi/Processors.antt =====
-- How an operating system reads the processors' entries that `create_madt` of src/cpu.rs makes.
use whypa.Base.{
  ℕ, ◌*◌, ◌%◌, ◌^◌, ◌<◌, ◌≡◌, List, take, drop, get_or, to_le_bytes, from_le_bytes, arith,
}
use whypa.Acpi.{local_apic}

-- A processor's entry by the ACPI specification: the processor's number at byte 2, the number of its
-- controller at byte 3, and the flags in four bytes from 4 on, of which the lowest enables it.
pub record ProcessorEntry : Type 0 where
  pub processor_uid : ℕ
  pub apic_id : ℕ
  pub flags : ℕ

unfoldable pub read_processor : List ℕ → ProcessorEntry
read_processor b = record {
  processor_uid = get_or b 2 0;
  apic_id = get_or b 3 0;
  flags = from_le_bytes (take 4 (drop 4 b));
}

-- Every processor is read with controller 1 and with its number in the highest byte of the flags: the
-- flag that enables it is not set.
pub read_processor-local_apic :
    (cpu : ℕ)
    → cpu < 256
    → (read_processor (local_apic cpu)
        ≡ record { processor_uid = cpu; apic_id = 1; flags = cpu * 2 ^ 24 })
      × ((read_processor (local_apic cpu)).flags % 2 ≡ 0)
unfolding read_processor local_apic to_le_bytes from_le_bytes
read_processor-local_apic cpu small = (ground arith, omega arith)
