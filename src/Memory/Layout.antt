-- ===== src/Memory/Layout.antt =====
-- The guest's address map: src/memory/layout.rs.
use whypa.Base.{ℕ}

abbrev pub boot_gdt_start : ℕ
boot_gdt_start = 0x500

abbrev pub zero_page_start : ℕ
zero_page_start = 0x7000

abbrev pub boot_stack_pointer : ℕ
boot_stack_pointer = 0x8ff0

abbrev pub pml4_start : ℕ
pml4_start = 0xa000

abbrev pub pdpte_start : ℕ
pdpte_start = 0xb000

abbrev pub cmdline_start : ℕ
cmdline_start = 0x20000

abbrev pub rsdp_pointer : ℕ
rsdp_pointer = 0xe0000

abbrev pub high_ram_start : ℕ
high_ram_start = 0x100000

abbrev pub mem_32bit_devices_start : ℕ
mem_32bit_devices_start = 0xc000_0000

abbrev pub mem_32bit_devices_size : ℕ
mem_32bit_devices_size = 0x2800_0000

abbrev pub pci_mmconfig_start : ℕ
pci_mmconfig_start = 0xe800_0000

abbrev pub pci_mmconfig_size : ℕ
pci_mmconfig_size = 0x1000_0000

abbrev pub ioapic_start : ℕ
ioapic_start = 0xfec0_0000

abbrev pub ioapic_size : ℕ
ioapic_size = 0x1000

abbrev pub apic_start : ℕ
apic_start = 0xfee0_0000

abbrev pub mem_32bit_reserved_start : ℕ
mem_32bit_reserved_start = 0xfec0_0000

abbrev pub mem_32bit_reserved_size : ℕ
mem_32bit_reserved_size = 0x140_0000

abbrev pub virtio_mmio_start : ℕ
virtio_mmio_start = 0xfeb0_0000

abbrev pub virtio_mmio_size_per_device : ℕ
virtio_mmio_size_per_device = 0x1000

abbrev pub ram_64bit_start : ℕ
ram_64bit_start = 0x1_0000_0000
