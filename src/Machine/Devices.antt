-- ===== src/Machine/Devices.antt =====
-- The devices of the machine: src/device_manager.rs. Making a device or a transport can fail in the
-- host; whether it does is a parameter. A handler is the number of its device, in the order of
-- registration.
use Prim.Native.String.{String}
use whypa.Base.{
  ℕ, ◌+◌, ◌-◌, ◌*◌, Bool, if◌then◌else◌, List, [], ◌∷◌, ◌++◌, map, none, some, u64, ok, err,
}
use whypa.Memory.Layout.{
  ioapic_start, ioapic_size, pci_mmconfig_start, pci_mmconfig_size, virtio_mmio_start,
  virtio_mmio_size_per_device, mem_32bit_devices_start, mem_32bit_devices_size,
}
use whypa.Bus
use whypa.Memory
use whypa.Machine.{
  PciSegment, DeviceManager, Partition, Step, ◌>>=◌, device_failed, register_mmio_region,
  register_mmio_handler,
}

-- The segment that `DeviceManager::new` makes.
unfoldable pub pci_segment : ℕ → PciSegment
pci_segment total_memory_gpa = record {
  id = 0;
  mmio_config_address = pci_mmconfig_start;
  start_of_mem32_area = mem_32bit_devices_start;
  end_of_mem32_area = mem_32bit_devices_start + mem_32bit_devices_size - 1;
  start_of_mem64_area = u64 (total_memory_gpa + 1);
  end_of_mem64_area = 0x3fff_ffff_ffff;
}

-- `PciEcamHandler::read`: no device is present.
unfoldable pub read_ecam : List ℕ → List ℕ
read_ecam buf = map (λ b. 0xff) buf

-- `DeviceManager::new` and `init`: the timer is device 6 of the machine, at four I/O ports.
abbrev pub pm_timer_pio_address : ℕ
pm_timer_pio_address = 0x608

unfoldable pub add_acpi_platform_device : DeviceManager → DeviceManager
add_acpi_platform_device d = record d {
  io_bus = (Bus.insert d.io_bus 6 pm_timer_pio_address 4).1;
  pm_timer_address = some pm_timer_pio_address;
}

unfoldable pub new_device_manager : ℕ → DeviceManager
unfolding pci_segment add_acpi_platform_device
new_device_manager total_memory_gpa = add_acpi_platform_device (record {
  io_bus = Bus.new;
  pci_segments = pci_segment total_memory_gpa ∷ [];
  virtio_mmio_devices = [];
  pm_timer_address = none;
})

-- `Partition::new`, apart from the calls of the hypervisor and the counter of time.
unfoldable pub new : ℕ → Partition
unfolding new_device_manager
new memory_size = record {
  memory = Memory.new;
  mmio_handlers = λ name. none;
  device_manager = new_device_manager (u64 memory_size);
  guest_memory_base = none;
  guest_memory_size = 0;
}

unfoldable pub register_virtio_mmio : String → ℕ → ℕ → ℕ → ℕ → Partition → Partition
register_virtio_mmio name uid base size irq p = record p {
  device_manager = record p.device_manager {
    virtio_mmio_devices =
        p.device_manager.virtio_mmio_devices
        ++ (record { name = name; uid = uid; base_address = base; size = size; irq = irq }) ∷ [];
  };
}

-- A region and its handler.
unfoldable pub register : ℕ → ℕ → String → String → ℕ → Partition → Step
register base size name handler_name handler p =
    register_mmio_region base size name (some handler_name) p >>= λ q.
    (ok tt, register_mmio_handler handler_name handler q)

unfoldable pub setup_ioapic : Partition → Step
unfolding register
setup_ioapic p = register ioapic_start ioapic_size "IOAPIC" "ioapic" 0 p

unfoldable pub setup_pci_ecam : Partition → Step
unfolding register
setup_pci_ecam p = register pci_mmconfig_start pci_mmconfig_size "PCI ECAM" "pci_ecam" 1 p

abbrev pub virtio_base : ℕ → ℕ
virtio_base i = virtio_mmio_start + i * virtio_mmio_size_per_device

-- What the four virtio devices have in common: `made` tells whether the device and its transport
-- could be made.
unfoldable pub setup_virtio : Bool → ℕ → String → String → String → Partition → Step
unfolding register register_virtio_mmio
setup_virtio made i name handler_name acpi_name p =
    let size = virtio_mmio_size_per_device in
    let added : Step = register (virtio_base i) size name handler_name (i + 2) p >>= λ q.
    (ok tt, register_virtio_mmio acpi_name (i + 1) (virtio_base i) size (i + 20) q) in
    if made then added else (err device_failed, p)

unfoldable pub setup_virtio_block : Bool → Partition → Step
unfolding setup_virtio
setup_virtio_block made = setup_virtio made 0 "Virtio Block Device" "virtio_block" "VBLK"

unfoldable pub setup_virtio_rng : Bool → Partition → Step
unfolding setup_virtio
setup_virtio_rng made = setup_virtio made 1 "Virtio RNG Device" "virtio_rng" "VRNG"

unfoldable pub setup_virtio_console : Bool → Partition → Step
unfolding setup_virtio
setup_virtio_console made = setup_virtio made 2 "Virtio Console Device" "virtio_console" "VCON"

unfoldable pub setup_virtio_net : Bool → Partition → Step
unfolding setup_virtio
setup_virtio_net made = setup_virtio made 3 "Virtio Net Device" "virtio_net" "VNET"

-- `made i` is about the `i`-th virtio device.
unfoldable pub register_devices : (ℕ → Bool) → Partition → Step
unfolding setup_ioapic setup_pci_ecam setup_virtio_block setup_virtio_rng setup_virtio_console
    setup_virtio_net
register_devices made p =
    setup_ioapic p
    >>= setup_pci_ecam
    >>= setup_virtio_block (made 0)
    >>= setup_virtio_rng (made 1)
    >>= setup_virtio_console (made 2)
    >>= setup_virtio_net (made 3)
