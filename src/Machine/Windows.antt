-- ===== src/Machine/Windows.antt =====
-- The MMIO windows of the devices after `register_devices` of src/device_manager.rs.
use Prim.Native.String.{String}
use whypa.Base.{
  ℕ, ◌+◌, ◌^◌, ◌<◌, ◌≤◌, ◌≡◌, refl, ◌⊎◌, Bool, true, false, ltb, leb, ◌&&◌, any, some, List, take,
  [], ◌∷◌, ◌++◌, u64, ok, err, arith, ◌∙◌,
}
use whypa.Memory.{MmioRegion, MemoryRegion, last_addr, register_mmio}
use whypa.Machine.{Partition, overlaps_memory, register_mmio_region, register_mmio_handler}
use whypa.Machine.Devices.{
  virtio_base, register, setup_ioapic, setup_pci_ecam, setup_virtio, setup_virtio_block,
  setup_virtio_rng, setup_virtio_console, setup_virtio_net, register_devices, register_virtio_mmio,
}
use whypa.Machine.Ram.{ram_memory}

abbrev pub window : ℕ → ℕ → String → String → MmioRegion
window gpa size name handler = record {
  gpa = gpa;
  size = size;
  name = name;
  handler = some handler;
}

abbrev pub windows : List MmioRegion
windows =
    window 0xfec0_0000 0x1000 "IOAPIC" "ioapic"
    ∷ window 0xe800_0000 0x1000_0000 "PCI ECAM" "pci_ecam"
    ∷ window 0xfeb0_0000 0x1000 "Virtio Block Device" "virtio_block"
    ∷ window 0xfeb0_1000 0x1000 "Virtio RNG Device" "virtio_rng"
    ∷ window 0xfeb0_2000 0x1000 "Virtio Console Device" "virtio_console"
    ∷ window 0xfeb0_3000 0x1000 "Virtio Net Device" "virtio_net"
    ∷ []

abbrev meets : ℕ → ℕ → MemoryRegion → Bool
meets gpa mmio_end r = ltb gpa (last_addr r) && ltb r.gpa mmio_end

-- A range between 3 GiB and 4 GiB meets the memory exactly if the memory ends in one piece behind the
-- second byte of the range.
meets-ram_memory :
    (source total gpa mmio_end : ℕ)
    → 0 < total
    → total < 2 ^ 63
    → 0xc000_0000 ≤ gpa
    → gpa < mmio_end
    → mmio_end ≤ 0x1_0000_0000
    → any (meets gpa mmio_end) (ram_memory source total).regions
      ≡ (ltb (gpa + 1) total && leb total 0xfec0_0000)
unfolding ram_memory last_addr
meets-ram_memory source total gpa mmio_end positive bound low inside high = ground arith

-- With windows in place, and all else as in `p`.
abbrev pub place : ℕ → ℕ → List MmioRegion → Partition → Partition
place source total ms p = record p {
  memory = record (ram_memory source total) { mmio_regions = ms };
}

abbrev clashes : ℕ → ℕ → MmioRegion → Bool
clashes gpa mmio_end r = ltb gpa (u64 (r.gpa + r.size)) && ltb r.gpa mmio_end

-- The virtio devices and the handlers, in the order of registration.
abbrev pub add_virtio : ℕ → String → String → Partition → Partition
add_virtio i handler acpi_name p =
    register_virtio_mmio acpi_name (i + 1) (virtio_base i) 0x1000 (i + 20)
      (register_mmio_handler handler (i + 2) p)

abbrev pub added : Partition → Partition
added p = add_virtio 3 "virtio_net" "VNET" (
    add_virtio 2 "virtio_console" "VCON" (
      add_virtio 1 "virtio_rng" "VRNG" (
        add_virtio 0 "virtio_block" "VBLK"
          (register_mmio_handler "pci_ecam" 1 (register_mmio_handler "ioapic" 0 p)))))

module _ (source total : ℕ) (positive : 0 < total) (bound : total < 2 ^ 63) where
  register-place :
      (gpa size : ℕ) (name handler : String) (h : ℕ) (ms : List MmioRegion) (p : Partition)
      → ((ltb (gpa + 1) total && leb total 0xfec0_0000) ≡ false)
      → 0xc000_0000 ≤ gpa
      → 0 < size
      → gpa + size ≤ 0x1_0000_0000
      → any (clashes gpa (gpa + size)) ms ≡ false
      → register gpa size name handler h (place source total ms p) ≡ (
        ok tt,
        place source total
            (ms ++ window gpa size name handler ∷ [])
            (register_mmio_handler handler h p),
      )
  unfolding register register_mmio_region register_mmio register_mmio_handler ram_memory
  register-place gpa size name handler h ms p clear low inside high apart =
      let fits : ltb (gpa + size) (2 ^ 64) ≡ true = ground arith in
      let free : any (meets gpa (gpa + size)) (ram_memory source total).regions ≡ false =
        meets-ram_memory source total gpa (gpa + size) positive bound low (omega arith) high
        ∙ clear in
      rw (register, register_mmio_region, fits, free, apart) refl

  setup_virtio-place :
      (i : ℕ) (name handler acpi_name : String) (ms : List MmioRegion) (p : Partition)
      → (total ≤ 0xe800_0001) ⊎ (0xfec0_0000 < total)
      → i < 4
      → any (clashes (virtio_base i) (virtio_base i + 0x1000)) ms ≡ false
      → setup_virtio true i name handler acpi_name (place source total ms p) ≡ (
        ok tt,
        place source total
            (ms ++ window (virtio_base i) 0x1000 name handler ∷ [])
            (add_virtio i handler acpi_name p),
      )
  unfolding setup_virtio register_virtio_mmio register_mmio_handler
  setup_virtio-place i name handler acpi_name ms p clear small apart =
      rw
        (
          setup_virtio,
          register-place (virtio_base i) 0x1000 name handler (i + 2) ms p (ground arith)
              (omega arith) (omega arith) (omega arith) apart,
        )
        refl

  module _ (made : ℕ → Bool) (all_made : (i : ℕ) → made i ≡ true) (p : Partition) where
    pub registers :
        (total ≤ 0xe800_0001) ⊎ (0xfec0_0000 < total)
        → register_devices made (place source total [] p)
          ≡ (ok tt, place source total windows (added p))
    unfolding register_devices setup_ioapic setup_pci_ecam setup_virtio_block setup_virtio_rng
        setup_virtio_console setup_virtio_net
    registers clear =
        let p₁ = register_mmio_handler "ioapic" 0 p in
        let p₂ = register_mmio_handler "pci_ecam" 1 p₁ in
        let p₃ = add_virtio 0 "virtio_block" "VBLK" p₂ in
        let p₄ = add_virtio 1 "virtio_rng" "VRNG" p₃ in
        let p₅ = add_virtio 2 "virtio_console" "VCON" p₄ in
        let ioapic =
          register-place 0xfec0_0000 0x1000 "IOAPIC" "ioapic" 0 [] p (ground arith) (omega arith)
            (omega arith) (omega arith) refl in
        let ecam =
          register-place 0xe800_0000 0x1000_0000 "PCI ECAM" "pci_ecam" 1 (take 1 windows) p₁
            (ground arith) (omega arith) (omega arith) (omega arith) refl in
        let virtio = λ (i : ℕ) (name handler acpi_name : String) (q : Partition).
          setup_virtio-place i name handler acpi_name (take (i + 2) windows) q clear in
        rw
          (
            register_devices,
            ioapic,
            ecam,
            all_made 0,
            virtio 0 "Virtio Block Device" "virtio_block" "VBLK" p₂ (omega arith) refl,
            all_made 1,
            virtio 1 "Virtio RNG Device" "virtio_rng" "VRNG" p₃ (omega arith) refl,
            all_made 2,
            virtio 2 "Virtio Console Device" "virtio_console" "VCON" p₄ (omega arith) refl,
            all_made 3,
            virtio 3 "Virtio Net Device" "virtio_net" "VNET" p₅ (omega arith) refl,
          )
          refl

    pub refuses :
        0xe800_0001 < total
        → total ≤ 0xfec0_0000
        → (register_devices made (place source total [] p)).0 ≡ err overlaps_memory
    unfolding register_devices setup_ioapic setup_pci_ecam register_mmio_region
    refuses above below =
        let taken : any (meets 0xe800_0000 0xf800_0000) (ram_memory source total).regions ≡ true =
          meets-ram_memory source total 0xe800_0000 0xf800_0000 positive bound (omega arith)
            (omega arith) (omega arith)
          ∙ ground arith in
        rw
          (
            register_devices,
            register-place 0xfec0_0000 0x1000 "IOAPIC" "ioapic" 0 [] p (ground arith) (omega arith)
                (omega arith) (omega arith) refl,
            register,
            register_mmio_region,
            taken,
          )
          refl
