-- ===== src/Machine/Map.antt =====
-- The map of the machine after `allocate_memory_with_size` of src/partition.rs and `register_devices` of
-- src/device_manager.rs, and what the emulator's callback of src/emulator.rs reaches by it.
use Prim.Native.String.{String}
use whypa.Base.{
  ℕ, zero, suc, ◌+◌, ◌-◌, ◌^◌, ◌<◌, ◌≤◌, ◌≡◌, refl, ap, ◌∙◌, sym, ◌⊎◌, ◌↔◌, inl, inr, Bool, true,
  some, List, get_elem?, ok, dec_le, arith,
}
use mathlib.Core.Option.{some-injective}
use whypa.Bus.{BusDevice}
use whypa.Memory.{MmioRegion, find_mmio}
use whypa.Machine.{
  HostCalls, Partition, Step, ◌>>=◌, register_mmio_handler, allocate_memory_with_size,
}
use whypa.Machine.Devices.{new, register_devices, register_virtio_mmio}
use whypa.Machine.Ram.{IsGranted, ram_memory, with_ram, allocate_memory_with_size_lem}
use whypa.Machine.Windows.{windows, place, added, registers, refuses}
use whypa.Emulator
use whypa.Emulator.{memory_callback, call_handler}
use whypa.Emulator.Routing.{memory_callback_lem}

found_window :
    (h offset : ℕ) (w : MmioRegion) (source total : ℕ) (p : Partition)
    → get_elem? windows h ≡ some w
    → offset < w.size
    → find_mmio (place source total windows p).memory (w.gpa + offset) ≡ some w
unfolding find_mmio
found_window h offset w source total p at inside = ground arith

window_end : (h : ℕ) (w : MmioRegion) → get_elem? windows h ≡ some w → w.gpa + w.size ≤ 2 ^ 32
window_end h w at = ground arith

handler_of :
    (h : ℕ) (w : MmioRegion) (source total : ℕ) (p : Partition)
    → get_elem? windows h ≡ some w
    → (name : String) × (w.handler ≡ some name)
      × ((place source total windows (added p)).mmio_handlers name ≡ some h)
unfolding register_mmio_handler register_virtio_mmio
handler_of zero w source total p at =
    ("ioapic", ap (λ (r : MmioRegion). r.handler) (sym (some-injective _ w at)), refl)
handler_of (suc zero) w source total p at =
    ("pci_ecam", ap (λ (r : MmioRegion). r.handler) (sym (some-injective _ w at)), refl)
handler_of (suc (suc zero)) w source total p at =
    ("virtio_block", ap (λ (r : MmioRegion). r.handler) (sym (some-injective _ w at)), refl)
handler_of (suc (suc (suc zero))) w source total p at =
    ("virtio_rng", ap (λ (r : MmioRegion). r.handler) (sym (some-injective _ w at)), refl)
handler_of (suc (suc (suc (suc zero)))) w source total p at =
    ("virtio_console", ap (λ (r : MmioRegion). r.handler) (sym (some-injective _ w at)), refl)
handler_of (suc (suc (suc (suc (suc zero))))) w source total p at =
    ("virtio_net", ap (λ (r : MmioRegion). r.handler) (sym (some-injective _ w at)), refl)
handler_of (suc (suc (suc (suc (suc (suc h)))))) w source total p at = absurd (ground arith)

module _ (calls : HostCalls) (source total : ℕ) (granted : IsGranted calls source total)
    (positive : 0 < total) (bound : total < 2 ^ 63) (made : ℕ → Bool)
    (all_made : (i : ℕ) → made i ≡ true) (memory_size : ℕ) where
  -- The set-up of `main`: the memory and then the devices.
  abbrev pub set_up : Step
  set_up = allocate_memory_with_size calls total (new memory_size) >>= register_devices made

  set_up-registers : set_up ≡ register_devices made (with_ram source total (new memory_size))
  unfolding new
  set_up-registers =
      rw (allocate_memory_with_size_lem calls source total granted positive bound (new memory_size))
        refl

  -- The host grants the memory, and all virtio devices can be made. Then the memory and the devices
  -- can be set up exactly if the memory does not reach beyond the first byte of the PCI window at
  -- 0xe8000000, or is more than reaches up to 0xfec00000, so that it is split.
  pub set_up_iff : (set_up.0 ≡ ok tt) ↔ ((total ≤ 0xe800_0001) ⊎ (0xfec0_0000 < total))
  unfolding ram_memory new
  set_up_iff = rw set_up-registers (
    λ e. elim (dec_le total 0xe800_0001) [
      | yes h ↦ inl h
      | no h ↦ elim (dec_le total 0xfec0_0000) [
        | yes h' ↦ absurd (
            ground (
              arith,
              refuses source total positive bound made all_made
                  (with_ram source total (new memory_size)) (omega arith) h',
            ))
        | no h' ↦ inr (omega arith)
      ]
    ],
    λ clear.
        ap (λ (s : Step). s.0)
          (registers source total positive bound made all_made
            (with_ram source total (new memory_size)) clear),
  )

  module _ (clear : (total ≤ 0xe800_0001) ⊎ (0xfec0_0000 < total)) where
    pub set_up-place :
        set_up.1 ≡ place source total windows (added (with_ram source total (new memory_size)))
    unfolding ram_memory
    set_up-place =
        ap (λ (s : Step). s.1)
          (set_up-registers
            ∙ registers source total positive bound made all_made
                (with_ram source total (new memory_size)) clear)

    pub set_up-memory :
        set_up.1.memory ≡ record (ram_memory source total) { mmio_regions = windows }
    set_up-memory = ap (λ (p : Partition). p.memory) set_up-place

    -- After the set-up an access of the guest to the `h`-th window that was registered reaches
    -- device `h`, at the distance of the address from the start of the window, if the emulator has the
    -- machine's regions and handlers.
    pub set_up_routes :
        {S : Type 0} (device : ℕ → BusDevice S) (e : Emulator.Partition S)
        (h offset direction size : ℕ) (buf : List ℕ) (w : MmioRegion)
        → e.memory_manager ≡ set_up.1.memory
        → e.mmio_handlers ≡ set_up.1.mmio_handlers
        → get_elem? windows h ≡ some w
        → offset < w.size
        → memory_callback device (w.gpa + offset) direction size buf e
          ≡ call_handler device h offset direction size buf e
    set_up_routes device e h offset direction size buf w memory handlers at inside =
        let after = added (with_ram source total (new memory_size)) in
        let name = handler_of h w source total (with_ram source total (new memory_size)) at in
        let found : find_mmio e.memory_manager (w.gpa + offset) ≡ some w =
          rw (memory, set_up-place) (found_window h offset w source total after at inside) in
        let registered : e.mmio_handlers name.0 ≡ some h = rw (handlers, set_up-place) name.2 in
        let low : w.gpa + w.size ≤ 2 ^ 32 = window_end h w at in
        let back : w.gpa + offset - w.gpa ≡ offset = omega arith in
        (memory_callback_lem device e (w.gpa + offset) direction size h buf w name.0 found
          (omega (arith, low)) (omega (arith, low)) name.1 registered).1
        ∙ ap (λ o. call_handler device h o direction size buf e) back
