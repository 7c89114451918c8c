-- ===== src/Vm/Examples.antt =====
-- A machine with 2 GiB of memory and the interrupt controller of IoApic/Examples.antt, whose level pin
-- 5 is in service and still asserted.
use whypa.Base.{
  ◌+◌, ◌-◌, ◌*◌, ◌<◌, ◌≤◌, ◌≡◌, refl, true, none, some, [], ◌∷◌, ◌++◌, done, ok, arith,
}
use whypa.Memory.{MemoryManager}
use whypa.IoApic.Device.{IoApic, entry, parse_entry, interrupt_control}
use whypa.IoApic.EndOfInterrupt.{entry_after_eoi}
use whypa.IoApic.Examples.{types, held, held_bits, held_others}
use whypa.Boot.Writes.{machine_memory}
use whypa.Vm.{Vm, VpContext, Clock, tsc_scale, tsc_offset}
use whypa.Vm.Exit.{Emulator, Moment, apic_eoi, handle_exit}
use whypa.Vm.Loop.{handle_exit_eoi}
use whypa.Vm.Tsc.{reference_time, reference_time_lem}

abbrev mem : MemoryManager
mem = machine_memory 0x1000_0000 0x8000_0000 []

abbrev machine : Vm
machine = record {
  memory = mem;
  host = λ a. 0;
  ioapic = some held;
  guest_os_id = 0;
  tsc_reference_gpa = none;
  tsc_invariant_control = 0;
  vm_start_tsc = 1_000_000;
  last_interrupt_time = 0;
  registers = [];
  timer_requests = 0;
}

abbrev clock : Clock
clock = record { eax15 = 2; ebx15 = 188; ecx15 = 24_000_000; eax16 = 0 }

abbrev moment : Moment
moment = record { clock = clock; elapsed = 0; now = 5 }

abbrev context : VpContext
context = record { rip = 0x1000; bitfield = 2 }

abbrev emulator : Emulator
emulator = record {
  try_mmio_emulation = λ gpa c vm. (some true, vm);
  try_io_emulation = λ c vm. (some true, vm);
}

handle_exit_eoi_example :
    (s' : IoApic) × (handle_exit types emulator moment (apic_eoi 0x42) context machine
      ≡ done (ok true, record machine { ioapic = some s' }))
    × (s'.requests
        ≡ held.requests
          ++ (interrupt_control types (parse_entry (entry_after_eoi 0x42 (entry held 5))) ∷ []))
handle_exit_eoi_example =
    handle_exit_eoi types emulator moment context machine held 0x42 5 refl (omega arith) refl
      (omega arith) held_bits.0 held_bits.1 held_bits.2 held_bits.3 held_others

reference_time_lem_example :
    let scale = tsc_scale 2_256_000_000 in
    let time = reference_time scale (tsc_offset 1_000_000 scale) 9_000_000 in
    (2_256_000_000 * time ≤ 10_000_000 * (9_000_000 - 1_000_000) + 2_256_000_000)
    × (10_000_000 * (9_000_000 - 1_000_000) < 2_256_000_000 * (time + 2))
    × (reference_time scale (tsc_offset 1_000_000 scale) 1_000_000 ≡ 0)
reference_time_lem_example =
    reference_time_lem 2_256_000_000 1_000_000 9_000_000 (omega arith) (omega arith) (omega arith)
