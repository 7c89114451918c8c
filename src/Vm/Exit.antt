-- ===== src/Vm/Exit.antt =====
-- The dispatch of an exit and the loop around it: `handle_exit` and `run` of src/vm.rs. The emulator of
-- the hypervisor changes the machine by its callbacks and tells whether it has emulated the
-- instruction.
use whypa.Base.{
  ℕ, zero, suc, ◌+◌, Bool, true, false, Option, none, some, to_le_bytes, Outcome, done, and_then,
  Result, ok, err,
}
use whypa.Memory.{MemoryError, find_mmio}
use whypa.IoApic.Device.{IoApic, InterruptTypes}
use whypa.IoApic.Device
use whypa.Vm.{
  Vm, VpContext, CpuidAccess, MsrAccess, Clock, handle_cpuid, handle_msr_access,
  handle_interrupt_window,
}

pub data ExitReason : Type 0 where
  none_reason exception unrecoverable_exception invalid_register unsupported_feature halt canceled
        other :
      ExitReason
  memory_access : ℕ → ExitReason
  io_port_access interrupt_window : ExitReason
  apic_eoi : ℕ → ExitReason
  cpuid : CpuidAccess → ExitReason
  msr_access : MsrAccess → ExitReason

-- `try_mmio_emulation` and `try_io_emulation`; `none` is an error.
pub record Emulator : Type 0 where
  pub try_mmio_emulation : ℕ → VpContext → Vm → Option Bool × Vm
  pub try_io_emulation : VpContext → Vm → Option Bool × Vm

-- What the host gives while an exit is handled.
pub record Moment : Type 0 where
  pub clock : Clock
  pub elapsed : ℕ
  pub now : ℕ

-- The errors that stop the run.
pub data ExitError : Type 0 where
  emulation : ExitError
  page : MemoryError → ExitError

unfoldable pub forward_eoi : InterruptTypes → ℕ → Vm → Vm
forward_eoi types vector vm = elim vm.ioapic [
  | none ↦ vm
  | some s ↦ record vm { ioapic = some (Device.write types s 0x40 (to_le_bytes 4 vector)) }
]

unfoldable pub handle_memory : Emulator → ℕ → VpContext → Vm → Bool × Vm
handle_memory em gpa c vm = elim (find_mmio vm.memory gpa) [
  | none ↦ (false, vm)
  | some region ↦
      let answer = em.try_mmio_emulation gpa c vm in
      (elim answer.0 [ none ↦ false | some emulated ↦ emulated ], answer.1)
]

-- Whether to go on, and the machine.
unfoldable pub handle_exit :
    InterruptTypes
    → Emulator
    → Moment
    → ExitReason
    → VpContext
    → Vm
    → Outcome (Result Bool ExitError × Vm)
unfolding forward_eoi handle_memory
handle_exit types em m (memory_access gpa) c vm =
    let answer = handle_memory em gpa c vm in done (ok answer.0, answer.1)
handle_exit types em m io_port_access c vm =
    let answer = em.try_io_emulation c vm in
    done (elim answer.0 [ none ↦ err emulation | some emulated ↦ ok emulated ], answer.1)
handle_exit types em m interrupt_window c vm = done (ok true, handle_interrupt_window m.now vm)
handle_exit types em m halt c vm = done (ok true, vm)
handle_exit types em m (apic_eoi vector) c vm = done (ok true, forward_eoi types vector vm)
handle_exit types em m (cpuid a) c vm = done (ok true, handle_cpuid a c vm)
handle_exit types em m (msr_access a) c vm =
    and_then (handle_msr_access m.clock m.elapsed a c vm)
      λ r. elim r [ err e ↦ done (err (page e), vm) | ok vm' ↦ done (ok true, vm') ]
handle_exit types em m none_reason c vm = done (ok false, vm)
handle_exit types em m exception c vm = done (ok false, vm)
handle_exit types em m unrecoverable_exception c vm = done (ok false, vm)
handle_exit types em m invalid_register c vm = done (ok false, vm)
handle_exit types em m unsupported_feature c vm = done (ok false, vm)
handle_exit types em m canceled c vm = done (ok false, vm)
handle_exit types em m other c vm = done (ok false, vm)

-- What the hypervisor answers to a run of the processor, whatever the machine has become, and whether
-- the program is still to run before it: the escape key and the console's events stop it.
pub record World : Type 0 where
  pub is_running : ℕ → Bool
  pub run_vp : ℕ → Vm → Option (ExitReason × VpContext)
  pub moment : ℕ → Moment

-- The loop, from the `i`-th round on. What is left of `iteration`, the count of repeated addresses, is
-- for messages only. `none` is the end of the fuel.
unfoldable pub run : InterruptTypes → Emulator → World → ℕ → ℕ → Vm → Outcome (Option Vm)
run types em w zero i vm = done none
run types em w (suc fuel) i vm = elim (w.is_running i) [
  | false ↦ done (some vm)
  | true ↦ elim (w.run_vp i vm) [
    | none ↦ done (some vm)
    | some (reason, c) ↦ and_then (handle_exit types em (w.moment i) reason c vm) λ r. elim r.0 [
      | err e ↦ done (some r.1)
      | ok goes_on ↦ elim goes_on [
        | false ↦ done (some r.1)
        | true ↦ run types em w fuel (i + 1) r.1
      ]
    ]
  ]
]
