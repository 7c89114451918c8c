-- ===== src/Vm.antt =====
-- The exits of the virtual processor: src/vm.rs. The reasons of the hypervisor are constructors; the
-- emulator of the hypervisor is a parameter. Setting registers is taken to succeed, and the registers
-- that are set are kept in order.
pub mod Msr
pub mod Tsc
pub mod Exit
pub mod Loop
mod Examples
use whypa.Base.{
  ℕ, ◌+◌, ◌-◌, ◌*◌, ◌/◌, ◌%◌, ◌^◌, ◌==◌, ◌||◌, not, ltb, leb, if◌then◌else◌, Bool, true, false,
  Option, none, some, List, [], ◌∷◌, ◌++◌, bit_and, bit_or, complement, u32, u64, sub64, ◌<<<◌,
  ◌>>>◌, to_le_bytes, from_le_bytes, Host, copy_in, copy_out, Outcome, done, panic, and_then,
  Result, ok, err,
}
use whypa.Memory.{MemoryManager, MemoryError, write_guest_memory, find_mmio}
use whypa.IoApic.Device.{IoApic}

pub data Register : Type 0 where
  rax rbx rcx rdx rip : ℕ → Register

pub record Vm : Type 0 where
  pub memory : MemoryManager
  pub host : Host
  pub ioapic : Option IoApic
  pub guest_os_id : ℕ
  pub tsc_reference_gpa : Option ℕ
  pub tsc_invariant_control : ℕ
  pub vm_start_tsc : ℕ
  pub last_interrupt_time : ℕ
  pub registers : List Register
  pub timer_requests : ℕ

unfoldable pub set_registers : List Register → Vm → Vm
set_registers rs vm = record vm { registers = vm.registers ++ rs }

-- The instruction pointer and the length of the instruction.
pub record VpContext : Type 0 where
  pub rip : ℕ
  pub bitfield : ℕ

unfoldable pub next_rip : VpContext → ℕ
next_rip c = u64 (c.rip + bit_and c.bitfield 0xf)

-- `CpuidAccess`, with the results that the hypervisor would give.
pub record CpuidAccess : Type 0 where
  pub leaf : ℕ
  pub default_rax : ℕ
  pub default_rbx : ℕ
  pub default_rcx : ℕ
  pub default_rdx : ℕ

-- Four letters of a signature.
abbrev pub letters : ℕ → ℕ → ℕ → ℕ → ℕ
letters a b c d = from_le_bytes (a ∷ b ∷ c ∷ d ∷ [])

unfoldable pub cpuid_results : CpuidAccess → ℕ × ℕ × ℕ × ℕ
cpuid_results a =
    if a.leaf == 0x4000_0000
    then (
      0x4000_0005,
      letters b'M' b'i' b'c' b'r',
      letters b'o' b's' b'o' b'f',
      letters b't' b' ' b'H' b'v',
    )
    else if a.leaf == 0x4000_0001
    then (letters b'H' b'v' b'#' b'1', 0, 0, 0)
    else if a.leaf == 0x4000_0002
    then (0, 10 <<< 16, 0, 0)
    else if a.leaf == 0x4000_0003
    then (bit_or (bit_or (1 <<< 1) (1 <<< 9)) (1 <<< 15), 0, 0, 0)
    else if a.leaf == 0x4000_0004 || a.leaf == 0x4000_0005
    then (0, 0, 0, 0)
    else (a.default_rax, a.default_rbx, a.default_rcx, a.default_rdx)

unfoldable pub handle_cpuid : CpuidAccess → VpContext → Vm → Vm
unfolding set_registers
handle_cpuid a c vm =
    let r = cpuid_results a in
    set_registers (rax r.0 ∷ rbx r.1 ∷ rcx r.2 ∷ rdx r.3 ∷ rip (next_rip c) ∷ []) vm

-- What the processor says of its clock: three registers of leaf 0x15, and one of leaf 0x16.
pub record Clock : Type 0 where
  pub eax15 : ℕ
  pub ebx15 : ℕ
  pub ecx15 : ℕ
  pub eax16 : ℕ

unfoldable pub get_tsc_frequency_hz : Clock → ℕ
get_tsc_frequency_hz k =
    if not (k.eax15 == 0 || k.ebx15 == 0 || k.ecx15 == 0)
    then u64 (k.ecx15 * k.ebx15) / k.eax15
    else if not (k.eax16 == 0)
    then k.eax16 * 1_000_000
    else 2_712_000_000

unfoldable pub tsc_scale : ℕ → ℕ
tsc_scale freq = u64 (10_000_000 * 2 ^ 64 / freq)

-- The bits of the `i64`.
unfoldable pub tsc_offset : ℕ → ℕ → ℕ
tsc_offset start scale = sub64 0 (u64 (start * scale / 2 ^ 64))

unfoldable pub tsc_page : ℕ → ℕ → List ℕ
tsc_page scale offset =
    copy_out
      (copy_in (to_le_bytes 8 offset) 16
        (copy_in (to_le_bytes 8 scale) 8 (copy_in (to_le_bytes 4 1) 0 (λ a. 0))))
      0 4096

unfoldable pub write_tsc_reference_page : Clock → ℕ → Vm → Outcome (Result Vm MemoryError)
write_tsc_reference_page k gpa vm =
    let freq = get_tsc_frequency_hz k in
    let scale = tsc_scale freq in
    let page = tsc_page scale (tsc_offset vm.vm_start_tsc scale) in
    let written : Outcome (Result Vm MemoryError) =
      elim (write_guest_memory vm.memory vm.host page gpa) [
        | err e ↦ done (err e)
        | ok host' ↦ done (ok (record vm { host = host' }))
      ] in
    if freq == 0 then panic else written

pub record MsrAccess : Type 0 where
  pub msr_number : ℕ
  pub is_write : Bool
  pub rax : ℕ
  pub rdx : ℕ

-- The two halves of a value of 64 bits.
abbrev pub join : ℕ → ℕ → ℕ
join high low = bit_or (u64 (high <<< 32)) (bit_and low 0xffff_ffff)

abbrev pub low_half : ℕ → ℕ
low_half v = bit_and v 0xffff_ffff

unfoldable pub write_msr : Clock → MsrAccess → Vm → Outcome (Result Vm MemoryError)
write_msr k a vm =
    let value = join a.rdx a.rax in
    let gpa = bit_and value (complement 64 0xfff) in
    let enable = and_then (write_tsc_reference_page k gpa vm) λ r. elim r [
      | err e ↦ done (err e)
      | ok vm' ↦ done (ok (record vm' { tsc_reference_gpa = some gpa }))
    ] in
    if a.msr_number == 0x4000_0000
    then done (ok (record vm { guest_os_id = value }))
    else if a.msr_number == 0x4000_0021
    then (if not (bit_and value 1 == 0)
        then enable
        else done (ok (record vm { tsc_reference_gpa = none })))
    else if a.msr_number == 0x4000_0118
    then done (ok (record vm { tsc_invariant_control = value }))
    else done (ok vm)

abbrev pub halves : ℕ → ℕ × ℕ
halves v = (low_half v, v >>> 32)

-- The low and the high half of what is read; `elapsed` are the nanoseconds since the first read of the
-- counter.
unfoldable pub read_msr : ℕ → MsrAccess → Vm → ℕ × ℕ
read_msr elapsed a vm =
    let ticks = elapsed / 100 in
    if a.msr_number == 0x4000_0000
    then halves vm.guest_os_id
    else if a.msr_number == 0x4000_0001
    then (1, 0)
    else if a.msr_number == 0x4000_0020
    then (low_half ticks, low_half (ticks >>> 32))
    else if a.msr_number == 0x4000_0021
    then elim vm.tsc_reference_gpa [ none ↦ (0, 0) | some gpa ↦ halves (bit_or gpa 1) ]
    else if a.msr_number == 0x4000_0118
    then halves vm.tsc_invariant_control
    else (0, 0)

unfoldable pub handle_msr_access :
    Clock → ℕ → MsrAccess → VpContext → Vm → Outcome (Result Vm MemoryError)
unfolding set_registers
handle_msr_access k elapsed a c vm =
    let answer = read_msr elapsed a vm in
    let advance = set_registers (rip (next_rip c) ∷ []) in
    let written =
      and_then (write_msr k a vm)
        λ r. elim r [ err e ↦ done (err e) | ok vm' ↦ done (ok (advance vm')) ] in
    if a.is_write
    then written
    else done (ok (advance (set_registers (rax answer.0 ∷ rdx answer.1 ∷ []) vm)))

-- A timer interrupt, at most one in a millisecond; `now` is the host's time.
unfoldable pub handle_interrupt_window : ℕ → Vm → Vm
handle_interrupt_window now vm =
    if leb 1 (now - vm.last_interrupt_time) || vm.last_interrupt_time == 0
    then record vm { last_interrupt_time = now; timer_requests = vm.timer_requests + 1 }
    else vm
