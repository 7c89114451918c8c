-- ===== src/Vm/Msr.antt =====
-- The registers of the Hyper-V interface that the guest writes and reads: `handle_msr_access` of
-- src/vm.rs.
use whypa.Base.{
  ℕ, ◌+◌, ◌-◌, ◌/◌, ◌%◌, ◌^◌, ◌<◌, ◌≡◌, refl, ◌∙◌, ◌⊎◌, inl, inr, false, ◌||◌, ◌&&◌, ◌==◌, ltb,
  if◌then◌else◌, some, bit_and, bit_or, complement, u64, ◌<<<◌, ◌>>>◌, Host, done, ok, arith,
}
use whypa.Base.Bits.{
  bit, bit_ext, bit-bit_or, bit-shl, bit-shr, bit-mod_two_pow, bit_and-low_mask, bit_or_lt,
}
use whypa.Memory.{write_guest_memory}
use whypa.Vm.{
  Vm, MsrAccess, Clock, join, low_half, halves, get_tsc_frequency_hz, tsc_scale, tsc_offset,
  tsc_page, write_tsc_reference_page, write_msr, read_msr,
}

bit-join :
    (high low i : ℕ)
    → bit (join high low) i
      ≡ ((ltb i 64 && (if ltb i 32 then false else bit high (i - 32))) || (ltb i 32 && bit low i))
bit-join high low i =
    bit-bit_or (u64 (high <<< 32)) (bit_and low 0xffff_ffff) i
    ∙ rw
        (
          bit-mod_two_pow (high <<< 32) 64 i,
          bit-shl high 32 i,
          bit_and-low_mask 32 low,
          bit-mod_two_pow low 32 i,
        )
        refl

low_half-join : (high low : ℕ) → low_half (join high low) ≡ low % 2 ^ 32
low_half-join high low =
    bit_and-low_mask 32 (join high low)
    ∙ bit_ext 32 (join high low % 2 ^ 32) (low % 2 ^ 32) (omega arith) (omega arith) λ i small.
      rw (bit-mod_two_pow (join high low) 32 i, bit-mod_two_pow low 32 i, bit-join high low i)
        (ground arith)

high_half-join : (high low : ℕ) → join high low >>> 32 ≡ high % 2 ^ 32
high_half-join high low =
    let word : join high low < 2 ^ 64 =
      bit_or_lt 64 (u64 (high <<< 32)) (bit_and low 0xffff_ffff) (omega arith)
        (omega (arith, bit_and-low_mask 32 low)) in
    bit_ext 32 (join high low / 2 ^ 32) (high % 2 ^ 32) (omega (arith, word)) (omega arith)
      λ i small.
        let index : 32 + i - 32 ≡ i = omega arith in
        rw
          (
            bit-shr (join high low) 32 i,
            bit-mod_two_pow high 32 i,
            bit-join high low (32 + i),
            index,
          )
          (ground arith)

-- The registers that hold what was written: the guest's identity and the control of the clock.
abbrev pub IsStored : ℕ → Type 0
IsStored msr = (msr ≡ 0x4000_0000) ⊎ (msr ≡ 0x4000_0118)

-- What the guest writes to one of these registers it reads back, half by half, from the machine that
-- the write leaves.
pub read_msr-write_msr :
    (k : Clock) (elapsed : ℕ) (a b : MsrAccess) (vm : Vm)
    → IsStored a.msr_number
    → b.msr_number ≡ a.msr_number
    → (vm' : Vm) × (write_msr k a vm ≡ done (ok vm'))
      × (read_msr elapsed b vm' ≡ (a.rax % 2 ^ 32, a.rdx % 2 ^ 32))
unfolding write_msr read_msr
read_msr-write_msr k elapsed a b vm (inl id) same = (
  record vm { guest_os_id = join a.rdx a.rax },
  rw (write_msr, id) refl,
  rw (read_msr, same, id) (cc (low_half-join a.rdx a.rax, high_half-join a.rdx a.rax)),
)
read_msr-write_msr k elapsed a b vm (inr control) same = (
  record vm { tsc_invariant_control = join a.rdx a.rax },
  rw (write_msr, control) refl,
  rw (read_msr, same, control) (cc (low_half-join a.rdx a.rax, high_half-join a.rdx a.rax)),
)

-- The guest asks for a page of the reference clock, the clock's rate is known and the page is memory
-- that can be written. Then the page is written at the page's address, and the register reads as the
-- page's address with the lowest bit set.
pub read_msr-reference_page :
    (k : Clock) (elapsed : ℕ) (a b : MsrAccess) (vm : Vm) (host' : Host)
    → a.msr_number ≡ 0x4000_0021
    → b.msr_number ≡ 0x4000_0021
    → (bit_and (join a.rdx a.rax) 1 == 0) ≡ false
    → (get_tsc_frequency_hz k == 0) ≡ false
    → write_guest_memory vm.memory vm.host
        (tsc_page
          (tsc_scale (get_tsc_frequency_hz k))
          (tsc_offset vm.vm_start_tsc (tsc_scale (get_tsc_frequency_hz k))))
        (bit_and (join a.rdx a.rax) (complement 64 0xfff))
      ≡ ok host'
    → (vm' : Vm) × (write_msr k a vm ≡ done (ok vm'))
      × (vm'.host ≡ host')
      × (read_msr elapsed b vm'
          ≡ halves (bit_or (bit_and (join a.rdx a.rax) (complement 64 0xfff)) 1))
unfolding write_msr read_msr write_tsc_reference_page
read_msr-reference_page k elapsed a b vm host' at back enabled rate written = (
  record vm {
    host = host';
    tsc_reference_gpa = some (bit_and (join a.rdx a.rax) (complement 64 0xfff));
  },
  rw (write_msr, at, enabled, write_tsc_reference_page, rate, written) refl,
  refl,
  rw (read_msr, back) refl,
)
