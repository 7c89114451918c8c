-- ===== src/Vm/Loop.antt =====
-- The loop around the exits: `run` of src/vm.rs.
use whypa.Base.{
  ℕ, zero, suc, ◌+◌, ◌<◌, ◌≡◌, ◌≢◌, refl, ap, ◌∙◌, inl, inr, Bool-cases, Option-cases, Result-cases,
  Outcome-cases, true, false, none, some, [], ◌∷◌, ◌++◌, length, to_le_bytes, from_le_bytes,
  from_le_bytes-to_le_bytes, length-to_le_bytes, u8, ◌==◌, done, ok, arith,
}
use whypa.Base.Bits.{bit}
use whypa.IoApic.Device.{
  write, IoApic, InterruptTypes, entry, parse_entry, interrupt_control, eoi_from,
}
use whypa.IoApic.Pin.{is_masked, is_level}
use whypa.IoApic.EndOfInterrupt.{acknowledged, entry_after_eoi, eoi_redelivers}
use whypa.Vm.{Vm, VpContext}
use whypa.Vm.Exit.{Emulator, World, Moment, apic_eoi, handle_exit, run}

write_eoi :
    (types : InterruptTypes) (s : IoApic) (vector : ℕ)
    → vector < 256
    → write types s 0x40 (to_le_bytes 4 vector) ≡ eoi_from types vector 24 0 s
unfolding write
write_eoi types s vector word =
    let four : (length (to_le_bytes 4 vector) == 4) ≡ true =
      rw (length-to_le_bytes 4 vector) refl in
    let val : from_le_bytes (to_le_bytes 4 vector) ≡ vector =
      from_le_bytes-to_le_bytes 4 vector (omega arith) in
    let byte : u8 vector ≡ vector = omega arith in rw (write, four, val, byte) refl

module _ (types : InterruptTypes) (em : Emulator) (w : World) where
  -- Whatever the exits are, the loop has come to an end, or to a panic, when the program is told to
  -- stop: if it no longer runs before round `i + n`, then more than `n` rounds of fuel are enough.
  pub run_ends :
      (fuel n i : ℕ) (vm : Vm)
      → w.is_running (i + n) ≡ false
      → n < fuel
      → run types em w fuel i vm ≢ done none
  unfolding run
  run_ends zero n i vm stopped enough = absurd (omega arith)
  run_ends (suc fuel) zero i vm stopped enough =
      let now : w.is_running i ≡ false = ap w.is_running (omega arith) ∙ stopped in
      rw (run, now) (λ e. ground arith)
  run_ends (suc fuel) (suc n) i vm stopped enough = elim (Bool-cases (w.is_running i)) [
    | inr over ↦ rw (run, over) (λ e. ground arith)
    | inl on ↦ elim (Option-cases (w.run_vp i vm)) [
      | inl failed ↦ rw (run, on, failed) (λ e. ground arith)
      | inr (x, left) ↦ elim (Outcome-cases (handle_exit types em (w.moment i) x.0 x.1 vm)) [
        | inr stuck ↦ rw (run, on, left, stuck) (λ e. ground arith)
        | inl (r, handled) ↦ elim (Result-cases r.0) [
          | inr (x', refused) ↦ rw (run, on, left, handled, refused) (λ e. ground arith)
          | inl (b, answered) ↦ elim (Bool-cases b) [
            | inr stop ↦ rw (run, on, left, handled, answered, stop) (λ e. ground arith)
            | inl more ↦
                let later : w.is_running (i + 1 + n) ≡ false =
                  ap w.is_running (omega arith) ∙ stopped in
                rw (run, on, left, handled, answered, more)
                  (run_ends fuel n (i + 1) r.1 later (omega arith))
          ]
        ]
      ]
    ]
  ]

module _ (types : InterruptTypes) (em : Emulator) where
  -- The processor's end of interrupt reaches the controller. When a pin is still asserted, is level
  -- triggered, unmasked, in service and serves the vector, and no other pin is pending or
  -- acknowledged, then the exit for that vector goes on with the pin's interrupt requested once more.
  pub handle_exit_eoi :
      (m : Moment) (c : VpContext) (vm : Vm) (s : IoApic) (vector i : ℕ)
      → vm.ioapic ≡ some s
      → vector < 256
      → length s.ioredtbl ≡ 24
      → i < 24
      → acknowledged vector (entry s i) ≡ true
      → is_level (entry s i) ≡ true
      → is_masked (entry s i) ≡ false
      → bit s.irr i ≡ true
      → ((j : ℕ)
          → j < 24
          → i ≢ j
          → (bit s.irr j ≡ false) × (acknowledged vector (entry s j) ≡ false))
      → (s' : IoApic) × (handle_exit types em m (apic_eoi vector) c vm
          ≡ done (ok true, record vm { ioapic = some s' }))
        × (s'.requests
            ≡ s.requests
              ++ (interrupt_control types (parse_entry (entry_after_eoi vector (entry s i))) ∷ []))
  unfolding handle_exit
  handle_exit_eoi m c vm s vector i has word len pin ack level free raised quiet =
      let written = write_eoi types s vector word in
      (
        eoi_from types vector 24 0 s,
        rw (handle_exit, has, written) refl,
        (eoi_redelivers types vector s 24 0 i len (omega arith) (omega arith) (omega arith) ack
            level free raised quiet).0,
      )
