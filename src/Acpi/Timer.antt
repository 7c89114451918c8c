-- ===== src/Acpi/Timer.antt =====
-- The timer that `AcpiPmTimerDevice` of src/acpi.rs shows to the guest.
use whypa.Base.{
  ℕ, ◌+◌, ◌-◌, ◌*◌, ◌/◌, ◌%◌, ◌^◌, ◌<◌, ◌≤◌, ◌≡◌, refl, ap, ◌∙◌, ◌==◌, true, List, length,
  to_le_bytes, from_le_bytes, from_le_bytes-to_le_bytes, arith,
}
use whypa.Base.Bits.{bit_and-low_mask}
use whypa.Acpi.{read_pm_timer}

read_pm_timer-four :
    (nanos : ℕ) (buf : List ℕ)
    → length buf ≡ 4
    → from_le_bytes (read_pm_timer nanos buf) ≡ nanos * 3_579_545 / 1_000_000_000 % 2 ^ 32
unfolding read_pm_timer
read_pm_timer-four nanos buf four =
    let counter = nanos * 3_579_545 / 1_000_000_000 in
    let whole : (length buf == 4) ≡ true = rw four refl in
    rw (read_pm_timer, whole)
      (ap (λ v. from_le_bytes (to_le_bytes 4 v)) (bit_and-low_mask 32 counter)
        ∙ from_le_bytes-to_le_bytes 4 (counter % 2 ^ 32) (omega arith))

-- Two reads of four bytes. Their difference as 32-bit words is the time between them in ticks of
-- 3.579545 MHz, less than one tick too many or too few, if the time is less than 2 ^ 32 - 1 ticks.
pub read_pm_timer_elapsed :
    (earlier later : ℕ) (buf buf' : List ℕ)
    → length buf ≡ 4
    → length buf' ≡ 4
    → earlier ≤ later
    → 3_579_545 * (later - earlier) < 1_000_000_000 * (2 ^ 32 - 1)
    → let ticks =
        (from_le_bytes (read_pm_timer later buf')
          + 2 ^ 32
          - from_le_bytes (read_pm_timer earlier buf))
        % 2 ^ 32 in
      (1_000_000_000 * ticks < 3_579_545 * (later - earlier) + 1_000_000_000)
      × (3_579_545 * (later - earlier) < 1_000_000_000 * ticks + 1_000_000_000)
read_pm_timer_elapsed earlier later buf buf' four four' after short =
    rw (read_pm_timer-four earlier buf four, read_pm_timer-four later buf' four')
      (omega arith, omega arith)
