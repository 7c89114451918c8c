-- ===== src/Vm/Tsc.antt =====
-- The reference clock that the guest reads by the page of `write_tsc_reference_page` in src/vm.rs.
use whypa.Base.{
  ℕ, ◌+◌, ◌-◌, ◌*◌, ◌/◌, ◌%◌, ◌^◌, ◌<◌, ◌≤◌, ◌≡◌, refl, ap, ◌∙◌, sym, u64, sub64, subst, arith,
}
use native.Mathlib.Nat.{
  mul-le-mul_left, mul-le-mul_right, mul-lt-mul_of_pos_left, mul-le-mul, mod-lt, mod-eq_of_lt,
  lt_of_mul-lt-mul_left, mul-add, div-add-mod,
}
use whypa.Vm.{tsc_scale, tsc_offset}

-- The guest's formula.
unfoldable pub reference_time : ℕ → ℕ → ℕ → ℕ
reference_time scale offset tsc = u64 (tsc * scale / 2 ^ 64 + offset)

-- A difference of rounded products is the rounded product of the difference, up to 1.
scaled_difference :
    (s d scale : ℕ)
    → ((s + d) * scale / 2 ^ 64 ≤ s * scale / 2 ^ 64 + d * scale / 2 ^ 64 + 1)
      × (s * scale / 2 ^ 64 + d * scale / 2 ^ 64 ≤ (s + d) * scale / 2 ^ 64)
scaled_difference s d scale =
    let e : (s + d) * scale ≡ s * scale + d * scale = grind arith in rw e (omega arith, omega arith)

-- A rounded rate, times a time, is the time at the true rate up to 2.
scaled_rate :
    (freq scale rest d : ℕ)
    → freq * scale + rest ≡ 10_000_000 * 2 ^ 64
    → rest < freq
    → d < 2 ^ 64
    → (freq * (d * scale / 2 ^ 64) ≤ 10_000_000 * d)
      × (10_000_000 * d < freq * (d * scale / 2 ^ 64 + 2))
scaled_rate freq scale rest d division small word =
    let q = d * scale / 2 ^ 64 in
    let below : freq * (2 ^ 64 * q) ≤ freq * (d * scale) = mul-le-mul_left freq (omega arith) in
    let above : freq * (d * scale) < freq * (2 ^ 64 * q + 2 ^ 64) =
      mul-lt-mul_of_pos_left (omega arith) (omega arith) in
    let swap : freq * (d * scale) ≡ d * (freq * scale) = grind arith in
    let total : d * (freq * scale) + d * rest ≡ d * (10_000_000 * 2 ^ 64) =
      sym (mul-add d (freq * scale) rest) ∙ ap (λ t. d * t) division in
    let loss : d * rest ≤ 2 ^ 64 * freq = mul-le-mul (omega arith) (omega arith) in
    (omega arith, omega arith)

-- The formula subtracts.
difference : (a b : ℕ) → b ≤ a → a < 2 ^ 64 → u64 (a + sub64 0 (u64 b)) ≡ a - b
difference a b below word = omega arith

within :
    (freq d q time : ℕ)
    → (freq * q ≤ 10_000_000 * d) × (10_000_000 * d < freq * (q + 2))
    → q ≤ time
    → time ≤ q + 1
    → (freq * time ≤ 10_000_000 * d + freq) × (10_000_000 * d < freq * (time + 2))
within freq d q time rate low high =
    let up : freq * time ≤ freq * (q + 1) = mul-le-mul_left freq high in
    let down : freq * (q + 2) ≤ freq * (time + 2) = mul-le-mul_left freq (omega arith) in
    (omega arith, omega arith)

-- The processor's clock runs at `freq`, faster than 10 MHz. At any count of it from the start on, the
-- guest's formula with the page's scale and offset gives the units of 100 ns since the start, at most 1
-- too many and less than 2 too few, and 0 at the start.
pub reference_time_lem :
    (freq start tsc : ℕ)
    → 10_000_000 < freq
    → start ≤ tsc
    → tsc < 2 ^ 64
    → let scale = tsc_scale freq in
      let time = reference_time scale (tsc_offset start scale) tsc in
      (freq * time ≤ 10_000_000 * (tsc - start) + freq)
      × (10_000_000 * (tsc - start) < freq * (time + 2))
      × (reference_time scale (tsc_offset start scale) start ≡ 0)
unfolding reference_time tsc_scale tsc_offset
reference_time_lem freq start tsc fast after word =
    let k : ℕ = 10_000_000 * 2 ^ 64 in
    let exact = k / freq in
    let division : freq * exact + k % freq ≡ k = div-add-mod k freq in
    let rest : k % freq < freq = mod-lt k (omega arith) in
    let fits : exact < 2 ^ 64 =
      lt_of_mul-lt-mul_left freq (omega (arith, mul-le-mul_left freq fast)) in
    let scale : tsc_scale freq ≡ exact = unfold tsc_scale in mod-eq_of_lt fits in
    let d = tsc - start in
    let rate = scaled_rate freq exact (k % freq) d division rest (omega arith) in
    let parts = scaled_difference start d exact in
    let sum : start + d ≡ tsc = omega arith in
    let high : tsc * exact / 2 ^ 64 < 2 ^ 64 = omega (arith, mul-le-mul_right exact word) in
    let a = tsc * exact / 2 ^ 64 in
    let b = start * exact / 2 ^ 64 in
    let close : (a ≤ b + d * exact / 2 ^ 64 + 1) × (b + d * exact / 2 ^ 64 ≤ a) =
      subst
        (λ (t : ℕ).
          (t * exact / 2 ^ 64 ≤ b + d * exact / 2 ^ 64 + 1)
          × (b + d * exact / 2 ^ 64 ≤ t * exact / 2 ^ 64))
        sum parts in
    let elapsed : u64 (a + sub64 0 (u64 b)) ≡ a - b =
      difference a b (omega (arith, close.1)) high in
    let none_at_start : u64 (b + sub64 0 (u64 b)) ≡ 0 =
      difference b b (omega arith) (omega (arith, close.1, high)) ∙ omega arith in
    let bounds =
      within freq d (d * exact / 2 ^ 64) (a - b) rate (omega (arith, close.1))
        (omega (arith, close.0)) in
    rw (scale, elapsed, none_at_start) (bounds.0, bounds.1, refl)
