-- ===== src/Mmio/Features.antt =====
-- Which features a device holds for acknowledged.
use whypa.Base.{
  ℕ, ◌+◌, ◌*◌, ◌/◌, ◌%◌, ◌^◌, ◌<◌, ◌≡◌, ◌≤◌, refl, ap, sym, ◌∙◌, dec_le, false, ◌==◌, ==_iff,
  if◌then◌else◌, Bool-cases, ◌&&◌, ◌||◌, inl, inr, bit_and, complement, arith,
}
use whypa.Base.Bits.{
  bit, bit-zero, bit_and_le, bit-bit_and, bit-bit_or, bit-complement, bit-shr, bit-mod_two_pow,
}
use whypa.Mmio.Device.{VirtioDevice, IsVirtioDevice, page_value, ack_features_by_page}

-- What is taken of a value is what the device offers.
claimed :
    (v avail i : ℕ)
    → avail < 2 ^ 64
    → v < 2 ^ 64
    → i < 64
    → bit
        (if bit_and v (complement 64 avail) == 0
          then v
          else bit_and v (complement 64 (bit_and v (complement 64 avail))))
        i
      ≡ (bit v i && bit avail i)
claimed v avail i ha hv hi =
    let masked = bit-bit_and v (complement 64 avail) i in
    let flipped = bit-complement 64 avail i ha hi in
    elim (Bool-cases (bit_and v (complement 64 avail) == 0)) [
      | inl e ↦
          let none_left : bit (bit_and v (complement 64 avail)) i ≡ bit 0 i =
            ap (λ x. bit x i) ((==_iff _ _).0 e) in
          ground (arith, e, none_left, bit-zero i, masked, flipped)
      | inr e ↦
          let unrequested = bit_and v (complement 64 avail) in
          let small : unrequested < 2 ^ 64 = omega (arith, bit_and_le v (complement 64 avail)) in
          ground (
            arith,
            e,
            bit-bit_and v (complement 64 unrequested) i,
            bit-complement 64 unrequested i small hi,
            masked,
            flipped,
          )
    ]

-- The digits of a 32-bit value, below and from 32 on, and those of the value in the upper half.
bit-small : (v i : ℕ) → v < 2 ^ 32 → 32 ≤ i → bit v i ≡ false
bit-small v i small high =
    let same : v % 2 ^ 32 ≡ v = omega arith in
    ground (arith, ap (λ x. bit x i) same, bit-mod_two_pow v 32 i)

bit-upper_low : (v i : ℕ) → i < 32 → bit (v * 2 ^ 32) i ≡ false
bit-upper_low v i low =
    let none_left : (v * 2 ^ 32) % 2 ^ 32 ≡ 0 = omega arith in
    ground (arith, ap (λ x. bit x i) none_left, bit-mod_two_pow (v * 2 ^ 32) 32 i, bit-zero i)

bit-upper_high : (v i : ℕ) → 32 ≤ i → i < 64 → bit (v * 2 ^ 32) i ≡ bit v (i % 32)
bit-upper_high v i high word =
    let at : 32 + i % 32 ≡ i = omega arith in
    let down : v * 2 ^ 32 / 2 ^ 32 ≡ v = omega arith in
    ap (bit (v * 2 ^ 32)) (sym at)
    ∙ sym (bit-shr (v * 2 ^ 32) 32 (i % 32))
    ∙ ap (λ x. bit x (i % 32)) down

-- The 32-bit value of a page stands at the page's own 32 digits.
bit-page_value :
    (page value i : ℕ)
    → value < 2 ^ 32
    → i < 64
    → bit (page_value page value) i ≡ (i / 32 == page && bit value (i % 32))
unfolding page_value
bit-page_value page value i small word = elim (dec_le 32 i) [
  | yes high ↦
      let one : i / 32 ≡ 1 = omega arith in
      ground
        (arith, one, bit-small value i small high, bit-upper_high value i high word, bit-zero i)
  | no low ↦
      let first : i / 32 ≡ 0 = omega arith in
      let at : i % 32 ≡ i = omega arith in
      ground
        (arith, first, ap (bit value) at, bit-upper_low value i (omega (arith, low)), bit-zero i)
]

module _ {D : Type 0} (dev : VirtioDevice D) (law : IsVirtioDevice dev) where
  -- Of a device that keeps the features it is given, offers 64 features and gets a 32-bit value for a
  -- page, feature `i` is acknowledged afterwards exactly when it was before, or when it is offered, the
  -- page is `i / 32` and digit `i % 32` of the value is set; what the device offers is unchanged.
  pub ack_features_by_page-bit :
      (d : D) (page value i : ℕ)
      → dev.avail_features d < 2 ^ 64
      → value < 2 ^ 32
      → i < 64
      → (bit (dev.acked_features (ack_features_by_page dev d page value)) i ≡ (
          bit (dev.acked_features d) i
          || (i / 32 == page && bit value (i % 32)) && bit (dev.avail_features d) i))
        × (dev.avail_features (ack_features_by_page dev d page value) ≡ dev.avail_features d)
  unfolding ack_features_by_page
  ack_features_by_page-bit d page value i ha hv hi =
      let v = page_value page value in
      let small : v < 2 ^ 64 = unfold page_value in (ground arith) in
      let taken = claimed v (dev.avail_features d) i ha small hi in
      (
        rw (law.acked_set d _) (
            bit-bit_or (dev.acked_features d) _ i
            ∙ rw (taken, bit-page_value page value i hv hi) refl),
        law.avail_set d _,
      )
