-- ===== src/Emulator/Refresh.antt =====
-- The refresh toggle of port 0x61 in src/emulator.rs, which a guest polls until it changes.
use whypa.Base.{
  ℕ, zero, suc, ◌+◌, ◌/◌, ◌^◌, ◌<◌, ◌≡◌, refl, sym, ap, ◌∙◌, ◌&&◌, true, false, not, inl, inr,
  Bool-cases, bit_and, bit_or, u32, u64, ◌<<<◌, ◌>>>◌, arith,
}
use whypa.Base.Bits.{bit, bit-bit_or, bit-bit_and, bit-shl, bit-shr, bit-mod_two_pow}
use whypa.Bus.{BusDevice}
use whypa.Emulator.{Partition, io_in, in_refresh}

module _ {S : Type 0} (device : ℕ → BusDevice S) where
  unfoldable pub reads : ℕ → Partition S → Partition S
  reads zero p = p
  reads (suc n) p = reads n (io_in device 0x61 1 p).1

  reads_counter :
      (n : ℕ) (p : Partition S)
      → p.internal_counter + n < 2 ^ 64
      → (reads n p).internal_counter ≡ p.internal_counter + n
  unfolding reads io_in in_refresh
  reads_counter zero p h = omega arith
  reads_counter (suc n) p h =
      let counter : u64 (p.internal_counter + 1) ≡ p.internal_counter + 1 = omega arith in
      let later =
        reads_counter n (record p { internal_counter = u64 (p.internal_counter + 1) })
          (omega (arith, counter)) in
      later ∙ omega (arith, counter)

  in_refresh-bit :
      (p : Partition S) → bit (in_refresh device p).0 4 ≡ bit (u64 (p.internal_counter + 1)) 7
  unfolding in_refresh
  in_refresh-bit p =
      let c = u64 (p.internal_counter + 1) in
      let a = bit_and (c >>> 7) 1 in
      let b = bit_and (c >>> 6) 1 in
      let low : bit (u32 (bit_or (a <<< 4) (b <<< 5))) 4 ≡ bit (bit_or (a <<< 4) (b <<< 5)) 4 =
        bit-mod_two_pow (bit_or (a <<< 4) (b <<< 5)) 32 4 in
      let first : bit (a <<< 4) 4 ≡ bit a 0 = bit-shl a 4 4 in
      let second : bit (b <<< 5) 4 ≡ false = bit-shl b 5 4 in
      let digit : bit a 0 ≡ (bit (c >>> 7) 0 && bit 1 0) = bit-bit_and (c >>> 7) 1 0 in
      let one : bit 1 0 ≡ true = unfold bit in refl in
      low
      ∙ bit-bit_or (a <<< 4) (b <<< 5) 4
      ∙ rw (first, second, digit, one, bit-shr c 7 0)
          (elim (Bool-cases (bit c 7)) [ inl e ↦ rw e refl | inr e ↦ rw e refl ])

  seventh_bit_toggles : (c : ℕ) → bit (c + 128) 7 ≡ not (bit c 7)
  seventh_bit_toggles c =
      let next : (c + 128) / 2 ^ 7 ≡ c / 2 ^ 7 + 1 = omega arith in
      sym (bit-shr (c + 128) 7 0)
      ∙ ap (λ k. bit k 0) next
      ∙ unfold bit in ground arith ∙ ap not (bit-shr c 7 0)

  -- A guest that reads the port until bit 4 changes sees the change: the read after 128 more reads
  -- answers the other bit, while the count of the reads is below 2 ^ 64.
  pub io_in-reads :
      (p : Partition S)
      → p.internal_counter + 129 < 2 ^ 64
      → bit (io_in device 0x61 1 (reads 128 p)).0 4 ≡ not (bit (io_in device 0x61 1 p).0 4)
  unfolding io_in
  io_in-reads p h =
      let n = reads_counter 128 p (omega arith) in
      let later : u64 ((reads 128 p).internal_counter + 1) ≡ u64 (p.internal_counter + 1) + 128 =
        omega (arith, n) in
      in_refresh-bit (reads 128 p)
      ∙ ap (λ k. bit k 7) later
      ∙ seventh_bit_toggles (u64 (p.internal_counter + 1))
      ∙ ap not (sym (in_refresh-bit p))
