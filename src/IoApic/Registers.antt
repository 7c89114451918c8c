-- ===== src/IoApic/Registers.antt =====
-- What a write to the redirection table and to the EOI register does.
use whypa.Base.{
  ℕ, ◌+◌, ◌-◌, ◌*◌, ◌/◌, ◌%◌, ◌^◌, ◌≤◌, ◌<◌, ◌≡◌, sym, ◌∙◌, ◌==◌, ltb, if◌then◌else◌, Bool, true,
  false, ◌&&◌, ◌||◌, ==_refl, ==_ne, length, length-set, set, get_or-set_self, get_or-set_ne,
  bit_and, bit_or, u32, complement, ◌<<<◌, ◌>>>◌, ℕ_discrete, arith,
}
use native.Mathlib.Nat.{mod-eq_of_lt}
use whypa.Base.Bits.{
  bit, bit-bit_and, bit-bit_or, bit-complement, bit-two_pow, bit_clear, bit-shl, bit-shr,
  bit-low_mask, bit_and-low_mask, bit-mod_two_pow, bit_ext, bit_test,
}
use whypa.IoApic.Device.{
  IoApic, InterruptTypes, entry, merge_entry, fix_edge_remote_irr, write_redirection, read_window,
  remote_irr, deliv_status, ro_bits, rw_bits,
}
use whypa.IoApic.Pin.{is_level, entry_after, pending_after}
use whypa.IoApic.Service.{service_lem}

-- A number below `2 ^ k` has no digit from `k` on.
above_width : (x k i : ℕ) → x < 2 ^ k → k ≤ i → bit x i ≡ false
above_width x k i h l =
    let small : x % 2 ^ k ≡ x = mod-eq_of_lt h in
    let cut : bit x i ≡ (ltb i k && bit x i) = rw small at (bit-mod_two_pow x k i) in
    cut ∙ ground arith

ro_bits-bit : (j : ℕ) → bit ro_bits j ≡ (14 == j || 12 == j)
ro_bits-bit j =
    ground (arith, bit-bit_or remote_irr deliv_status j, bit-two_pow 14 j, bit-two_pow 12 j)

-- Of a redirection table entry, a write of one half keeps the other half and the bits 12 and 14,
-- and takes all other bits of the half from the 32-bit value written.
pub merge_entry-bit :
    (old val : ℕ) (upper : Bool) (j : ℕ)
    → val < 2 ^ 32
    → j < 64
    → bit (merge_entry old upper val) j ≡ (
        if j == 12 || j == 14
        then bit old j
        else if upper
        then (if ltb j 32 then bit old j else bit val (j - 32))
        else (if ltb j 32 then bit val j else bit old j))
unfolding merge_entry
merge_entry-bit old val true j hv hj = ground (
  arith,
  bit-bit_or (bit_and (bit_or (bit_and old 0xffff_ffff) (val <<< 32)) rw_bits) (bit_and old ro_bits)
      j,
  bit-bit_and (bit_or (bit_and old 0xffff_ffff) (val <<< 32)) rw_bits j,
  bit-bit_or (bit_and old 0xffff_ffff) (val <<< 32) j,
  bit-bit_and old 0xffff_ffff j,
  bit-low_mask 32 j,
  bit-shl val 32 j,
  bit-bit_and old ro_bits j,
  bit-complement 64 ro_bits j (omega arith) hj,
  ro_bits-bit j,
)
merge_entry-bit old val false j hv hj = ground (
  arith,
  bit-bit_or (bit_and (bit_or (bit_and old (complement 64 0xffff_ffff)) val) rw_bits)
      (bit_and old ro_bits) j,
  bit-bit_and (bit_or (bit_and old (complement 64 0xffff_ffff)) val) rw_bits j,
  bit-bit_or (bit_and old (complement 64 0xffff_ffff)) val j,
  bit-bit_and old (complement 64 0xffff_ffff) j,
  bit-complement 64 0xffff_ffff j (omega arith) hj,
  bit-low_mask 32 j,
  above_width val 32 j hv,
  bit-bit_and old ro_bits j,
  bit-complement 64 ro_bits j (omega arith) hj,
  ro_bits-bit j,
)

-- The digits of an entry whose remote IRR bit is cleared when the entry is edge triggered.
unfoldable pub edge_fixed : ℕ → ℕ
edge_fixed e = if is_level e then e else bit_and e (complement 64 remote_irr)

fix_edge_lem :
    (s : IoApic) (i j : ℕ)
    → i < length s.ioredtbl
    → entry (fix_edge_remote_irr s i) j ≡ (if i == j then edge_fixed (entry s j) else entry s j)
unfolding fix_edge_remote_irr edge_fixed
fix_edge_lem s i j h = elim (ℕ_discrete i j) [
  | yes e ↦ ground (
    arith,
    e,
    ==_refl i,
    bit_test (entry s i) 15,
    get_or-set_self s.ioredtbl i (bit_and (entry s i) (complement 64 remote_irr)) 0 h,
  )
  | no ne ↦ ground (
    arith,
    ==_ne i j ne,
    bit_test (entry s i) 15,
    get_or-set_ne s.ioredtbl i j (bit_and (entry s i) (complement 64 remote_irr)) 0 ne,
  )
]

fix_edge_frame :
    (s : IoApic) (i : ℕ)
    → (length (fix_edge_remote_irr s i).ioredtbl ≡ length s.ioredtbl)
      × ((fix_edge_remote_irr s i).irr ≡ s.irr)
      × ((fix_edge_remote_irr s i).requests ≡ s.requests)
unfolding fix_edge_remote_irr
fix_edge_frame s i =
    ground (arith, length-set s.ioredtbl i (bit_and (entry s i) (complement 64 remote_irr)))

-- The entry that a write leaves before the pending interrupts are served.
unfoldable pub written_entry : IoApic → ℕ → Bool → ℕ → ℕ → ℕ
written_entry s index upper val j =
    if index == j then edge_fixed (merge_entry (entry s index) upper val) else entry s j

module _ (types : InterruptTypes) where
  -- With a table of 24 entries, a write of one half of the entry `index` merges the half into the
  -- entry, clears the remote IRR bit of an entry that is edge triggered then, and serves every
  -- pin with the new table: an entry changes only in that way.
  pub write_redirection_lem :
      (s : IoApic) (index : ℕ) (upper : Bool) (val : ℕ)
      → length s.ioredtbl ≡ 24
      → index < 24
      → (j : ℕ) → j < 24
      → (entry (write_redirection types s index upper val) j
          ≡ entry_after (bit s.irr j) (written_entry s index upper val j))
        × (bit (write_redirection types s index upper val).irr j
            ≡ pending_after (bit s.irr j) (written_entry s index upper val j))
  unfolding write_redirection
  write_redirection_lem s index upper val l h j k =
      let merged = merge_entry (entry s index) upper val in
      let stored : IoApic = record s {
        ioredtbl = set s.ioredtbl index merged;
        irq_eoi = set s.irq_eoi index 0;
      } in
      let frame = fix_edge_frame stored index in
      let size : length stored.ioredtbl ≡ 24 = length-set s.ioredtbl index merged ∙ l in
      let after = (service_lem types (fix_edge_remote_irr stored index) (frame.0 ∙ size)).1 j k in
      let fixed = fix_edge_lem stored index j (omega arith) in
      let placed : entry (fix_edge_remote_irr stored index) j ≡ written_entry s index upper val j =
        unfold written_entry in
        elim (ℕ_discrete index j) [
          | yes e ↦
              ground (
                arith,
                fixed,
                e,
                ==_refl j,
                get_or-set_self s.ioredtbl index merged 0 (omega arith),
              )
          | no ne ↦
              ground (arith, fixed, ==_ne index j ne, get_or-set_ne s.ioredtbl index j merged 0 ne)
        ] in
      (after.0 ∙ rw (frame.1, placed), after.1 ∙ rw (frame.1, placed))

  edge_fixed-bit : (e j : ℕ) → j < 64 → (j ≡ 14 → ⊥) → bit (edge_fixed e) j ≡ bit e j
  unfolding edge_fixed
  edge_fixed-bit e j h ne =
      ground (arith, bit_clear 64 e 14 j (omega arith) h, ==_ne 14 j (λ q. ne (sym q)))

  entry_after-bit :
      (pending : Bool) (e j : ℕ) → (j ≡ 14 → ⊥) → bit (entry_after pending e) j ≡ bit e j
  unfolding entry_after
  entry_after-bit pending e j ne =
      ground (arith, bit-bit_or e remote_irr j, bit-two_pow 14 j, ==_ne 14 j (λ q. ne (sym q)))

  -- With a table of 24 entries, a 32-bit value written to the upper half of an entry is what the
  -- window then shows there, whatever the pin's state and whatever interrupts the write delivers.
  pub read-write_upper :
      (s : IoApic) (index val : ℕ)
      → length s.ioredtbl ≡ 24
      → index < 24
      → val < 2 ^ 32
      → read_window
          (record (write_redirection types s index true val) { ioregsel = 0x10 + 2 * index + 1 })
        ≡ val
  unfolding read_window written_entry
  read-write_upper s index val l h v =
      let table = (write_redirection_lem s index true val l h index h).0 in
      let written = merge_entry (entry s index) true val in
      let final = entry_after (bit s.irr index) (edge_fixed written) in
      let shown : entry (write_redirection types s index true val) index ≡ final =
        ground (arith, table, ==_refl index) in
      let upper : u32 (final >>> 32) ≡ val =
        bit_ext 32 (u32 (final / 2 ^ 32)) val (omega arith) v λ i k. ground (
          arith,
          bit-mod_two_pow (final / 2 ^ 32) 32 i,
          bit-shr final 32 i,
          entry_after-bit (bit s.irr index) (edge_fixed written) (32 + i) (omega arith),
          edge_fixed-bit written (32 + i) (omega arith) (omega arith),
          merge_entry-bit (entry s index) val true (32 + i) v (omega arith),
        ) in
      let selected : (0x10 + 2 * index + 1 + 2 ^ 64 - 0x10) % 2 ^ 64 / 2 ≡ index = omega arith in
      let odd : ltb 0 (bit_and (0x10 + 2 * index + 1) 1) ≡ true =
        ground (arith, bit_and-low_mask 1 (0x10 + 2 * index + 1)) in
      ground (arith, shown, upper, selected, odd)
