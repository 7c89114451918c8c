-- ===== src/Buffers/Split.antt =====
-- `split_at` of src/devices/virtio/descriptor_utils.rs: what the two halves hold.
pub mod Boundary
use whypa.Base.{
  ℕ, ◌+◌, ◌-◌, ◌≤◌, ◌<◌, ◌≡◌, refl, sym, ap, ◌∙◌, ◌↔◌, ◌==◌, ltb, Bool-cases, true, false, inl, inr,
  List, [], ◌∷◌, ◌++◌, append-nil, append_assoc, length, length-append, drop, drop-append, drop_all,
  drop_within, ok, err, dec_lt, arith,
}
use whypa.Buffers.Slice.{VolatileSlice, IsVolatileSlice}
use whypa.Buffers.Consumer.{
  split_out_of_bounds, DescriptorChainConsumer, split_off, split_parts, split_at,
}
use whypa.Buffers.Flat.{span, addresses, length-span}
use whypa.Buffers.Consume.{left, length-addresses, offset-span}

module _ {V : Type 0} (vs : VolatileSlice V) (law : IsVolatileSlice vs) where
  -- The offset falls into the first of the slices.
  Stops : ℕ → List V → Type 0
  Stops rem [] = rem ≡ rem
  Stops rem (v ∷ rest) = rem < vs.len v

  pub addresses-append :
      (xs ys : List V) → addresses vs (xs ++ ys) ≡ addresses vs xs ++ addresses vs ys
  unfolding addresses
  addresses-append [] ys = refl
  addresses-append (v ∷ xs) ys =
      ap (λ r. span (vs.ptr v) (vs.len v) ++ r) (addresses-append xs ys)
      ∙ sym (append_assoc (span (vs.ptr v) (vs.len v)) (addresses vs xs) (addresses vs ys))

  split_off-Stops :
      (rem : ℕ) (bufs : List V) → Stops (split_off vs rem bufs).1 (split_off vs rem bufs).2
  unfolding split_off Stops
  split_off-Stops rem [] = refl
  split_off-Stops rem (v ∷ rest) = elim (Bool-cases (ltb rem (vs.len v))) [
    | inl e ↦ rw e (ground arith)
    | inr e ↦ rw e (split_off-Stops (rem - vs.len v) rest)
  ]

  pub split_off-whole :
      (rem : ℕ) (bufs : List V) → (split_off vs rem bufs).0 ++ (split_off vs rem bufs).2 ≡ bufs
  unfolding split_off
  split_off-whole rem [] = refl
  split_off-whole rem (v ∷ rest) = elim (Bool-cases (ltb rem (vs.len v))) [
    | inl e ↦ rw e refl
    | inr e ↦ rw e (ap (λ r. v ∷ r) (split_off-whole (rem - vs.len v) rest))
  ]

  split_off-length :
      (rem : ℕ) (bufs : List V)
      → length (addresses vs (split_off vs rem bufs).0) + (split_off vs rem bufs).1 ≡ rem
  unfolding split_off
  split_off-length rem [] = unfold addresses in omega arith
  split_off-length rem (v ∷ rest) = elim (Bool-cases (ltb rem (vs.len v))) [
    | inl e ↦ rw e (unfold addresses in omega arith)
    | inr e ↦
        let later = split_off-length (rem - vs.len v) rest in
        let size = length-addresses vs law v (split_off vs (rem - vs.len v) rest).0 in
        let past : vs.len v ≤ rem = ground arith in rw e (omega (arith, later, size, past))
  ]

  split_parts_within :
      (c : DescriptorChainConsumer V) (offset rem : ℕ) (before rest : List V)
      → length (addresses vs before) + rem ≡ offset
      → offset ≤ length (addresses vs (before ++ rest))
      → Stops rem rest
      → (other : DescriptorChainConsumer V) × ((split_parts vs c offset (before, rem, rest)).0
          ≡ ok other)
        × (addresses vs other.buffers ≡ drop offset (addresses vs (before ++ rest)))
  unfolding split_parts Stops addresses
  split_parts_within c offset rem before [] e within stops =
      let none_left : rem ≡ 0 =
        omega (arith, ap (λ r. length (addresses vs r)) (append-nil before)) in
      (
        record { buffers = []; bytes_consumed = 0 },
        rw none_left refl,
        (sym (
            drop_all offset (addresses vs (before ++ []))
              (omega (arith, ap (λ r. length (addresses vs r)) (append-nil before))))),
      )
  split_parts_within c offset rem before (front ∷ rest) e within stops =
      let all = addresses-append before (front ∷ rest) in
      let size = length-span (vs.ptr front) (vs.len front) in
      let shown : drop offset (addresses vs (before ++ (front ∷ rest)))
          ≡ drop rem (addresses vs (front ∷ rest)) =
        ap (drop offset) all
        ∙ drop-append offset (addresses vs before) (addresses vs (front ∷ rest))
        ∙ ap
            (λ xs. xs ++ drop (offset - length (addresses vs before)) (addresses vs (front ∷ rest)))
            (drop_all offset (addresses vs before) (omega arith))
        ∙ ap (λ k. drop k (addresses vs (front ∷ rest))) (omega arith) in
      elim (Bool-cases (ltb 0 rem)) [
        | inl pos ↦
            let cut = offset-span vs law front rem (omega arith) in
            (
              record { buffers = cut.0 ∷ rest; bytes_consumed = 0 },
              rw (pos, cut.1) refl,
              ap (λ xs. xs ++ addresses vs rest) cut.2
                  ∙ sym (
                      drop_within rem (span (vs.ptr front) (vs.len front)) (addresses vs rest)
                        (omega (arith, size)))
                  ∙ sym shown,
            )
        | inr zer ↦
            let none_left : rem ≡ 0 = ground arith in
            (
              record { buffers = front ∷ rest; bytes_consumed = 0 },
              rw zer refl,
              sym (shown ∙ ap (λ k. drop k (addresses vs (front ∷ rest))) none_left),
            )
      ]

  -- The half that is returned.
  pub split_at_within :
      (c : DescriptorChainConsumer V) (offset : ℕ)
      → offset ≤ left vs law c
      → (other : DescriptorChainConsumer V) × ((split_at vs c offset).0 ≡ ok other)
        × (addresses vs other.buffers ≡ drop offset (addresses vs c.buffers))
  unfolding split_at
  split_at_within c offset h =
      let parts = split_off vs offset c.buffers in
      let whole : addresses vs (parts.0 ++ parts.2) ≡ addresses vs c.buffers =
        ap (addresses vs) (split_off-whole offset c.buffers) in
      let split =
        split_parts_within c offset parts.1 parts.0 parts.2 (split_off-length offset c.buffers)
          (omega (arith, ap length whole)) (split_off-Stops offset c.buffers) in
      (split.0, split.1, split.2 ∙ ap (drop offset) whole)

  split_parts_past :
      (c : DescriptorChainConsumer V) (offset rem : ℕ) (before rest : List V)
      → length (addresses vs before) + rem ≡ offset
      → length (addresses vs (before ++ rest)) < offset
      → Stops rem rest
      → split_parts vs c offset (before, rem, rest) ≡ (err (split_out_of_bounds offset), c)
  unfolding split_parts Stops
  split_parts_past c offset rem before [] e past stops =
      let some_left : (rem == 0) ≡ false =
        ground (arith, ap (λ r. length (addresses vs r)) (append-nil before)) in
      rw some_left refl
  split_parts_past c offset rem before (front ∷ rest) e past stops = absurd (
      omega (
        arith,
        ap length (addresses-append before (front ∷ rest)),
        length-append (addresses vs before) (addresses vs (front ∷ rest)),
        length-addresses vs law front rest,
      ))

  -- The error, and that it changes nothing.
  pub split_at_past :
      (c : DescriptorChainConsumer V) (offset : ℕ)
      → (split_at vs c offset ≡ (err (split_out_of_bounds offset), c)) ↔ (left vs law c < offset)
  unfolding split_at
  split_at_past c offset = (
    λ e. elim (dec_lt (left vs law c) offset) [
      | yes h ↦ h
      | no h ↦ let split = split_at_within c offset (omega arith) in cc (split.1, ap (λ p. p.0) e)
    ],
    λ h.
        let parts = split_off vs offset c.buffers in
        let whole : addresses vs (parts.0 ++ parts.2) ≡ addresses vs c.buffers =
          ap (addresses vs) (split_off-whole offset c.buffers) in
        split_parts_past c offset parts.1 parts.0 parts.2 (split_off-length offset c.buffers)
          (omega (arith, ap length whole)) (split_off-Stops offset c.buffers),
  )
