-- ===== src/Buffers/Split/Boundary.antt =====
-- `split_at` at the end of a slice and inside one.
use whypa.Base.{
  ℕ, ◌+◌, ◌-◌, ◌<◌, ◌≡◌, refl, sym, ap, ◌∙◌, ltb, Bool-cases, true, false, inl, inr, List, [], ◌∷◌,
  ◌++◌, append-nil, append_assoc, length, drop, ok, arith,
}
use whypa.Buffers.Slice.{VolatileSlice, IsVolatileSlice}
use whypa.Buffers.Consumer.{DescriptorChainConsumer, split_off, split_parts, split_at}
use whypa.Buffers.Flat.{span, addresses}
use whypa.Buffers.Consume.{length-addresses, offset-span}
use whypa.Buffers.Split.{addresses-append, split_off-whole}

module _ {V : Type 0} (vs : VolatileSlice V) (law : IsVolatileSlice vs) where
  -- An offset past the bytes of some slices goes on into the others.
  split_off-append :
      (xs ys : List V) (k : ℕ)
      → split_off vs (length (addresses vs xs) + k) (xs ++ ys)
        ≡ (xs ++ (split_off vs k ys).0, (split_off vs k ys).1, (split_off vs k ys).2)
  unfolding split_off
  split_off-append [] ys k = unfold addresses in ap (λ r. split_off vs r ys) (omega arith)
  split_off-append (v ∷ xs) ys k =
      let rem = length (addresses vs (v ∷ xs)) + k in
      let size = length-addresses vs law v xs in
      let past : ltb rem (vs.len v) ≡ false = ground (arith, size) in
      let next : rem - vs.len v ≡ length (addresses vs xs) + k = omega (arith, size) in
      rw (past, next, split_off-append xs ys k) refl

  split_off-zero :
      (ys : List V)
      → (zs rest : List V) × (split_off vs 0 ys ≡ (zs, 0, rest)) × (addresses vs zs ≡ [])
  unfolding split_off addresses span
  split_off-zero [] = ([], [], refl, refl)
  split_off-zero (v ∷ ys) =
      let later = split_off-zero ys in
      elim (Bool-cases (ltb 0 (vs.len v))) [
        | inl e ↦ ([], v ∷ ys, rw e refl, refl)
        | inr e ↦
            let nil : vs.len v ≡ 0 = ground arith in
            (
              v ∷ later.0,
              later.1,
              rw (nil, later.2) refl,
              ap (λ n. span (vs.ptr v) n ++ addresses vs later.0) nil ∙ later.3,
            )
      ]

  split_parts-zero :
      (c : DescriptorChainConsumer V) (offset : ℕ) (before rest : List V)
      → before ++ rest ≡ c.buffers
      → (other : DescriptorChainConsumer V) × (split_parts vs c offset (before, 0, rest)
          ≡ (ok other, record c { buffers = before }))
        × (other.buffers ≡ rest)
  unfolding split_parts
  split_parts-zero c offset before [] whole = (
    record { buffers = []; bytes_consumed = 0 },
    ap (λ r. (ok (record { buffers = []; bytes_consumed = 0 }), record c { buffers = r }))
        (sym whole ∙ append-nil before),
    refl,
  )
  split_parts-zero c offset before (front ∷ rest) whole =
      (record { buffers = front ∷ rest; bytes_consumed = 0 }, refl, refl)

  -- At the end of a slice the consumer keeps the bytes before the offset, and the other half has
  -- those after it.
  pub split_at_boundary :
      (c : DescriptorChainConsumer V) (xs ys : List V)
      → c.buffers ≡ xs ++ ys
      → (other this : DescriptorChainConsumer V) × (split_at vs c (length (addresses vs xs))
          ≡ (ok other, this))
        × (addresses vs this.buffers ≡ addresses vs xs)
        × (addresses vs other.buffers ≡ addresses vs ys)
  unfolding split_at
  split_at_boundary c xs ys h =
      let start = split_off-zero ys in
      let offset = length (addresses vs xs) in
      let found : split_off vs offset c.buffers ≡ (xs ++ start.0, 0, start.1) =
        ap (split_off vs offset) h
        ∙ ap (λ k. split_off vs k (xs ++ ys)) (omega arith)
        ∙ split_off-append xs ys 0
        ∙ ap (λ p. (xs ++ p.0, p.1, p.2)) start.2 in
      let whole : start.0 ++ start.1 ≡ ys =
        ap (λ p. p.0 ++ p.2) (sym start.2) ∙ split_off-whole vs law 0 ys in
      let halves =
        split_parts-zero c offset (xs ++ start.0) start.1
          (append_assoc xs start.0 start.1 ∙ ap (λ r. xs ++ r) whole ∙ sym h) in
      (
        halves.0,
        record c { buffers = xs ++ start.0 },
        ap (split_parts vs c offset) found ∙ halves.1,
        addresses-append vs law xs start.0
            ∙ ap (λ r. addresses vs xs ++ r) start.3
            ∙ append-nil (addresses vs xs),
        ap (addresses vs) halves.2
            ∙ ap (λ r. r ++ addresses vs start.1) (sym start.3)
            ∙ sym (addresses-append vs law start.0 start.1)
            ∙ ap (addresses vs) whole,
      )

  -- Inside a slice both halves end up with the slice's bytes after the offset, and neither has its
  -- bytes before it.
  pub split_at_inside :
      (c : DescriptorChainConsumer V) (xs ys : List V) (v : V) (k : ℕ)
      → c.buffers ≡ xs ++ (v ∷ ys)
      → 0 < k
      → k < vs.len v
      → (other this : DescriptorChainConsumer V) × (split_at vs c (length (addresses vs xs) + k)
          ≡ (ok other, this))
        × (addresses vs this.buffers ≡ addresses vs xs ++ drop k (span (vs.ptr v) (vs.len v)))
        × (addresses vs other.buffers ≡ drop k (span (vs.ptr v) (vs.len v)) ++ addresses vs ys)
  unfolding split_at split_parts
  split_at_inside c xs ys v k h pos inside =
      let offset = length (addresses vs xs) + k in
      let here : split_off vs k (v ∷ ys) ≡ ([], k, v ∷ ys) =
        unfold split_off in (let e : ltb k (vs.len v) ≡ true = ground arith in rw e refl) in
      let found : split_off vs offset c.buffers ≡ (xs, k, v ∷ ys) =
        ap (split_off vs offset) h
        ∙ split_off-append xs (v ∷ ys) k
        ∙ ap (λ p. (xs ++ p.0, p.1, p.2)) here
        ∙ ap (λ r. (r, k, v ∷ ys)) (append-nil xs) in
      let cut = offset-span vs law v k (omega arith) in
      let some_left : ltb 0 k ≡ true = ground arith in
      (
        record { buffers = cut.0 ∷ ys; bytes_consumed = 0 },
        record c { buffers = xs ++ (cut.0 ∷ []) },
        ap (split_parts vs c offset) found ∙ rw (some_left, cut.1) refl,
        addresses-append vs law xs (cut.0 ∷ [])
            ∙ unfold addresses in
              (ap (λ r. addresses vs xs ++ (r ++ [])) cut.2
                ∙ ap (λ r. addresses vs xs ++ r) (append-nil _)),
        unfold addresses in ap (λ r. r ++ addresses vs ys) cut.2,
      )
