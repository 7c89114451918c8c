-- ===== src/Buffers/Available.antt =====
-- `available_bytes` of src/devices/virtio/descriptor_utils.rs, and what `consume` hands over when the
-- count ends with a slice.
use whypa.Base.{
  ℕ, ◌+◌, ◌-◌, ◌^◌, ◌≤◌, ◌<◌, ◌≡◌, refl, ap, ◌∙◌, ltb, leb, if◌then◌else◌, Bool-cases, true, inl,
  inr, List, [], ◌∷◌, ◌++◌, length, take_all, u64, arith,
}
use whypa.Buffers.Slice.{VolatileSlice, IsVolatileSlice}
use whypa.Buffers.Consumer.{DescriptorChainConsumer, sum_len, available_bytes, pick}
use whypa.Buffers.Flat.{span, addresses}
use whypa.Buffers.Consume.{left, length-addresses}

module _ {V : Type 0} (vs : VolatileSlice V) (law : IsVolatileSlice vs) where
  pub sum_len-addresses :
      (count : ℕ) (bufs : List V)
      → count + length (addresses vs bufs) < 2 ^ 64
      → sum_len vs count bufs ≡ count + length (addresses vs bufs)
  unfolding sum_len
  sum_len-addresses count [] h = unfold addresses in omega arith
  sum_len-addresses count (v ∷ rest) h =
      let size = length-addresses vs law v rest in
      let small : u64 (count + vs.len v) ≡ count + vs.len v = omega (arith, size) in
      rw small
        (sum_len-addresses (count + vs.len v) rest (omega (arith, size)) ∙ omega (arith, size))

  -- `available_bytes` counts the bytes that are left, if they are less than 2 ^ 64.
  pub available_bytes-left :
      (c : DescriptorChainConsumer V)
      → left vs law c < 2 ^ 64
      → available_bytes vs c ≡ left vs law c
  unfolding available_bytes
  available_bytes-left c h = sum_len-addresses 0 c.buffers (omega arith) ∙ omega arith

  pub pick-none :
      (buflen count : ℕ) (bufs : List V) → count ≤ buflen → pick vs buflen count bufs ≡ []
  unfolding pick
  pick-none buflen count [] h = refl
  pick-none buflen count (v ∷ rest) h = let e : leb count buflen ≡ true = ground arith in rw e refl

  -- Slices that hold exactly `count` bytes are handed over, and none after them.
  pub pick-exact :
      (buflen count : ℕ) (xs ys : List V)
      → count ≡ buflen + length (addresses vs xs)
      → addresses vs (pick vs buflen count (xs ++ ys)) ≡ addresses vs xs
  unfolding pick addresses
  pick-exact buflen count [] ys h = ap (addresses vs) (pick-none buflen count ys (omega (arith, h)))
  pick-exact buflen count (v ∷ xs) ys h =
      let size = length-addresses vs law v xs in
      elim (Bool-cases (leb count buflen)) [
        | inl e ↦ rw e (take_all 0 (addresses vs (v ∷ xs)) (ground arith))
        | inr e ↦
            let next : (if ltb (count - buflen) (vs.len v)
                  then buflen + (count - buflen)
                  else buflen + vs.len v)
                ≡ buflen + vs.len v =
              ground (arith, size) in
            rw (e, next)
              (ap (λ r. span (vs.ptr v) (vs.len v) ++ r)
                (pick-exact (buflen + vs.len v) count xs ys (omega (arith, size))))
      ]
