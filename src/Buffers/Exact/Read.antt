-- ===== src/Buffers/Exact/Read.antt =====
-- Reading of all bytes in src/devices/virtio/descriptor_utils.rs: `read_obj`, by the loop of
-- `Read::read_exact`. A loop that is out of fuel is a panic.
use whypa.Base.{
  ℕ, zero, suc, ◌+◌, ◌-◌, ◌^◌, ◌≤◌, ◌<◌, ◌≡◌, refl, ap, ◌∙◌, subst, if◌then◌else◌, List, [], ◌++◌,
  append-nil, length, take, drop, length-drop, map, min, Host, Result, ok, err, Outcome, done,
  panic, and_then, arith, dec_lt,
}
use whypa.Buffers.Slice.{VolatileSlice, IsVolatileSlice}
use whypa.Buffers.Consumer.{DescriptorChainConsumer, IoError, unexpected_eof, read}
use whypa.Buffers.Flat.{addresses}
use whypa.Buffers.Consume.{left, Consumed, read_lem}
use whypa.Buffers.Exact.{is_interrupted}

unfoldable pub prepend :
    {C : Type 0} → List ℕ → Result (List ℕ) IoError × C → Result (List ℕ) IoError × C
prepend bytes (ok rest, c) = (ok (bytes ++ rest), c)
prepend bytes (err e, c) = (err e, c)

-- The rest of a round of `read_exact`, after `read`; `rem` is the length of the buffer.
unfoldable pub after_read :
    {C : Type 0}
    → (ℕ → C → Outcome (Result (List ℕ) IoError × C))
    → ℕ
    → Result ℕ IoError × C × List ℕ
    → Outcome (Result (List ℕ) IoError × C)
after_read next rem (ok zero, c, bytes) = done (err unexpected_eof, c)
after_read next rem (ok (suc n), c, bytes) =
    and_then (next (rem - suc n) c) (λ r. done (prepend bytes r))
after_read next rem (err e, c, bytes) = if is_interrupted e then next rem c else done (err e, c)

module _ {V : Type 0} (vs : VolatileSlice V) where
  unfoldable pub read_exact :
      ℕ
      → ℕ
      → DescriptorChainConsumer V
      → Host
      → Outcome (Result (List ℕ) IoError × DescriptorChainConsumer V)
  read_exact zero fuel c host = done (ok [], c)
  read_exact (suc rem) zero c host = panic
  read_exact (suc rem) (suc fuel) c host =
      and_then (read vs c host (suc rem))
        (after_read (λ rem' c'. read_exact rem' fuel c' host) (suc rem))

module _ {V : Type 0} (vs : VolatileSlice V) (law : IsVolatileSlice vs) where
  next :
      ℕ
      → Host
      → ℕ
      → DescriptorChainConsumer V
      → Outcome (Result (List ℕ) IoError × DescriptorChainConsumer V)
  next fuel host rem c = read_exact vs rem fuel c host

  -- One round, when the read does not panic.
  round :
      (fuel rem : ℕ) (c : DescriptorChainConsumer V) (host : Host)
      {r : Result ℕ IoError × DescriptorChainConsumer V × List ℕ}
      → read vs c host (suc rem) ≡ done r
      → read_exact vs (suc rem) (suc fuel) c host ≡ after_read (next fuel host) (suc rem) r
  unfolding read_exact next
  round fuel rem c host e = rw e refl

  pub read_exact_fits :
      (fuel rem : ℕ) (c : DescriptorChainConsumer V) (host : Host)
      → c.bytes_consumed + left vs law c < 2 ^ 64
      → rem ≤ left vs law c
      → (c' : DescriptorChainConsumer V) × (read_exact vs rem (suc fuel) c host
          ≡ done (ok (map host (take rem (addresses vs c.buffers))), c'))
        × Consumed vs law c rem c'
  unfolding read_exact Consumed
  read_exact_fits fuel zero c host h fits = (c, refl, (refl, omega arith))
  read_exact_fits fuel (suc rem) c host h fits =
      let r = read_lem vs law c host (suc rem) h in
      let bytes = map host (take (suc rem) (addresses vs c.buffers)) in
      let n : min (suc rem) (left vs law c) ≡ suc rem = omega arith in
      let none_left : suc rem - suc rem ≡ 0 = omega arith in
      (
        r.0,
        round fuel rem c host r.1
            ∙ ap (λ k. after_read (next fuel host) (suc rem) (ok k, r.0, bytes)) n
            ∙ unfold after_read next prepend in
              (ap (λ k. and_then (read_exact vs k fuel r.0 host) (λ x. done (prepend bytes x)))
                  none_left
                ∙ ap (λ bs. done (ok bs, r.0)) (append-nil bytes)),
        subst (λ k. Consumed vs law c k r.0) n r.2,
      )

  -- With nothing left, a byte to read is an error.
  read_exact-empty :
      (fuel rem : ℕ) (c : DescriptorChainConsumer V) (host : Host)
      → 0 < rem
      → c.bytes_consumed < 2 ^ 64
      → left vs law c ≡ 0
      → (c' : DescriptorChainConsumer V) × (read_exact vs rem (suc fuel) c host
          ≡ done (err unexpected_eof, c'))
        × Consumed vs law c 0 c'
  read_exact-empty fuel zero c host pos h empty = absurd (omega arith)
  read_exact-empty fuel (suc rem) c host pos h empty =
      let r = read_lem vs law c host (suc rem) (omega arith) in
      let bytes = map host (take (suc rem) (addresses vs c.buffers)) in
      let n : min (suc rem) (left vs law c) ≡ 0 = omega (arith, empty) in
      (
        r.0,
        round fuel rem c host r.1
            ∙ ap (λ k. after_read (next fuel host) (suc rem) (ok k, r.0, bytes)) n
            ∙ unfold after_read in refl,
        subst (λ k. Consumed vs law c k r.0) n r.2,
      )

  pub read_exact_past :
      (fuel rem : ℕ) (c : DescriptorChainConsumer V) (host : Host)
      → c.bytes_consumed + left vs law c < 2 ^ 64
      → left vs law c < rem
      → (c' : DescriptorChainConsumer V) × (read_exact vs rem (suc (suc fuel)) c host
          ≡ done (err unexpected_eof, c'))
        × Consumed vs law c (left vs law c) c'
  unfolding Consumed
  read_exact_past fuel zero c host h past = absurd (omega arith)
  read_exact_past fuel (suc rem) c host h past = elim (dec_lt 0 (left vs law c)) [
    | yes pos ↦
        let k = left vs law c - 1 in
        let r = read_lem vs law c host (suc rem) h in
        let bytes = map host (take (suc rem) (addresses vs c.buffers)) in
        let n : min (suc rem) (left vs law c) ≡ suc k = omega arith in
        let spent : left vs law r.0 ≡ 0 = omega (
          arith,
          ap length r.2.0,
          length-drop (min (suc rem) (left vs law c)) (addresses vs c.buffers),
        ) in
        let f =
          read_exact-empty fuel (suc rem - suc k) r.0 host (omega arith) (omega (arith, r.2.1))
            spent in
        (
          f.0,
          round (suc fuel) rem c host r.1
              ∙ ap (λ j. after_read (next (suc fuel) host) (suc rem) (ok j, r.0, bytes)) n
              ∙ unfold after_read next prepend in
                (ap (λ o. and_then o (λ x. done (prepend bytes x))) f.1),
          (
            f.2.0 ∙ r.2.0 ∙ ap (λ j. drop j (addresses vs c.buffers)) (omega arith),
            omega (arith, r.2.1, f.2.1),
          ),
        )
    | no none_left ↦
        let f =
          read_exact-empty (suc fuel) (suc rem) c host (omega arith) (omega arith) (omega arith) in
        (f.0, f.1, subst (λ j. Consumed vs law c j f.0) (omega arith) f.2)
  ]
