-- ===== src/Buffers/Exact.antt =====
-- Reading and writing of all bytes in src/devices/virtio/descriptor_utils.rs: `read_obj` and
-- `write_obj`, by the loops of `Read::read_exact` and `Write::write_all`, and the loops over a file.
-- A loop that is out of fuel is a panic; the theorems say how much fuel is enough.
pub mod Read
use whypa.Base.{
  ℕ, zero, suc, ◌+◌, ◌-◌, ◌^◌, ◌≤◌, ◌<◌, ◌≡◌, refl, sym, ap, ◌∙◌, subst, if◌then◌else◌, Bool, true,
  false, List, [], ◌∷◌, ◌++◌, length, take, drop, take_all, drop_all, length-take, length-drop, map,
  min, Host, Result, ok, err, Outcome, done, panic, and_then, arith, sub64, dec_lt,
}
use whypa.Buffers.Slice.{VolatileSlice, IsVolatileSlice}
use whypa.Buffers.Consumer.{
  DescriptorChainConsumer, IoError, invalid_data, unexpected_eof, write_zero, interrupted, other,
  consume, read, write,
}
use whypa.Buffers.Flat.{put_all, put_all-none, put_all-nil, addresses}
use whypa.Buffers.Consume.{left, Consumed, read_lem, write_lem}

unfoldable pub is_interrupted : IoError → Bool
is_interrupted interrupted = true
is_interrupted invalid_data = false
is_interrupted unexpected_eof = false
is_interrupted write_zero = false
is_interrupted other = false

-- The rest of a round of `write_all`, after `write`.
unfoldable pub after_write :
    {C S : Type 0}
    → (List ℕ → C → S → Outcome (Result (Unit {0}) IoError × C × S))
    → List ℕ
    → Result ℕ IoError × C × S
    → Outcome (Result (Unit {0}) IoError × C × S)
after_write next buf (ok zero, c, s) = done (err write_zero, c, s)
after_write next buf (ok (suc n), c, s) = next (drop (suc n) buf) c s
after_write next buf (err e, c, s) = if is_interrupted e then next buf c s else done (err e, c, s)

module _ {V : Type 0} (vs : VolatileSlice V) where
  unfoldable pub write_all :
      List ℕ
      → ℕ
      → DescriptorChainConsumer V
      → Host
      → Outcome (Result (Unit {0}) IoError × DescriptorChainConsumer V × Host)
  write_all [] fuel c host = done (ok tt, c, host)
  write_all (b ∷ bs) zero c host = panic
  write_all (b ∷ bs) (suc fuel) c host =
      and_then (write vs c (b ∷ bs) host)
        (after_write (λ buf c' host'. write_all buf fuel c' host') (b ∷ bs))

module _ {V : Type 0} (vs : VolatileSlice V) (law : IsVolatileSlice vs) where
  next :
      ℕ
      → List ℕ
      → DescriptorChainConsumer V
      → Host
      → Outcome (Result (Unit {0}) IoError × DescriptorChainConsumer V × Host)
  next fuel buf c host = write_all vs buf fuel c host

  write_all-nil :
      (fuel : ℕ) (c : DescriptorChainConsumer V) (host : Host)
      → write_all vs [] fuel c host ≡ done (ok tt, c, host)
  unfolding write_all
  write_all-nil fuel c host = refl

  -- One round, when the write does not panic.
  round :
      (fuel : ℕ) (c : DescriptorChainConsumer V) (b : ℕ) (bs : List ℕ) (host : Host)
      {r : Result ℕ IoError × DescriptorChainConsumer V × Host}
      → write vs c (b ∷ bs) host ≡ done r
      → write_all vs (b ∷ bs) (suc fuel) c host ≡ after_write (next fuel) (b ∷ bs) r
  unfolding write_all next
  round fuel c b bs host e = rw e refl

  -- With nothing left, a byte to write is an error that changes nothing.
  write_all-full :
      (fuel : ℕ) (c : DescriptorChainConsumer V) (buf : List ℕ) (host : Host)
      → 0 < length buf
      → c.bytes_consumed < 2 ^ 64
      → left vs law c ≡ 0
      → (c' : DescriptorChainConsumer V) × (write_all vs buf (suc fuel) c host
          ≡ done (err write_zero, c', host))
        × Consumed vs law c 0 c'
  unfolding after_write
  write_all-full fuel c [] host pos h full = absurd (omega arith)
  write_all-full fuel c (b ∷ bs) host pos h full =
      let w = write_lem vs law c (b ∷ bs) host (omega arith) in
      let n : min (suc (length bs)) (left vs law c) ≡ 0 = omega (arith, full) in
      let stays : put_all (addresses vs c.buffers) (b ∷ bs) host ≡ host =
        put_all-none (addresses vs c.buffers) (b ∷ bs) host full in
      (
        w.0,
        round fuel c b bs host w.1
            ∙ ap
                (λ k.
                  after_write (next fuel) (b ∷ bs)
                    (ok k, w.0, put_all (addresses vs c.buffers) (b ∷ bs) host))
                n
            ∙ ap (λ m. done (err write_zero, w.0, m)) stays,
        subst (λ k. Consumed vs law c k w.0) n w.2,
      )

  -- Bytes that there is room for are all written in one round, at the first addresses of the slices,
  -- which are taken off the consumer; the bytes consumed and left are less than 2 ^ 64.
  pub write_all_fits :
      (fuel : ℕ) (c : DescriptorChainConsumer V) (buf : List ℕ) (host : Host)
      → c.bytes_consumed + left vs law c < 2 ^ 64
      → length buf ≤ left vs law c
      → (c' : DescriptorChainConsumer V) × (write_all vs buf (suc fuel) c host
          ≡ done (ok tt, c', put_all (addresses vs c.buffers) buf host))
        × Consumed vs law c (length buf) c'
  unfolding next after_write Consumed
  write_all_fits fuel c [] host h fits = (
    c,
    write_all-nil (suc fuel) c host
        ∙ ap (λ m. done (ok tt, c, m)) (sym (put_all-nil (addresses vs c.buffers) host)),
    (refl, omega arith),
  )
  write_all_fits fuel c (b ∷ bs) host h fits =
      let w = write_lem vs law c (b ∷ bs) host h in
      let n : min (suc (length bs)) (left vs law c) ≡ suc (length bs) = omega arith in
      (
        w.0,
        round fuel c b bs host w.1
            ∙ ap
                (λ k.
                  after_write (next fuel) (b ∷ bs)
                    (ok k, w.0, put_all (addresses vs c.buffers) (b ∷ bs) host))
                n
            ∙ ap (λ r. write_all vs r fuel w.0 (put_all (addresses vs c.buffers) (b ∷ bs) host))
                (drop_all (length bs) bs (omega arith))
            ∙ write_all-nil fuel w.0 (put_all (addresses vs c.buffers) (b ∷ bs) host),
        subst (λ k. Consumed vs law c k w.0) n w.2,
      )

  -- Where there is less room than bytes, two rounds end with the error that nothing can be written:
  -- the room is filled with the first bytes, and nothing is left of it; the bytes consumed and left
  -- are less than 2 ^ 64.
  pub write_all_past :
      (fuel : ℕ) (c : DescriptorChainConsumer V) (buf : List ℕ) (host : Host)
      → c.bytes_consumed + left vs law c < 2 ^ 64
      → left vs law c < length buf
      → (c' : DescriptorChainConsumer V) × (write_all vs buf (suc (suc fuel)) c host
          ≡ done (err write_zero, c', put_all (addresses vs c.buffers) buf host))
        × Consumed vs law c (left vs law c) c'
  unfolding next after_write Consumed
  write_all_past fuel c [] host h past = absurd (omega arith)
  write_all_past fuel c (b ∷ bs) host h past =
      let stored = put_all (addresses vs c.buffers) (b ∷ bs) host in
      elim (dec_lt 0 (left vs law c)) [
        | yes pos ↦
            let k = left vs law c - 1 in
            let w = write_lem vs law c (b ∷ bs) host h in
            let n : min (suc (length bs)) (left vs law c) ≡ suc k = omega arith in
            let spent : left vs law w.0 ≡ 0 = omega (
              arith,
              ap length w.2.0,
              length-drop (min (suc (length bs)) (left vs law c)) (addresses vs c.buffers),
            ) in
            let f =
              write_all-full fuel w.0 (drop k bs) stored (omega (arith, length-drop k bs))
                (omega (arith, w.2.1)) spent in
            (
              f.0,
              round (suc fuel) c b bs host w.1
                  ∙ ap (λ j. after_write (next (suc fuel)) (b ∷ bs) (ok j, w.0, stored)) n
                  ∙ f.1,
              (
                f.2.0 ∙ w.2.0 ∙ ap (λ j. drop j (addresses vs c.buffers)) (omega arith),
                omega (arith, w.2.1, f.2.1),
              ),
            )
        | no none_left ↦
            let f =
              write_all-full (suc fuel) c (b ∷ bs) host (omega arith) (omega arith) (omega arith) in
            (
              f.0,
              f.1
                  ∙ ap (λ m. done (err write_zero, f.0, m))
                      (sym (put_all-none (addresses vs c.buffers) (b ∷ bs) host (omega arith))),
              subst (λ j. Consumed vs law c j f.0) (omega arith) f.2,
            )
      ]
