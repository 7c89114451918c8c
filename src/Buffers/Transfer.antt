-- ===== src/Buffers/Transfer.antt =====
-- Transfers between a consumer and a file in src/devices/virtio/descriptor_utils.rs. A file is what its
-- vectored calls do to the slices and to a state, the file and the memory. A loop that is out of
-- fuel is a panic.
use whypa.Base.{
  ℕ, zero, suc, ◌+◌, ◌-◌, ◌≤◌, ◌<◌, ◌≡◌, refl, ap, ◌∙◌, if◌then◌else◌, ltb, leb, true, false, List,
  [], ◌∷◌, sub64, Result, ok, err, Outcome, done, panic, and_then, arith,
}
use whypa.Buffers.Slice.{VolatileSlice}
use whypa.Buffers.Consumer.{
  DescriptorChainConsumer, IoError, unexpected_eof, write_zero, pick, consume_bufs, consume,
}
use whypa.Buffers.Exact.{is_interrupted}

-- The rest of a round, after the transfer of up to `count` bytes; `ending` is the error of a
-- transfer of none.
unfoldable pub after_transfer :
    {C S : Type 0}
    → (ℕ → C → S → Outcome (Result (Unit {0}) IoError × C × S))
    → IoError
    → ℕ
    → Result ℕ IoError × C × S
    → Outcome (Result (Unit {0}) IoError × C × S)
after_transfer next ending count (ok zero, c, s) = done (err ending, c, s)
after_transfer next ending count (ok (suc n), c, s) = next (sub64 count (suc n)) c s
after_transfer next ending count (err e, c, s) =
    if is_interrupted e then next count c s else done (err e, c, s)

module _ {V S : Type 0} (vs : VolatileSlice V) (f : List V → S → Result ℕ IoError × S) where
  unfoldable pub read_to :
      DescriptorChainConsumer V → ℕ → S → Outcome (Result ℕ IoError × DescriptorChainConsumer V × S)
  read_to c count s = consume vs c count f s

  unfoldable pub write_from :
      DescriptorChainConsumer V → ℕ → S → Outcome (Result ℕ IoError × DescriptorChainConsumer V × S)
  write_from c count s = consume vs c count f s

  unfoldable pub read_exact_to :
      ℕ
      → ℕ
      → DescriptorChainConsumer V
      → S
      → Outcome (Result (Unit {0}) IoError × DescriptorChainConsumer V × S)
  read_exact_to zero fuel c s = done (ok tt, c, s)
  read_exact_to (suc count) zero c s = panic
  read_exact_to (suc count) (suc fuel) c s =
      and_then (read_to c (suc count) s)
        (after_transfer (λ k c' s'. read_exact_to k fuel c' s') unexpected_eof (suc count))

  unfoldable pub write_all_from :
      ℕ
      → ℕ
      → DescriptorChainConsumer V
      → S
      → Outcome (Result (Unit {0}) IoError × DescriptorChainConsumer V × S)
  write_all_from zero fuel c s = done (ok tt, c, s)
  write_all_from (suc count) zero c s = panic
  write_all_from (suc count) (suc fuel) c s =
      and_then (write_from c (suc count) s)
        (after_transfer (λ k c' s'. write_all_from k fuel c' s') write_zero (suc count))

module _ {V : Type 0} (vs : VolatileSlice V) where
  pick-enough : (buflen count : ℕ) (bufs : List V) → count ≤ buflen → pick vs buflen count bufs ≡ []
  unfolding pick
  pick-enough buflen count [] h = refl
  pick-enough buflen count (v ∷ rest) h =
      let e : leb count buflen ≡ true = ground arith in rw e refl

  pub pick-whole :
      (v : V) (rest : List V) (count : ℕ)
      → 0 < count
      → count ≤ vs.len v
      → pick vs 0 count (v ∷ rest) ≡ v ∷ []
  unfolding pick
  pick-whole v rest count pos long =
      let e : leb count 0 ≡ false = ground arith in
      rw e (
        ap (λ r. v ∷ r)
          (pick-enough (if ltb (count - 0) (vs.len v) then 0 + (count - 0) else 0 + vs.len v) count
            rest (ground arith)))

  -- The first slice is handed over whole, also where it is longer than `count`.
  pub consume_whole_slice :
      {S : Type 0} (c : DescriptorChainConsumer V) (v : V) (rest : List V) (count : ℕ)
      (f : List V → S → Result ℕ IoError × S) (s : S)
      → c.buffers ≡ v ∷ rest
      → 0 < count
      → count ≤ vs.len v
      → consume vs c count f s ≡ consume_bufs vs c (v ∷ []) f s
  unfolding consume
  consume_whole_slice c v rest count f s h pos long =
      ap (λ bs. consume_bufs vs c bs f s)
        (ap (pick vs 0 count) h ∙ pick-whole v rest count pos long)
