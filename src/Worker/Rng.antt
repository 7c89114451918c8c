-- ===== src/Worker/Rng.antt =====
-- The chains of the entropy device: the body of `process_queue` in src/devices/virtio/rng/worker.rs.
-- The host's generator is a parameter, with a state of its own; `none` is a failure.
use whypa.Base.{
  ℕ, ◌<◌, ◌≡◌, refl, ap, ◌∙◌, true, false, ◌==◌, if◌then◌else◌, Option, none, some, List, length,
  Host, Result, ok, err, Outcome, done, and_then, arith,
}
use whypa.Memory.{MemoryManager}
use whypa.Queue.Descriptor.{DescriptorChain, writable}
use whypa.Buffers.Slice.{VolatileSlice, IsVolatileSlice}
use whypa.Buffers.Consumer.{DescriptorChainConsumer, IoError, available_bytes, consumer_of}
use whypa.Buffers.Flat.{addresses, put_all}
use whypa.Buffers.Consume.{left}
use whypa.Buffers.Available.{available_bytes-left}
use whypa.Buffers.Build.{consumer_of-AreMapped}
use whypa.Buffers.Exact.{write_all, write_all_fits}
use whypa.Worker.{Answer, skipped, used, Worker}

module _ {V R : Type 0} (vs : VolatileSlice V) (random : R → ℕ → Option (List ℕ) × R)
    (mem : MemoryManager) where
  unfoldable pub written :
      ℕ → R → Result (Unit {0}) IoError × DescriptorChainConsumer V × Host → Answer × R × Host
  written len r (ok _, c, host) = (used len, r, host)
  written len r (err _, c, host) = (used 0, r, host)

  unfoldable pub fill :
      ℕ → DescriptorChainConsumer V → Host → Option (List ℕ) × R → Outcome (Answer × R × Host)
  fill len c host (none, r) = done (used 0, r, host)
  fill len c host (some buf, r) = and_then (write_all vs buf 2 c host) (λ x. done (written len r x))

  unfoldable pub handle_entropy : List DescriptorChain → R → Host → Outcome (Answer × R × Host)
  handle_entropy descs r host = elim (consumer_of vs mem (writable descs)) [
    | err _ ↦ done (skipped, r, host)
    | ok c ↦
        let len = available_bytes vs c in
        if len == 0 then done (used 0, r, host) else fill len c host (random r len)
  ]

  abbrev pub rng_worker : Worker R
  rng_worker = record { more = λ r. (true, r); handle = handle_entropy; starved = λ r. r }

module _ {V R : Type 0} (vs : VolatileSlice V) (law : IsVolatileSlice vs)
    (random : R → ℕ → Option (List ℕ) × R) (mem : MemoryManager) where
  -- The writable bytes of a chain, if a writer can be made for them and there are any, are filled
  -- with as many bytes of the generator, if it gives so many, and their number is reported.
  pub handle_entropy_lem :
      (descs : List DescriptorChain) (r r' : R) (host : Host) (c : DescriptorChainConsumer V)
      (bytes : List ℕ)
      → consumer_of vs mem (writable descs) ≡ ok c
      → 0 < left vs law c
      → random r (left vs law c) ≡ (some bytes, r')
      → length bytes ≡ left vs law c
      → handle_entropy vs random mem descs r host
        ≡ done (used (left vs law c), r', put_all (addresses vs c.buffers) bytes host)
  unfolding handle_entropy fill written
  handle_entropy_lem descs r r' host c bytes built pos given enough =
      let bound = consumer_of-AreMapped vs law mem (writable descs) c built in
      let avail : available_bytes vs c ≡ left vs law c =
        available_bytes-left vs law c (omega (arith, bound.2)) in
      let some_left : (left vs law c == 0) ≡ false = ground arith in
      let all = write_all_fits vs law 1 c bytes host bound.2 (omega (arith, enough)) in
      rw (handle_entropy, built)
        (ap
            (λ len.
              if len == 0
              then done (used 0, r, host)
              else fill vs random mem len c host (random r len))
            avail
          ∙ rw (some_left, given, fill, all.1) refl)
