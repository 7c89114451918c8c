-- ===== src/Worker/Console/Bytes.antt =====
-- What a chain of the console moves between the guest's buffers and the host.
use whypa.Base.{
  ◌<◌, ◌≡◌, refl, ap, ◌∙◌, false, ◌==◌, if◌then◌else◌, List, ◌++◌, length, take, take_all,
  length-take, drop, min, map, Host, ok, done, and_then, arith,
}
use whypa.Memory.{MemoryManager}
use whypa.Queue.Descriptor.{DescriptorChain, readable, writable}
use whypa.Buffers.Slice.{VolatileSlice, IsVolatileSlice}
use whypa.Buffers.Consumer.{DescriptorChainConsumer, available_bytes, consumer_of, read}
use whypa.Buffers.Flat.{addresses, put_all}
use whypa.Buffers.Consume.{left, read_lem}
use whypa.Buffers.Available.{available_bytes-left}
use whypa.Buffers.Build.{consumer_of-AreMapped}
use whypa.Buffers.Exact.{write_all, write_all_fits}
use whypa.Worker.{used}
use whypa.Worker.Console.{Console, filter_dsr_and_respond, sent, handle_tx, received, handle_rx}

module _ {V : Type 0} (vs : VolatileSlice V) (law : IsVolatileSlice vs) (mem : MemoryManager) where
  -- The bytes of a chain that the guest sends, if a reader can be made for them and there are any,
  -- are put behind the output in order and without the cursor queries, and the chain is given back
  -- with no byte written.
  pub handle_tx_lem :
      (descs : List DescriptorChain) (con : Console) (host : Host) (c : DescriptorChainConsumer V)
      → consumer_of vs mem (readable descs) ≡ ok c
      → 0 < left vs law c
      → handle_tx vs mem descs con host ≡ (
          let filtered = filter_dsr_and_respond (map host (addresses vs c.buffers)) con in
          let con' = filtered.1 in
          done (used 0, record con' { stdout = con'.stdout ++ filtered.0 }, host))
  unfolding handle_tx sent
  handle_tx_lem descs con host c built pos =
      let bound = consumer_of-AreMapped vs law mem (readable descs) c built in
      let n = left vs law c in
      let avail : available_bytes vs c ≡ n =
        available_bytes-left vs law c (omega (arith, bound.2)) in
      let some_left : (n == 0) ≡ false = ground arith in
      let r = read_lem vs law c host n bound.2 in
      let all : take n (addresses vs c.buffers) ≡ addresses vs c.buffers =
        take_all n (addresses vs c.buffers) (omega arith) in
      rw (handle_tx, built)
        (ap
            (λ len.
              if len == 0
              then done (used 0, con, host)
              else and_then (read vs c host len) (λ x. done (sent vs mem con host x)))
            avail
          ∙ rw (some_left, r.1, all) refl)

  -- A chain that the guest has given for input, and for which a writer can be made, takes as many bytes of the input as it has room for,
  -- in order; that number is reported, and just these bytes leave the input.
  pub handle_rx_lem :
      (descs : List DescriptorChain) (con : Console) (host : Host) (c : DescriptorChainConsumer V)
      → consumer_of vs mem (writable descs) ≡ ok c
      → handle_rx vs mem descs con host ≡ (
          let n = min (length con.input) (left vs law c) in
          done (
            used n,
            record con { input = drop n con.input },
            put_all (addresses vs c.buffers) (take n con.input) host,
          ))
  unfolding handle_rx received
  handle_rx_lem descs con host c built =
      let bound = consumer_of-AreMapped vs law mem (writable descs) c built in
      let avail : available_bytes vs c ≡ left vs law c =
        available_bytes-left vs law c (omega (arith, bound.2)) in
      let n = min (length con.input) (left vs law c) in
      let all =
        write_all_fits vs law 1 c (take n con.input) host bound.2
          (omega (arith, length-take n con.input)) in
      rw (handle_rx, built)
        (ap
            (λ len.
              and_then (write_all vs (take (min (length con.input) len) con.input) 2 c host)
                (λ r. done (received vs mem (min (length con.input) len) con r)))
            avail
          ∙ rw all.1 refl)
