-- ===== src/Worker/Net/Delivery.antt =====
-- What a received frame leaves in the guest's buffers, and the order of the frames:
-- `process_rx_virtio_queue` of src/devices/virtio/net/worker.rs.
use whypa.Base.{
  ℕ, ◌+◌, ◌-◌, ◌≤◌, ◌≡◌, ap, ◌∙◌, false, ltb, List, ◌∷◌, ◌++◌, length, length-drop, Host, ok, done,
  arith,
}
use whypa.Memory.{MemoryManager}
use whypa.Queue.Descriptor.{DescriptorChain, writable}
use whypa.Buffers.Slice.{VolatileSlice, IsVolatileSlice}
use whypa.Buffers.Consumer.{DescriptorChainConsumer, available_bytes, consumer_of}
use whypa.Buffers.Flat.{addresses, put_all, put_all-bytes}
use whypa.Buffers.Consume.{left, Consumed}
use whypa.Buffers.Available.{available_bytes-left}
use whypa.Buffers.Build.{consumer_of-AreMapped}
use whypa.Buffers.Exact.{write_all_fits}
use whypa.Worker.{used}
use whypa.Worker.Net.{
  Pipe, Net, default_rx_header, handle_net_rx, deliver, wrote_header, wrote_frame,
}

module _ {P V : Type 0} (pipe : Pipe P) (vs : VolatileSlice V) (law : IsVolatileSlice vs)
    (mem : MemoryManager) where
  -- A chain for which a writer can be made, and that has room for it, takes the frame in front: the
  -- header and then the frame are at the
  -- chain's first addresses, their length is reported, and the frame leaves the list.
  pub handle_net_rx_lem :
      (descs : List DescriptorChain) (net : Net P) (host : Host) (c : DescriptorChainConsumer V)
      (frame : List ℕ) (packets : List (List ℕ))
      → net.packets ≡ frame ∷ packets
      → consumer_of vs mem (writable descs) ≡ ok c
      → 12 + length frame ≤ left vs law c
      → handle_net_rx pipe vs mem descs net host
        ≡ done (
          used (12 + length frame),
          record net { packets = packets },
          put_all (addresses vs c.buffers) (default_rx_header ++ frame) host,
        )
  unfolding handle_net_rx deliver wrote_header wrote_frame Consumed
  handle_net_rx_lem descs net host c frame packets front built room =
      let bound = consumer_of-AreMapped vs law mem (writable descs) c built in
      let avail : available_bytes vs c ≡ left vs law c =
        available_bytes-left vs law c (omega (arith, bound.2)) in
      let fits : ltb (available_bytes vs c) (12 + length frame) ≡ false = ground (arith, avail) in
      let hdr = write_all_fits vs law 1 c default_rx_header host bound.2 (omega arith) in
      let rest : left vs law hdr.0 ≡ left vs law c - 12 =
        omega (arith, ap length hdr.2.0, length-drop 12 (addresses vs c.buffers)) in
      let body =
        write_all_fits vs law 1 hdr.0 frame
          (put_all (addresses vs c.buffers) default_rx_header host)
          (omega (arith, hdr.2.1, rest, bound.2)) (omega (arith, rest)) in
      let stored : put_all (addresses vs hdr.0.buffers) frame
            (put_all (addresses vs c.buffers) default_rx_header host)
          ≡ put_all (addresses vs c.buffers) (default_rx_header ++ frame) host =
        ap (λ as'. put_all as' frame (put_all (addresses vs c.buffers) default_rx_header host))
          hdr.2.0
        ∙ put_all-bytes (addresses vs c.buffers) default_rx_header frame host (omega arith) in
      rw (handle_net_rx, front, deliver, built, fits, hdr.1, body.1)
        (ap (λ m. done (used (12 + length frame), record net { packets = packets }, m)) stored)
