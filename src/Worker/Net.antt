-- ===== src/Worker/Net.antt =====
-- The chains of the network device: the bodies of `process_tx_queue` and `process_rx_virtio_queue` in
-- src/devices/virtio/net/worker.rs. The pipe to gvproxy is a parameter with a state of its own.
pub mod Framing
pub mod Delivery
pub mod Batches
mod Examples
use whypa.Base.{
  ℕ, ◌+◌, ◌%◌, ◌^◌, Bool, true, not, ◌==◌, ltb, if◌then◌else◌, List, [], ◌∷◌, ◌++◌, length, drop,
  replicate, to_le_bytes, Host, Result, ok, err, Outcome, done, and_then,
}
use whypa.Memory.{MemoryManager}
use whypa.Queue.Descriptor.{DescriptorChain, readable, writable}
use whypa.Buffers.Slice.{VolatileSlice}
use whypa.Buffers.Consumer.{DescriptorChainConsumer, IoError, available_bytes, consumer_of, read}
use whypa.Buffers.Exact.{write_all}
use whypa.Worker.{Answer, skipped, used, unsignalled, Worker}

abbrev pub net_hdr_size : ℕ
net_hdr_size = 12

abbrev pub max_frame_size : ℕ
max_frame_size = 1514

abbrev pub default_rx_header : List ℕ
default_rx_header = replicate 10 0 ++ (1 ∷ 0 ∷ [])

-- `ChildStdin`: both calls tell whether they succeeded.
pub record Pipe (P : Type 0) : Type 0 where
  pub write_all : P → List ℕ → Bool × P
  pub flush : P → Bool × P

-- `packets` are the frames that `process_rx_virtio_queue` has taken from `rx_pending`.
pub record Net (P : Type 0) : Type 0 where
  pub gvproxy_stdin : P
  pub rx_pending : List (List ℕ)
  pub packets : List (List ℕ)

module _ {P : Type 0} (pipe : Pipe P) where
  -- An error of one call keeps the later ones from being made.
  unfoldable pub send_frame : P → List ℕ → P
  send_frame p frame =
      let prefix = pipe.write_all p (to_le_bytes 2 (length frame % 2 ^ 16)) in
      let body = pipe.write_all prefix.1 frame in
      if prefix.0 then (if body.0 then (pipe.flush body.1).1 else body.1) else prefix.1

  module _ {V : Type 0} (vs : VolatileSlice V) (mem : MemoryManager) where
    unfoldable pub sent :
        Net P → Host → Result ℕ IoError × DescriptorChainConsumer V × List ℕ → Answer × Net P × Host
    sent net host (err _, c, bytes) = (used 0, net, host)
    sent net host (ok n, c, bytes) = (
      used 0,
      if ltb net_hdr_size n
          then record net { gvproxy_stdin = send_frame net.gvproxy_stdin (drop net_hdr_size bytes) }
          else net,
      host,
    )

    unfoldable pub handle_net_tx :
        List DescriptorChain → Net P → Host → Outcome (Answer × Net P × Host)
    handle_net_tx descs net host = elim (consumer_of vs mem (readable descs)) [
      | err _ ↦ done (skipped, net, host)
      | ok c ↦
          let avail = available_bytes vs c in
          if ltb net_hdr_size avail
          then and_then (read vs c host avail) (λ r. done (sent net host r))
          else done (used 0, net, host)
    ]

    abbrev pub tx_worker : Worker (Net P)
    tx_worker = record { more = λ net. (true, net); handle = handle_net_tx; starved = λ net. net }

    -- The frame after the header; what could be written of it counts in full or not at all.
    unfoldable pub wrote_frame :
        ℕ
        → Net P
        → Result (Unit {0}) IoError × DescriptorChainConsumer V × Host
        → Answer × Net P × Host
    wrote_frame size net (ok _, c, host) = (used (net_hdr_size + size), net, host)
    wrote_frame size net (err _, c, host) = (used net_hdr_size, net, host)

    unfoldable pub wrote_header :
        List ℕ
        → Net P
        → Result (Unit {0}) IoError × DescriptorChainConsumer V × Host
        → Outcome (Answer × Net P × Host)
    wrote_header frame net (err _, c, host) = done (unsignalled 0, net, host)
    wrote_header frame net (ok _, c, host) =
        and_then (write_all vs frame 2 c host) (λ r. done (wrote_frame (length frame) net r))

    unfoldable pub deliver :
        List ℕ → Net P → List DescriptorChain → Host → Outcome (Answer × Net P × Host)
    deliver frame net descs host = elim (consumer_of vs mem (writable descs)) [
      | err _ ↦ done (skipped, net, host)
      | ok c ↦
          (if ltb (available_bytes vs c) (net_hdr_size + length frame)
            then done (unsignalled 0, net, host)
            else and_then (write_all vs default_rx_header 2 c host) (wrote_header frame net))
    ]

    -- The frame in front leaves the list with the chain that it is put into.
    unfoldable pub handle_net_rx :
        List DescriptorChain → Net P → Host → Outcome (Answer × Net P × Host)
    handle_net_rx descs net host = elim net.packets [
      | [] ↦ done (skipped, net, host)
      | frame ∷ packets ↦ deliver frame (record net { packets = packets }) descs host
    ]

    -- Oversized frames are dropped before a chain is taken.
    unfoldable pub drop_oversized : List (List ℕ) → List (List ℕ)
    drop_oversized [] = []
    drop_oversized (frame ∷ packets) =
        let rest = drop_oversized packets in
        if ltb max_frame_size (length frame) then rest else frame ∷ packets

    abbrev pub next_packet : Net P → Bool × Net P
    next_packet net =
        let packets = drop_oversized net.packets in
        (not (length packets == 0), record net { packets = packets })

    -- Without a chain the frames go back behind those that have come in meanwhile.
    abbrev pub requeue : Net P → Net P
    requeue net = record net { rx_pending = net.rx_pending ++ net.packets; packets = [] }

    abbrev pub rx_worker : Worker (Net P)
    rx_worker = record { more = next_packet; handle = handle_net_rx; starved = requeue }

-- What `process_rx_virtio_queue` begins with.
unfoldable pub take_pending : {P : Type 0} → Net P → Net P
take_pending net = record net { rx_pending = []; packets = net.rx_pending }
