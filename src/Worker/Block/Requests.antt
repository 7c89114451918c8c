-- ===== src/Worker/Block/Requests.antt =====
-- The requests of the block device: `process_request` and the body of `process_queue` in
-- src/devices/virtio/block/worker.rs.
use whypa.Base.{
  ℕ, ◌+◌, ◌*◌, ◌%◌, true, not, ◌==◌, ltb, if◌then◌else◌, List, [], ◌∷◌, length, bit_and, u64, sub64,
  Host, Result, ok, err, Outcome, done, and_then,
}
use whypa.Memory.{MemoryManager}
use whypa.Queue.Descriptor.{DescriptorChain, readable, writable}
use whypa.Buffers.Slice.{VolatileSlice}
use whypa.Buffers.Consumer.{DescriptorChainConsumer, IoError, available_bytes, consumer_of, consume}
use whypa.Buffers.Exact.{write_all}
use whypa.Buffers.Exact.Read.{read_exact}
use whypa.Worker.Block.{
  DiskImage, Bindings, RequestError, discarding, discarding_to_zero, flushing_to_disk,
  reading_from_descriptor, writing_to_descriptor, writing_zeroes, invalid_data_length,
  unknown_request, CacheType, unsafe, writeback, RequestHeader, DiscardWriteData,
  parse_request_header, parse_discard_write_data, DiskProperties, Request, map_err, then_zero,
  read_vectored_at_volatile, write_vectored_at_volatile,
}
use whypa.Worker.{Answer, skipped, used, Worker}

module _ {V K : Type 0} (vs : VolatileSlice V) (image : DiskImage K) where
  -- `writer.write_from_at` and `reader.read_to_at`.
  unfoldable pub write_from_at : ℕ → ℕ → Request V K → Outcome (Result ℕ IoError × Request V K)
  write_from_at count offset r =
      and_then
        (consume vs r.writer count (read_vectored_at_volatile vs image offset) (r.disk, r.host))
        (λ x. done (x.0, record r { writer = x.1; disk = x.2.0; host = x.2.1 }))

  unfoldable pub read_to_at : ℕ → ℕ → Request V K → Outcome (Result ℕ IoError × Request V K)
  read_to_at count offset r =
      and_then
        (consume vs r.reader count (write_vectored_at_volatile vs image offset) (r.disk, r.host))
        (λ x. done (x.0, record r { reader = x.1; disk = x.2.0; host = x.2.1 }))

  unfoldable pub request_in : ℕ → Request V K → Outcome (Result ℕ RequestError × Request V K)
  request_in sector r =
      let data_len = sub64 (available_bytes vs r.writer) 1 in
      if data_len % 512 == 0
      then and_then (write_from_at data_len (u64 (sector * 512)) r)
          (λ x. done (map_err writing_to_descriptor x.0, x.1))
      else done (err invalid_data_length, r)

  unfoldable pub request_out : ℕ → Request V K → Outcome (Result ℕ RequestError × Request V K)
  request_out sector r =
      let data_len = available_bytes vs r.reader in
      if data_len % 512 == 0
      then and_then (read_to_at data_len (u64 (sector * 512)) r)
          (λ x. done (map_err reading_from_descriptor x.0, x.1))
      else done (err invalid_data_length, r)

  abbrev pub with_file : DiskProperties K → K → DiskProperties K
  with_file disk k = record disk { file = k }

  unfoldable pub flush_disk :
      CacheType → DiskProperties K → Result ℕ RequestError × DiskProperties K
  flush_disk unsafe disk = (ok 0, disk)
  flush_disk writeback disk =
      let flushed = image.flush disk.file in
      elim flushed.0 [
        | err e ↦ (err (flushing_to_disk e), with_file disk flushed.1)
        | ok _ ↦
            let synced = image.sync flushed.1 in
            (then_zero flushing_to_disk synced.0, with_file disk synced.1)
      ]

  unfoldable pub request_flush : Request V K → Result ℕ RequestError × Request V K
  request_flush r =
      let flushed = flush_disk r.disk.cache_type r.disk in
      (flushed.0, record r { disk = flushed.1 })

  unfoldable pub request_get_id : Request V K → Outcome (Result ℕ RequestError × Request V K)
  request_get_id r =
      let size = length r.disk.image_id in
      if ltb (available_bytes vs r.writer) size
      then done (err invalid_data_length, r)
      else and_then (write_all vs r.disk.image_id 2 r.writer r.host) (λ x. done (
        elim x.0 [ ok _ ↦ ok size | err e ↦ err (writing_to_descriptor e) ],
        record r { writer = x.1; host = x.2 },
      ))

  -- The data of a request that discards or writes zeroes.
  unfoldable pub read_discard :
      (DiscardWriteData → DiskProperties K → Result ℕ RequestError × DiskProperties K)
      → Request V K
      → Outcome (Result ℕ RequestError × Request V K)
  read_discard act r = and_then (read_exact vs 16 2 r.reader r.host) (λ x. elim x.0 [
    | err e ↦ done (err (reading_from_descriptor e), record r { reader = x.1 })
    | ok bytes ↦
        let acted = act (parse_discard_write_data bytes) r.disk in
        done (acted.0, record r { reader = x.1; disk = acted.1 })
  ])

  unfoldable pub discard :
      DiscardWriteData → DiskProperties K → Result ℕ RequestError × DiskProperties K
  discard d disk =
      let r = image.discard_to_any disk.file (u64 (d.sector * 512)) (d.num_sectors * 512) in
      (then_zero discarding r.0, with_file disk r.1)

  unfoldable pub zero_out :
      Bindings → DiscardWriteData → DiskProperties K → Result ℕ RequestError × DiskProperties K
  zero_out b d disk =
      let unmapped = image.discard_to_zero disk.file (u64 (d.sector * 512)) (d.num_sectors * 512) in
      let zeroed = image.write_zeroes disk.file (u64 (d.sector * 512)) (d.num_sectors * 512) in
      if not (bit_and d.flags b.flag_unmap == 0)
      then (then_zero discarding_to_zero unmapped.0, with_file disk unmapped.1)
      else (then_zero writing_zeroes zeroed.0, with_file disk zeroed.1)

  unfoldable pub process_request :
      Bindings → RequestHeader → Request V K → Outcome (Result ℕ RequestError × Request V K)
  process_request b h r =
      if h.request_type == b.t_in
      then request_in h.sector r
      else if h.request_type == b.t_out
      then request_out h.sector r
      else if h.request_type == b.t_flush
      then done (request_flush r)
      else if h.request_type == b.t_get_id
      then request_get_id r
      else if h.request_type == b.t_discard
      then read_discard discard r
      else if h.request_type == b.t_write_zeroes
      then read_discard (zero_out b) r
      else done (err unknown_request, r)

  -- The status byte, whose loss is logged only, and the length that is reported.
  unfoldable pub complete :
      Bindings → Result ℕ RequestError × Request V K → Outcome (Answer × DiskProperties K × Host)
  complete b (result, r) =
      let status : ℕ = elim result [ ok _ ↦ b.s_ok | err _ ↦ b.s_ioerr ] in
      let len : ℕ = elim result [ ok l ↦ l | err _ ↦ 0 ] in
      and_then (write_all vs (status ∷ []) 2 r.writer r.host)
        (λ x. done (used (u64 (len + 1)), r.disk, x.2))

  unfoldable pub with_header :
      Bindings
      → DescriptorChainConsumer V
      → DiskProperties K
      → Host
      → Result (List ℕ) IoError × DescriptorChainConsumer V
      → Outcome (Answer × DiskProperties K × Host)
  with_header b writer disk host (err _, reader) = done (skipped, disk, host)
  with_header b writer disk host (ok bytes, reader) =
      and_then
        (process_request b (parse_request_header bytes)
          (record { reader = reader; writer = writer; disk = disk; host = host }))
        (complete b)

  unfoldable pub handle :
      Bindings
      → MemoryManager
      → List DescriptorChain
      → DiskProperties K
      → Host
      → Outcome (Answer × DiskProperties K × Host)
  handle b mem descs disk host = elim (consumer_of vs mem (readable descs)) [
    | err _ ↦ done (skipped, disk, host)
    | ok reader ↦ elim (consumer_of vs mem (writable descs)) [
      | err _ ↦ done (skipped, disk, host)
      | ok writer ↦ and_then (read_exact vs 16 2 reader host) (with_header b writer disk host)
    ]
  ]

  abbrev pub block_worker : Bindings → MemoryManager → Worker (DiskProperties K)
  block_worker b mem = record { more = λ d. (true, d); handle = handle b mem; starved = λ d. d }
