-- ===== src/Worker/Block/Reading.antt =====
-- Read requests of the block device: where the bytes of the image arrive, and when there is no room
-- left for the status.
use whypa.Base.{
  ℕ, ◌+◌, ◌-◌, ◌*◌, ◌%◌, ◌^◌, ◌<◌, ◌≡◌, refl, sym, ap, ◌∙◌, ◌==◌, if◌then◌else◌, true, List, [],
  ◌∷◌, ◌++◌, length, length-append, length-drop, drop, drop-append, drop_all, u64, sub64, Host, ok,
  err, done, and_then, arith,
}
use whypa.Buffers.Slice.{VolatileSlice, IsVolatileSlice}
use whypa.Buffers.Consumer.{DescriptorChainConsumer, sum_len, available_bytes, pick}
use whypa.Buffers.Flat.{put_all, addresses, scatter-addresses}
use whypa.Buffers.Consume.{left, length-addresses, Consumed, consume-Consumed}
use whypa.Buffers.Transfer.{pick-whole}
use whypa.Buffers.Split.{addresses-append}
use whypa.Buffers.Available.{sum_len-addresses, available_bytes-left, pick-exact}
use whypa.Worker.Block.{
  DiskImage, Request, DiskProperties, map_err, read_vectored_at_volatile, writing_to_descriptor,
  invalid_data_length,
}
use whypa.Worker.Block.Requests.{write_from_at, request_in}

module _ {V K : Type 0} (vs : VolatileSlice V) (law : IsVolatileSlice vs)
    (image : DiskImage K) where
  read_vectored-put_all :
      (offset : ℕ) (bufs : List V) (disk : DiskProperties K) (host : Host) (bytes : List ℕ)
      → length (addresses vs bufs) < 2 ^ 64
      → image.readv disk.file (length (addresses vs bufs)) offset ≡ (ok tt, bytes)
      → read_vectored_at_volatile vs image offset bufs (disk, host)
        ≡ (ok (length (addresses vs bufs)), (disk, put_all (addresses vs bufs) bytes host))
  unfolding read_vectored_at_volatile
  read_vectored-put_all offset [] disk host bytes h e = unfold addresses put_all in refl
  read_vectored-put_all offset (b ∷ bufs) disk host bytes h e =
      let full : sum_len vs 0 (b ∷ bufs) ≡ length (addresses vs (b ∷ bufs)) =
        sum_len-addresses vs law 0 (b ∷ bufs) (omega arith) ∙ omega arith in
      rw (full, e, full)
        (ap (λ m. (ok (length (addresses vs (b ∷ bufs))), (disk, m)))
          (scatter-addresses vs bytes (b ∷ bufs) host))

  -- A read of the image through the writer, when the first slices hold exactly the count.
  write_from_at-exact :
      (r : Request V K) (xs ys : List V) (offset : ℕ) (bytes : List ℕ)
      → r.writer.buffers ≡ xs ++ ys
      → r.writer.bytes_consumed + length (addresses vs xs) < 2 ^ 64
      → image.readv r.disk.file (length (addresses vs xs)) offset ≡ (ok tt, bytes)
      → (c' : DescriptorChainConsumer V) × (write_from_at vs image
            (length (addresses vs xs))
            offset
            r
          ≡ done (
            ok (length (addresses vs xs)),
            record r { writer = c'; host = put_all (addresses vs xs) bytes r.host },
          ))
        × Consumed vs law r.writer (length (addresses vs xs)) c'
  unfolding write_from_at
  write_from_at-exact r xs ys offset bytes split h e =
      let n = length (addresses vs xs) in
      let picked = pick vs 0 n r.writer.buffers in
      let same : addresses vs picked ≡ addresses vs xs =
        ap (λ bs. addresses vs (pick vs 0 n bs)) split
        ∙ pick-exact vs law 0 n xs ys (omega arith) in
      let size : length (addresses vs picked) ≡ n = ap length same in
      let answer : read_vectored_at_volatile vs image offset picked (r.disk, r.host)
          ≡ (ok n, (r.disk, put_all (addresses vs xs) bytes r.host)) =
        read_vectored-put_all offset picked r.disk r.host bytes (omega (arith, size))
          (ap (λ k. image.readv r.disk.file k offset) size ∙ e)
        ∙ ap (λ k. (ok k, (r.disk, put_all (addresses vs picked) bytes r.host))) size
        ∙ ap (λ as'. (ok n, (r.disk, put_all as' bytes r.host))) same in
      let consumed =
        consume-Consumed vs law r.writer n (read_vectored_at_volatile vs image offset)
          (r.disk, r.host) (r.disk, put_all (addresses vs xs) bytes r.host) n
          (unfold read_vectored_at_volatile in refl) answer h in
      (consumed.0, rw consumed.1 refl, consumed.2)

  -- A read request of whole sectors.
  request_in-sectors :
      (r : Request V K) (sector n : ℕ)
      → sub64 (available_bytes vs r.writer) 1 ≡ n
      → n % 512 ≡ 0
      → request_in vs image sector r
        ≡ and_then
            (write_from_at vs image n (u64 (sector * 512)) r)
            (λ x. done (map_err writing_to_descriptor x.0, x.1))
  unfolding request_in
  request_in-sectors r sector n data_len sectors =
      let whole : (n % 512 == 0) ≡ true = ground arith in
      ap
        (λ k.
          if k % 512 == 0
          then and_then (write_from_at vs image k (u64 (sector * 512)) r)
              (λ x. done (map_err writing_to_descriptor x.0, x.1))
          else done (err invalid_data_length, r))
        data_len
      ∙ rw whole refl

  -- A read request whose data is a whole number of sectors and ends with a slice, so that the byte
  -- of the status is alone after it, answers the length of the data, if the image can be read there
  -- and the bytes consumed and left are less than 2 ^ 64: the bytes of the image are at the addresses
  -- of the data, and one byte is left for the status.
  pub request_in_lem :
      (r : Request V K) (xs ys : List V) (sector : ℕ) (bytes : List ℕ)
      → r.writer.buffers ≡ xs ++ ys
      → length (addresses vs ys) ≡ 1
      → length (addresses vs xs) % 512 ≡ 0
      → r.writer.bytes_consumed + left vs law r.writer < 2 ^ 64
      → image.readv r.disk.file (length (addresses vs xs)) (u64 (sector * 512)) ≡ (ok tt, bytes)
      → (c' : DescriptorChainConsumer V) × (request_in vs image sector r
          ≡ done (
            ok (length (addresses vs xs)),
            record r { writer = c'; host = put_all (addresses vs xs) bytes r.host },
          ))
        × (addresses vs c'.buffers ≡ addresses vs ys)
  unfolding Consumed
  request_in_lem r xs ys sector bytes split status sectors h e =
      let n = length (addresses vs xs) in
      let all : addresses vs r.writer.buffers ≡ addresses vs xs ++ addresses vs ys =
        ap (addresses vs) split ∙ addresses-append vs law xs ys in
      let total : left vs law r.writer ≡ n + 1 =
        omega (arith, ap length all, length-append (addresses vs xs) (addresses vs ys), status) in
      let avail = available_bytes-left vs law r.writer (omega arith) in
      let data_len : sub64 (available_bytes vs r.writer) 1 ≡ n = omega (arith, avail, total) in
      let none_before : n - n ≡ 0 = omega arith in
      let moved =
        write_from_at-exact r xs ys (u64 (sector * 512)) bytes split (omega (arith, total)) e in
      (
        moved.0,
        request_in-sectors r sector n data_len sectors ∙ rw moved.1 refl,
        moved.2.0
            ∙ ap (drop n) all
            ∙ drop-append n (addresses vs xs) (addresses vs ys)
            ∙ ap (λ as'. as' ++ drop (n - n) (addresses vs ys))
                (drop_all n (addresses vs xs) (omega arith))
            ∙ ap (λ k. drop k (addresses vs ys)) none_before,
      )

  -- Where the data, a whole number of sectors, and the status share the one buffer of the answer, the
  -- image is asked for the byte of the status as well. If it can be read, and the bytes consumed and
  -- left are less than 2 ^ 64, all bytes of the buffer are bytes of the image, the length of the whole
  -- buffer is answered, and no byte is left for the status.
  pub request_in_shared :
      (r : Request V K) (v : V) (sector : ℕ) (bytes : List ℕ)
      → r.writer.buffers ≡ v ∷ []
      → 1 < vs.len v
      → (vs.len v - 1) % 512 ≡ 0
      → r.writer.bytes_consumed + left vs law r.writer < 2 ^ 64
      → image.readv r.disk.file (vs.len v) (u64 (sector * 512)) ≡ (ok tt, bytes)
      → (c' : DescriptorChainConsumer V) × (request_in vs image sector r
          ≡ done (
            ok (vs.len v),
            record r { writer = c'; host = put_all (addresses vs r.writer.buffers) bytes r.host },
          ))
        × (left vs law c' ≡ 0)
  unfolding write_from_at Consumed
  request_in_shared r v sector bytes one long sectors h e =
      let nil : length (addresses vs []) ≡ 0 = unfold addresses in refl in
      let all : left vs law r.writer ≡ vs.len v =
        omega (arith, ap (λ bs. length (addresses vs bs)) one, length-addresses vs law v [], nil) in
      let avail = available_bytes-left vs law r.writer (omega arith) in
      let n = vs.len v - 1 in
      let data_len : sub64 (available_bytes vs r.writer) 1 ≡ n = omega (arith, avail, all) in
      let picked : pick vs 0 n r.writer.buffers ≡ r.writer.buffers =
        ap (pick vs 0 n) one ∙ pick-whole vs v [] n (omega arith) (omega arith) ∙ sym one in
      let f = read_vectored_at_volatile vs image (u64 (sector * 512)) in
      let stored = put_all (addresses vs r.writer.buffers) bytes r.host in
      let answer : f (pick vs 0 n r.writer.buffers) (r.disk, r.host)
          ≡ (ok (vs.len v), (r.disk, stored)) =
        ap (λ bs. f bs (r.disk, r.host)) picked
        ∙ read_vectored-put_all (u64 (sector * 512)) r.writer.buffers r.disk r.host bytes
            (omega arith) (ap (λ k. image.readv r.disk.file k (u64 (sector * 512))) all ∙ e)
        ∙ ap (λ k. (ok k, (r.disk, stored))) all in
      let moved =
        consume-Consumed vs law r.writer n f (r.disk, r.host) (r.disk, stored) (vs.len v)
          (unfold read_vectored_at_volatile in refl) answer (omega (arith, all)) in
      (
        moved.0,
        request_in-sectors r sector n data_len sectors ∙ rw moved.1 refl,
        omega (
          arith,
          ap length moved.2.0,
          length-drop (vs.len v) (addresses vs r.writer.buffers),
          all,
        ),
      )
