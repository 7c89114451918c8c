-- ===== src/Worker/Block.antt =====
-- The requests of the block device: src/devices/virtio/block/worker.rs, and the vectored calls of
-- `DiskProperties` in src/devices/file_traits.rs. The disk image and the numbers of the virtio headers
-- are parameters.
pub mod Requests
pub mod Reading
use whypa.Base.{
  ℕ, zero, suc, ◌+◌, ◌*◌, ◌%◌, ◌<◌, ◌^◌, ◌≡◌, refl, sym, ap, ◌∙◌, Bool, true, false, not, ◌==◌,
  ◌&&◌, ltb, leb, if◌then◌else◌, Option, none, some, List, [], ◌∷◌, ◌++◌, length, take, drop,
  from_le_bytes, bit_and, u64, sub64, Host, Result, ok, err, Outcome, done, panic, and_then, arith,
}
use whypa.Memory.{MemoryManager}
use whypa.Queue.Descriptor.{DescriptorChain, readable, writable}
use whypa.Buffers.Slice.{VolatileSlice}
use whypa.Buffers.Consumer.{
  DescriptorChainConsumer, IoError, sum_len, available_bytes, consumer_of, gather, scatter, consume,
}
use whypa.Buffers.Exact.{write_all}
use whypa.Buffers.Exact.Read.{read_exact}
use whypa.Worker.{Answer, skipped, used, Worker}

-- The image: a read gives the bytes that it has stored, also when it fails.
pub record DiskImage (K : Type 0) : Type 0 where
  pub readv : K → ℕ → ℕ → Result (Unit {0}) IoError × List ℕ
  pub writev : K → List ℕ → ℕ → Result (Unit {0}) IoError × K
  pub flush : K → Result (Unit {0}) IoError × K
  pub sync : K → Result (Unit {0}) IoError × K
  pub discard_to_any : K → ℕ → ℕ → Result (Unit {0}) IoError × K
  pub discard_to_zero : K → ℕ → ℕ → Result (Unit {0}) IoError × K
  pub write_zeroes : K → ℕ → ℕ → Result (Unit {0}) IoError × K

-- The numbers of the virtio headers.
pub record Bindings : Type 0 where
  pub t_in : ℕ
  pub t_out : ℕ
  pub t_flush : ℕ
  pub t_get_id : ℕ
  pub t_discard : ℕ
  pub t_write_zeroes : ℕ
  pub flag_unmap : ℕ
  pub s_ok : ℕ
  pub s_ioerr : ℕ

pub data RequestError : Type 0 where
  discarding discarding_to_zero flushing_to_disk reading_from_descriptor : IoError → RequestError
  writing_to_descriptor writing_zeroes : IoError → RequestError
  invalid_data_length unknown_request : RequestError

pub data CacheType : Type 0 where
  unsafe writeback : CacheType

pub record RequestHeader : Type 0 where
  pub request_type : ℕ
  pub sector : ℕ

pub record DiscardWriteData : Type 0 where
  pub sector : ℕ
  pub num_sectors : ℕ
  pub flags : ℕ

unfoldable pub parse_request_header : List ℕ → RequestHeader
parse_request_header bytes = record {
  request_type = from_le_bytes (take 4 bytes);
  sector = from_le_bytes (take 8 (drop 8 bytes));
}

unfoldable pub parse_discard_write_data : List ℕ → DiscardWriteData
parse_discard_write_data bytes = record {
  sector = from_le_bytes (take 8 bytes);
  num_sectors = from_le_bytes (take 4 (drop 8 bytes));
  flags = from_le_bytes (take 4 (drop 12 bytes));
}

pub record DiskProperties (K : Type 0) : Type 0 where
  pub cache_type : CacheType
  pub file : K
  pub nsectors : ℕ
  pub image_id : List ℕ

-- What a request works on.
pub record Request (V K : Type 0) : Type 0 where
  pub reader : DescriptorChainConsumer V
  pub writer : DescriptorChainConsumer V
  pub disk : DiskProperties K
  pub host : Host

abbrev pub map_err :
    {A : Type 0} → (IoError → RequestError) → Result A IoError → Result A RequestError
map_err f (ok a) = ok a
map_err f (err e) = err (f e)

-- `?` on a call that returns nothing, and `Ok(0)` after it.
abbrev pub then_zero : (IoError → RequestError) → Result (Unit {0}) IoError → Result ℕ RequestError
then_zero f (ok _) = ok 0
then_zero f (err e) = err (f e)

module _ {V K : Type 0} (vs : VolatileSlice V) (image : DiskImage K) where
  -- The answer of a successful call is the length of all the slices.
  unfoldable pub read_vectored_at_volatile :
      ℕ → List V → DiskProperties K × Host → Result ℕ IoError × (DiskProperties K × Host)
  read_vectored_at_volatile offset [] (disk, host) = (ok 0, (disk, host))
  read_vectored_at_volatile offset (b ∷ bufs) (disk, host) =
      let full_length = sum_len vs 0 (b ∷ bufs) in
      let r = image.readv disk.file full_length offset in
      (elim r.0 [ ok _ ↦ ok full_length | err e ↦ err e ], (disk, scatter vs r.1 (b ∷ bufs) host))

  unfoldable pub write_vectored_at_volatile :
      ℕ → List V → DiskProperties K × Host → Result ℕ IoError × (DiskProperties K × Host)
  write_vectored_at_volatile offset [] (disk, host) = (ok 0, (disk, host))
  write_vectored_at_volatile offset (b ∷ bufs) (disk, host) =
      let full_length = sum_len vs 0 (b ∷ bufs) in
      let r = image.writev disk.file (gather vs host full_length (b ∷ bufs)) offset in
      (elim r.0 [ ok _ ↦ ok full_length | err e ↦ err e ], (record disk { file = r.1 }, host))
