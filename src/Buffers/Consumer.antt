-- ===== src/Buffers/Consumer.antt =====
-- `DescriptorChainConsumer`, and the reading and writing of bytes through it. A closure that works
-- on slices is a function of them and of a state, the memory or the file that it works on.
use whypa.Base.{
  ℕ, ◌+◌, ◌-◌, ◌==◌, ltb, leb, if◌then◌else◌, none, some, List, [], ◌∷◌, ◌++◌, length, take, drop,
  min, u64, checked_add64, Host, copy_in, copy_out, Result, ok, err, Outcome, done, panic, and_then,
}
use whypa.Memory.{MemoryManager, find_region}
use whypa.Queue.Descriptor.{DescriptorChain}
use whypa.Buffers.Slice.{VolatileSlice, GuestMemoryError, get_slice}

pub data Error : Type 0 where
  descriptor_chain_overflow find_memory_region invalid_chain : Error
  guest_memory_error : GuestMemoryError → Error
  split_out_of_bounds : ℕ → Error
  volatile_memory_error : Error

-- The kinds of `io::Error` that matter here.
pub data IoError : Type 0 where
  invalid_data unexpected_eof write_zero interrupted other : IoError

pub record DescriptorChainConsumer (V : Type 0) : Type 0 where
  pub buffers : List V
  pub bytes_consumed : ℕ

module _ {V : Type 0} (vs : VolatileSlice V) where
  unfoldable pub sum_len : ℕ → List V → ℕ
  sum_len count [] = count
  sum_len count (v ∷ rest) = sum_len (u64 (count + vs.len v)) rest

  unfoldable pub available_bytes : DescriptorChainConsumer V → ℕ
  unfolding sum_len
  available_bytes c = sum_len 0 c.buffers

  -- The slices that `consume` hands to its closure; `buflen` is what they count for so far.
  unfoldable pub pick : ℕ → ℕ → List V → List V
  pick buflen count [] = []
  pick buflen count (v ∷ rest) =
      let rem = count - buflen in
      let picked =
        pick (if ltb rem (vs.len v) then buflen + rem else buflen + vs.len v) count rest in
      if leb count buflen then [] else v ∷ picked

  -- The slices after `rem` bytes; the `unwrap` of an offset is a panic.
  unfoldable pub pop_consumed : ℕ → List V → Outcome (List V)
  pop_consumed rem [] = done []
  pop_consumed rem (v ∷ rest) =
      let popped = pop_consumed (rem - vs.len v) rest in
      if ltb rem (vs.len v)
      then elim (vs.offset v rem) [ none ↦ panic | some w ↦ done (w ∷ rest) ]
      else popped

  -- What follows the closure's answer.
  unfoldable pub settle :
      {S : Type 0}
      → DescriptorChainConsumer V
      → Result ℕ IoError × S
      → Outcome (Result ℕ IoError × DescriptorChainConsumer V × S)
  settle c (err e, s) = done (err e, c, s)
  settle c (ok n, s) = elim (checked_add64 c.bytes_consumed n) [
    | none ↦ done (err invalid_data, c, s)
    | some total ↦
        and_then (pop_consumed n c.buffers)
          (λ bufs. done (ok n, record { buffers = bufs; bytes_consumed = total }, s))
  ]

  unfoldable pub consume_bufs :
      {S : Type 0}
      → DescriptorChainConsumer V
      → List V
      → (List V → S → Result ℕ IoError × S)
      → S
      → Outcome (Result ℕ IoError × DescriptorChainConsumer V × S)
  consume_bufs c [] f s = done (ok 0, c, s)
  consume_bufs c (b ∷ bufs) f s = settle c (f (b ∷ bufs) s)

  unfoldable pub consume :
      {S : Type 0}
      → DescriptorChainConsumer V
      → ℕ
      → (List V → S → Result ℕ IoError × S)
      → S
      → Outcome (Result ℕ IoError × DescriptorChainConsumer V × S)
  consume c count f s = consume_bufs c (pick 0 count c.buffers) f s

  -- The slices before the one that `offset` falls into, what is left of the offset there, and the
  -- slices from there on.
  unfoldable pub split_off : ℕ → List V → List V × ℕ × List V
  split_off rem [] = ([], rem, [])
  split_off rem (v ∷ rest) =
      let later = split_off (rem - vs.len v) rest in
      if ltb rem (vs.len v) then ([], rem, v ∷ rest) else (v ∷ later.0, later.1, later.2)

  -- The consumer that is split stands beside the result.
  unfoldable pub split_parts :
      DescriptorChainConsumer V
      → ℕ
      → List V × ℕ × List V
      → Result (DescriptorChainConsumer V) Error × DescriptorChainConsumer V
  split_parts c offset (before, rem, []) =
      if rem == 0
      then (ok (record { buffers = []; bytes_consumed = 0 }), c)
      else (err (split_out_of_bounds offset), c)
  split_parts c offset (before, rem, front ∷ rest) =
      if ltb 0 rem
      then elim (vs.offset front rem) [
        | none ↦ (err volatile_memory_error, record c { buffers = before })
        | some w ↦ (
          ok (record { buffers = w ∷ rest; bytes_consumed = 0 }),
          record c { buffers = before ++ (w ∷ []) },
        )
      ]
      else (
        ok (record { buffers = front ∷ rest; bytes_consumed = 0 }),
        record c { buffers = before },
      )

  unfoldable pub split_at :
      DescriptorChainConsumer V
      → ℕ
      → Result (DescriptorChainConsumer V) Error × DescriptorChainConsumer V
  split_at c offset = split_parts c offset (split_off offset c.buffers)

  -- `Reader::new` and `Writer::new` after the choice of the descriptors. The region that is found
  -- starts at or below the address.
  unfoldable pub slices_of : MemoryManager → ℕ → List DescriptorChain → Result (List V) Error
  slices_of mem total_len [] = ok []
  slices_of mem total_len (d ∷ rest) = elim (checked_add64 total_len d.len) [
    | none ↦ err descriptor_chain_overflow
    | some total_len' ↦ elim (find_region mem d.addr) [
      | none ↦ err find_memory_region
      | some region ↦ elim (get_slice vs region (d.addr - region.gpa) d.len) [
        | err e ↦ err (guest_memory_error e)
        | ok v ↦ elim (slices_of mem total_len' rest) [ err e ↦ err e | ok bufs ↦ ok (v ∷ bufs) ]
      ]
    ]
  ]

  unfoldable pub consumer_of :
      MemoryManager → List DescriptorChain → Result (DescriptorChainConsumer V) Error
  consumer_of mem descs = elim (slices_of mem 0 descs) [
    | err e ↦ err e
    | ok bufs ↦ ok (record { buffers = bufs; bytes_consumed = 0 })
  ]

  -- The copies of `Reader::read` and `Writer::write`, slice by slice.
  unfoldable pub gather : Host → ℕ → List V → List ℕ
  gather host rem [] = []
  gather host rem (v ∷ rest) =
      let copy_len = min rem (vs.len v) in
      copy_out host (vs.ptr v) copy_len ++ gather host (rem - copy_len) rest

  unfoldable pub scatter : List ℕ → List V → Host → Host
  scatter rem [] host = host
  scatter rem (v ∷ rest) host =
      let copy_len = min (length rem) (vs.len v) in
      scatter (drop copy_len rem) rest (copy_in (take copy_len rem) (vs.ptr v) host)

  -- How many bytes the copies count.
  unfoldable pub copied : ℕ → List V → ℕ
  copied rem [] = 0
  copied rem (v ∷ rest) =
      let copy_len = min rem (vs.len v) in copy_len + copied (rem - copy_len) rest

  -- The bytes that were read stand beside the answer.
  unfoldable pub read :
      DescriptorChainConsumer V
      → Host
      → ℕ
      → Outcome (Result ℕ IoError × DescriptorChainConsumer V × List ℕ)
  read c host count =
      consume c count (λ bufs s. (ok (copied count bufs), gather host count bufs)) []

  unfoldable pub write :
      DescriptorChainConsumer V
      → List ℕ
      → Host
      → Outcome (Result ℕ IoError × DescriptorChainConsumer V × Host)
  write c buf host =
      consume c (length buf) (λ bufs m. (ok (copied (length buf) bufs), scatter buf bufs m)) host
