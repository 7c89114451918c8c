-- ===== src/Queue/Pop.antt =====
-- Taking a chain from the available ring.
use whypa.Base.{
  ℕ, ◌+◌, ◌^◌, ◌<◌, ◌≡◌, ◌≢◌, inl, inr, none, some, Option-cases, sub16, u16, from_le_bytes, Result,
  Result-cases, ok, done, arith,
}
use whypa.Memory.{MemoryManager, MemoryError, read_obj, unchecked_add}
use whypa.Queue.Descriptor.{DescriptorChain, checked_new}
use whypa.Queue.Chain.{IsEntry, checked_new-IsEntry}
use whypa.Queue.Vring.{Queue, PopReads, actual_size, avail_idx, len, pop, undo_pop, index_offset}

abbrev pub ring_entry : Queue → MemoryManager → PopReads → Result ℕ MemoryError
ring_entry q mem reads =
    read_obj 2 from_le_bytes mem reads.at_ring (unchecked_add q.avail_ring (index_offset q))

module _ (q : Queue) (mem : MemoryManager) (reads : PopReads) where
  -- A chain is popped only if the available index differs from the queue's position. Its head is
  -- the index that the available ring has at that position, is below the queue's size and has the
  -- size as its limit of steps. The position alone moves on, by one, at 16 bits.
  pub pop-some :
      {c : DescriptorChain} {q' : Queue}
      → pop q mem reads ≡ done (some c, q')
      → (idx : ℕ) × (avail_idx q mem reads.at_idx ≡ ok idx)
        × (sub16 idx q.next_avail ≢ 0)
        × (ring_entry q mem reads ≡ ok c.index)
        × IsEntry mem q.desc_table (actual_size q) c
        × (c.ttl ≡ actual_size q)
        × (q' ≡ record q { next_avail = u16 (q.next_avail + 1) })
  unfolding pop len
  pop-some {c} {q'} e = elim (Result-cases (avail_idx q mem reads.at_idx)) [
    | inr (x, failed) ↦ absurd (ground arith)
    | inl (idx, loaded) ↦ elim (Result-cases (ring_entry q mem reads)) [
      | inr (x, failed) ↦ absurd (ground arith)
      | inl (head, entry) ↦
          elim (Option-cases (checked_new mem reads.at_desc q.desc_table (actual_size q) head)) [
            | inl nothing ↦ absurd (ground arith)
            | inr (d, found) ↦
                let v =
                  checked_new-IsEntry mem reads.at_desc q.desc_table (actual_size q) head {c = d}
                    found in
                let same : d ≡ c = ground arith in
                (
                  idx,
                  loaded,
                  ground arith,
                  ground (arith, v),
                  rw (← same) v.0,
                  ground (arith, v),
                  ground arith,
                )
          ]
    ]
  ]

  -- A pop that yields nothing leaves the queue as it was.
  pub pop-none : {q' : Queue} → pop q mem reads ≡ done (none, q') → q' ≡ q
  unfolding pop
  pop-none e = ground arith

  -- `undo_pop` takes back a successful pop, at a position of 16 bits.
  pub undo_pop-pop :
      {c : DescriptorChain} {q' : Queue}
      → q.next_avail < 2 ^ 16
      → pop q mem reads ≡ done (some c, q')
      → undo_pop q' ≡ q
  unfolding undo_pop
  undo_pop-pop {c} {q'} small e =
      let p = pop-some {c = c} {q' = q'} e in
      let back : sub16 (u16 (q.next_avail + 1)) 1 ≡ q.next_avail = omega arith in
      ground (arith, p, back)
