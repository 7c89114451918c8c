-- ===== src/Queue/Chain.antt =====
-- Walking a descriptor chain ends, whatever the guest writes: no more descriptors than the size of
-- the queue, each from the table.
use whypa.Base.{
  ℕ, zero, suc, ◌+◌, ◌*◌, ◌≤◌, ◌<◌, ◌≡◌, refl, inl, inr, true, Bool, some, List, [], ◌∷◌, ◌++◌,
  length, Option-cases, Host, ok, arith,
}
use whypa.Memory.{MemoryManager, read_obj}
use whypa.Queue.Descriptor.{
  DescriptorChain, parse_descriptor, has_next, is_read_only, checked_new, next_descriptor,
  descriptor, iter_next, collect, readable, writable,
}

-- The descriptor is the one that the guest's table has at its index, and the index is in the table.
pub record IsEntry (mem : MemoryManager) (table size : ℕ) (c : DescriptorChain) : Type 0 where
  pub in_table : c.index < size
  pub same_table : c.desc_table ≡ table
  pub same_size : c.queue_size ≡ size

abbrev pub AllEntries : MemoryManager → ℕ → ℕ → List DescriptorChain → Type 0
AllEntries mem table size [] = Unit {0}
AllEntries mem table size (c ∷ cs) = IsEntry mem table size c × AllEntries mem table size cs

pub checked_new-IsEntry :
    (mem : MemoryManager) (host : Host) (table size index : ℕ) {c : DescriptorChain}
    → checked_new mem host table size index ≡ some c
    → IsEntry mem table size c
      × (c.ttl ≡ size)
      × (c.index ≡ index)
      × (read_obj 16 parse_descriptor mem host (table + index * 16) ≡ ok (descriptor c))
unfolding checked_new descriptor
checked_new-IsEntry mem host table size index e =
    (ground arith, ground arith, ground arith, ground arith)

next_descriptor-IsEntry :
    (mem : MemoryManager) (host : Host) (table size : ℕ) (c : DescriptorChain) {d : DescriptorChain}
    → IsEntry mem table size c
    → next_descriptor mem host c ≡ some d
    → IsEntry mem table size d × (d.ttl + 1 ≡ c.ttl) × (1 ≤ d.ttl)
unfolding next_descriptor has_next
next_descriptor-IsEntry mem host table size c {d} v e =
    elim (Option-cases (checked_new mem host c.desc_table c.queue_size c.next)) [
      | inl nothing ↦ absurd (ground arith)
      | inr (n, found) ↦
          let entry = checked_new-IsEntry mem host c.desc_table c.queue_size c.next {c = n} found in
          ground (arith, entry)
    ]

-- From a descriptor with `ttl` left, the iterator ends within `ttl` descriptors.
collect-bounded :
    (mem : MemoryManager) (hosts : ℕ → Host) (table size fuel : ℕ) (c : DescriptorChain)
    → IsEntry mem table size c
    → c.ttl < fuel
    → 1 ≤ c.ttl
    → (cs : List DescriptorChain) × (collect mem hosts fuel (some c) ≡ some (c ∷ cs))
      × (length (c ∷ cs) ≤ c.ttl)
      × AllEntries mem table size (c ∷ cs)
unfolding collect iter_next
collect-bounded mem hosts table size zero c v h k = absurd (omega arith)
collect-bounded mem hosts table size (suc zero) c v h k = absurd (omega arith)
collect-bounded mem hosts table size (suc (suc fuel)) c v h k =
    elim (Option-cases (next_descriptor mem (hosts (suc fuel)) c)) [
      | inl nothing ↦ ([], ground arith, omega arith, (v, tt))
      | inr (d, found) ↦
          let next = next_descriptor-IsEntry mem (hosts (suc fuel)) table size c {d = d} v found in
          let rest =
            collect-bounded mem hosts table size (suc fuel) d next.0 (omega (arith, next.1))
              next.2 in
          (d ∷ rest.0, ground (arith, rest.1), omega (arith, next.1, rest.2), (v, rest.3))
    ]

-- A walk of a descriptor chain ends within as many calls of the iterator as the queue has
-- descriptors, and one more, whatever the guest's memory holds at each call: it yields the head
-- first, at most `size` descriptors, all with indices below `size` in the queue's own table.
pub chain_ends :
    (mem : MemoryManager) (host : Host) (hosts : ℕ → Host) (table size index : ℕ)
    {c : DescriptorChain}
    → checked_new mem host table size index ≡ some c
    → (cs : List DescriptorChain) × (collect mem hosts (size + 1) (some c) ≡ some (c ∷ cs))
      × (length (c ∷ cs) ≤ size)
      × AllEntries mem table size (c ∷ cs)
chain_ends mem host hosts table size index {c} e =
    let entry = checked_new-IsEntry mem host table size index {c = c} e in
    let walk =
      collect-bounded mem hosts table size (size + 1) c entry.0 (omega (arith, entry.1))
        (omega (arith, entry.1, entry.0.in_table)) in
    (walk.0, walk.1, omega (arith, walk.2, entry.1), walk.3)

abbrev pub AllAre : (DescriptorChain → Bool) → List DescriptorChain → Type 0
AllAre p [] = Unit {0}
AllAre p (c ∷ cs) = (p c ≡ true) × AllAre p cs

-- The readable descriptors are the read-only ones before the first writable one; with the writable
-- part they make up the chain, so that no descriptor is lost or seen twice.
pub readable-writable :
    (cs : List DescriptorChain)
    → (readable cs ++ writable cs ≡ cs) × AllAre is_read_only (readable cs)
unfolding readable writable is_read_only
readable-writable [] = (refl, tt)
readable-writable (c ∷ cs) = ground (arith, readable-writable cs)
