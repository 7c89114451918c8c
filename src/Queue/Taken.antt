-- ===== src/Queue/Taken.antt =====
-- What `pop` of src/devices/virtio/queue.rs takes, by the layout of a split virtqueue.
use whypa.Base.{
  ℕ, ◌+◌, ◌-◌, ◌*◌, ◌%◌, ◌^◌, ◌≤◌, ◌<◌, ◌≡◌, refl, ap, ◌∙◌, true, false, Bool, Bool-cases, inl, inr,
  not, ◌&&◌, ◌||◌, ◌==◌, ltb, leb, if◌then◌else◌, none, some, take, drop, sub64, u16, Host,
  copy_out, from_le_bytes, done, Option, ok, arith,
}
use whypa.Base.Bits.{bit, bit_test}
use whypa.Memory.{
  MemoryManager, MemoryRegion, find_region, contains, read_perm, load, read_obj, read_guest_memory,
  unchecked_add,
}
use whypa.Memory.Regions.{AllRegions, find_region-Holds}
use whypa.Memory.Access.{Reaches, Reaches-read}
use whypa.Memory.Atomic.{Admits, Admits-load}
use whypa.Queue.Descriptor.{DescriptorChain, parse_descriptor, checked_new, is_valid, has_next}
use whypa.Queue.Vring.{Queue, PopReads, actual_size, index_offset, avail_idx, len, pop}

-- The addresses lie in one region that is readable and backed by the host, before its last byte.
pub record IsReadable (mem : MemoryManager) (start end_address : ℕ) : Type 0 where
  pub region : MemoryRegion
  pub hpa : ℕ
  pub well_formed : AllRegions mem.regions
  pub mapped : region.hpa ≡ some hpa
  pub readable : contains region.perms read_perm ≡ true
  pub above : region.gpa ≤ start
  pub below : end_address < region.gpa + region.size
  pub covers_range : (a : ℕ) → start ≤ a → a < end_address → find_region mem a ≡ some region

-- The number that the host's memory has in `k` bytes at a guest address.
abbrev pub number_at :
    {mem : MemoryManager} {start end_address : ℕ}
    → IsReadable mem start end_address
    → Host
    → ℕ
    → ℕ
    → ℕ
number_at r host k a = from_le_bytes (copy_out host (r.hpa + (a - r.region.gpa)) k)

module _ (mem : MemoryManager) (start end_address : ℕ) (r : IsReadable mem start end_address) where
  ends : start < end_address → r.region.gpa + r.region.size ≤ 2 ^ 64
  ends some_byte =
      (find_region-Holds mem start {r = r.region} r.well_formed
        (r.covers_range start (omega arith) some_byte)).0.1

  read_number :
      (host : Host) (k a : ℕ)
      → start ≤ a
      → a < end_address
      → load mem host k a ≡ ok (number_at r host k a)
  read_number host k a low inside =
      let admits : Admits mem read_perm a = record {
        region = r.region;
        hpa = r.hpa;
        found = r.covers_range a low inside;
        permitted = r.readable;
        mapped = r.mapped;
      } in
      let back : r.hpa + sub64 a r.region.gpa ≡ r.hpa + (a - r.region.gpa) =
        omega (arith, r.above, r.below, ends (omega arith)) in
      Admits-load mem host a k 0 admits ∙ ap (λ p. ok (from_le_bytes (copy_out host p k))) back

  read_bytes :
      (host : Host) (n a : ℕ)
      → start ≤ a
      → 0 < n
      → a + n ≤ end_address
      → read_guest_memory mem host a n ≡ ok (copy_out host (r.hpa + (a - r.region.gpa)) n)
  read_bytes host n a low some_byte inside =
      let reaches : Reaches mem read_perm a n = record {
        region = r.region;
        hpa = r.hpa;
        found = r.covers_range a low (omega arith);
        permitted = r.readable;
        mapped = r.mapped;
        above = omega (arith, r.above);
        below = omega (arith, r.below);
      } in
      Reaches-read mem r.well_formed a host n reaches (omega (arith, r.below, ends (omega arith)))

checked_or_out :
    {A : Type 0} (x : Option A) (goes_on more inside : Bool)
    → (if not (not (not goes_on) && more) || inside then x else none)
      ≡ (if (goes_on && more) && not inside then none else x)
checked_or_out x true true true = refl
checked_or_out x true true false = refl
checked_or_out x true false inside = refl
checked_or_out x false more inside = refl

module _ (q : Queue) (mem : MemoryManager) (reads : PopReads) (size : ℕ)
    (sized : actual_size q ≡ size) (positive : 0 < size) (small : size ≤ 32766)
    (word : q.next_avail < 2 ^ 16)
    (ring : IsReadable mem q.avail_ring (q.avail_ring + 6 + 2 * size))
    (table : IsReadable mem q.desc_table (q.desc_table + 16 * size)) where
  -- The index that the guest publishes, behind the two bytes of the flags, the entry of the ring at the
  -- queue's position, behind these four bytes, and the chain of that descriptor.
  abbrev pub published : ℕ
  published = number_at ring reads.at_idx 2 (q.avail_ring + 2) % 2 ^ 16

  abbrev pub entry : ℕ
  entry = number_at ring reads.at_ring 2 (q.avail_ring + 4 + 2 * (q.next_avail % size))

  abbrev pub head_of : ℕ → DescriptorChain
  head_of i =
      let bytes =
        copy_out reads.at_desc (table.hpa + (q.desc_table + 16 * i - table.region.gpa)) 16 in
      record {
        desc_table = q.desc_table;
        queue_size = size;
        ttl = size;
        index = i;
        addr = from_le_bytes (take 8 bytes);
        len = from_le_bytes (take 4 (drop 8 bytes));
        flags = from_le_bytes (take 2 (drop 12 bytes));
        next = from_le_bytes (take 2 (drop 14 bytes));
      }

  -- The descriptor goes on with one beyond the table.
  abbrev pub leads_out : DescriptorChain → Bool
  leads_out c = (bit c.flags 0 && ltb 1 size) && not (ltb c.next size)

  head_found :
      (i : ℕ)
      → i < size
      → checked_new mem reads.at_desc q.desc_table size i
        ≡ (if leads_out (head_of i) then none else some (head_of i))
  unfolding checked_new read_obj parse_descriptor is_valid has_next
  head_found i inside =
      let fits : q.desc_table + 16 * i + 16 ≤ q.desc_table + 16 * size = omega arith in
      let read =
        read_bytes mem q.desc_table (q.desc_table + 16 * size) table reads.at_desc 16
          (q.desc_table + 16 * i) (omega arith) (omega arith) fits in
      let place : q.desc_table + i * 16 ≡ q.desc_table + 16 * i = omega arith in
      let admitted : leb size i ≡ false = ground arith in
      let below : (q.desc_table + 16 * i < 2 ^ 64) = omega (
        arith,
        table.below,
        ends mem q.desc_table (q.desc_table + 16 * size) table (omega arith),
      ) in
      let no_wrap : ltb (q.desc_table + 16 * i) (2 ^ 64) ≡ true = ground arith in
      let test = bit_test (head_of i).flags 0 in
      rw (admitted, place, no_wrap, read, test)
        (checked_or_out (some (head_of i)) (bit (head_of i).flags 0) (ltb 1 size)
          (ltb (head_of i).next size))

  not_found : (i : ℕ) → size ≤ i → checked_new mem reads.at_desc q.desc_table size i ≡ none
  unfolding checked_new
  not_found i outside = ground arith

  index_loaded :
      avail_idx q mem reads.at_idx ≡ ok (number_at ring reads.at_idx 2 (q.avail_ring + 2))
  unfolding avail_idx
  index_loaded =
      let last : ℕ = q.avail_ring + 6 + 2 * size in
      let top = ends mem q.avail_ring last ring (omega arith) in
      let no_wrap : ltb (q.avail_ring + 2) (2 ^ 64) ≡ true = ground (arith, top, ring.below) in
      let loaded =
        read_number mem q.avail_ring last ring reads.at_idx 2 (q.avail_ring + 2) (omega arith)
          (omega arith) in
      ground arith

  entry_read :
      read_obj 2 from_le_bytes mem reads.at_ring (unchecked_add q.avail_ring (index_offset q))
      ≡ ok entry
  unfolding read_obj
  entry_read =
      let last : ℕ = q.avail_ring + 6 + 2 * size in
      let slot_below : q.next_avail % size < size = omega arith in
      let top = ends mem q.avail_ring last ring (omega arith) in
      let place : unchecked_add q.avail_ring (u16 (4 + 2 * (q.next_avail % size)))
          ≡ q.avail_ring + 4 + 2 * (q.next_avail % size) =
        omega (arith, top, ring.below) in
      let at_place : unchecked_add q.avail_ring (index_offset q)
          ≡ q.avail_ring + 4 + 2 * (q.next_avail % size) =
        ap (λ n. unchecked_add q.avail_ring (u16 (4 + 2 * (q.next_avail % n)))) sized ∙ place in
      let ring_read =
        read_bytes mem q.avail_ring last ring reads.at_ring 2
          (q.avail_ring + 4 + 2 * (q.next_avail % size)) (omega arith) (omega arith)
          (omega arith) in
      rw at_place (ground arith)

  -- The queue has 1 to 32766 entries and a position of 16 bits, and the available ring and the
  -- descriptor table each lie in one region that the device may read. Then `pop` does not panic. It
  -- takes nothing if the published index is the queue's position, if the ring's entry at the position,
  -- modulo the size, is no index of the table, or if its descriptor goes on with one beyond the table;
  -- else it takes that descriptor as the head of a chain, and the position alone moves on by one.
  pub pop_lem : pop q mem reads ≡ (
      if published == q.next_avail || not (ltb entry size) || leads_out (head_of entry)
      then done (none, q)
      else done (some (head_of entry), record q { next_avail = (q.next_avail + 1) % 2 ^ 16 }))
  unfolding pop len
  pop_lem =
      let found = index_loaded in
      let read = entry_read in
      elim (Bool-cases (ltb entry size)) [
        | inl inside ↦
            let head = head_found entry (ground arith) in
            elim (Bool-cases (leads_out (head_of entry))) [
              | inl out ↦ ground arith
              | inr stays ↦ ground arith
            ]
        | inr outside ↦ let refused = not_found entry (ground arith) in ground arith
      ]
