-- ===== src/Queue/Examples.antt =====
-- A queue of four entries in one region of 4096 bytes at 0x1000, which the host maps at 0x9000.
use whypa.Base.{
  ℕ, ◌+◌, ◌*◌, ◌≤◌, ◌<◌, ◌≡◌, refl, ◌↔◌, true, false, none, some, List, [], ◌∷◌, length, Host,
  copy_in, copy_out, to_le_bytes, from_le_bytes, ok, done, sub16, u16, arith,
}
use whypa.Memory.{
  MemoryRegion, MemoryManager, contains, find_region, last_addr, read_guest_memory, read_obj, load,
  store, read_perm,
}
use whypa.Queue.Descriptor.{
  DescriptorChain, parse_descriptor, has_next, is_valid as chain_valid, checked_new, collect,
}
use whypa.Queue.Vring.{
  Queue, PopReads, avail_idx, len, pop, used_elem_bytes, add_used, used_event, needs_notification,
  set_notification, set_avail_event, enable_notification,
}
use whypa.Queue.Chain.{AllEntries, chain_ends}
use whypa.Base.Bits.{bit}
use whypa.Queue.Taken.{IsReadable, pop_lem}
use whypa.Queue.Used.{IsUsedRing, add_used_lem}
use whypa.Queue.Notify.{needs_notification_iff, enable_notification_misses_none}

abbrev ram : MemoryRegion
ram = record { gpa = 0x1000; size = 0x1000; perms = 3; hpa = some 0x9000 }

abbrev mem : MemoryManager
mem = record { regions = ram ∷ []; mmio_regions = []; access_log = []; acpi_address = none }

abbrev queue : Queue
queue = record {
  max_size = 256;
  size = 4;
  ready = true;
  desc_table = 0x1000;
  avail_ring = 0x1100;
  used_ring = 0x1200;
  next_avail = 5;
  next_used = 5;
  event_idx_enabled = true;
  num_added = 2;
}

-- The available index is 6, entry 1 of the ring is 2, and descriptor 2 is a buffer of 64 bytes at
-- 0x1300 that goes on with descriptor 2 itself.
abbrev host : Host
host = copy_in (6 ∷ []) 0x9102 (
    copy_in (2 ∷ []) 0x9106 (
      copy_in (0x00 ∷ 0x13 ∷ 0 ∷ 0 ∷ 0 ∷ 0 ∷ 0 ∷ 0 ∷ 64 ∷ 0 ∷ 0 ∷ 0 ∷ 1 ∷ 0 ∷ 2 ∷ []) 0x9020
        (λ a. 0)))

abbrev reads : PopReads
reads = record { at_idx = host; at_ring = host; at_desc = host }

abbrev head : DescriptorChain
head = record {
  desc_table = 0x1000;
  queue_size = 4;
  ttl = 4;
  index = 2;
  addr = 0x1300;
  len = 64;
  flags = 1;
  next = 2;
}

head_read : checked_new mem host 0x1000 4 2 ≡ some head
unfolding checked_new read_obj read_guest_memory find_region last_addr copy_out copy_in
    from_le_bytes parse_descriptor chain_valid has_next
head_read = refl

popped : pop queue mem reads ≡ done (some head, record queue { next_avail = 6 })
unfolding pop len avail_idx load checked_new read_obj read_guest_memory find_region last_addr
    copy_out copy_in from_le_bytes parse_descriptor chain_valid has_next
popped = refl

-- A chain that goes round in the table ends after four descriptors.
chain_ends_example :
    (cs : List DescriptorChain) × (collect mem (λ i. host) 5 (some head) ≡ some (head ∷ cs))
    × (length (head ∷ cs) ≤ 4)
    × AllEntries mem 0x1000 4 (head ∷ cs)
chain_ends_example = chain_ends mem host (λ i. host) 0x1000 4 2 head_read

covers_ram : (a : ℕ) → 0x1000 ≤ a → a < 0x1200 → find_region mem a ≡ some ram
unfolding find_region last_addr
covers_ram a lo hi = ground arith

readable_ring : IsReadable mem 0x1100 (0x1100 + 6 + 2 * 4)
readable_ring = record {
  region = ram;
  hpa = 0x9000;
  well_formed = omega arith;
  mapped = refl;
  readable = refl;
  above = omega arith;
  below = omega arith;
  covers_range = λ a lo hi. covers_ram a (omega arith) (omega arith);
}

readable_table : IsReadable mem 0x1000 (0x1000 + 16 * 4)
readable_table = record {
  region = ram;
  hpa = 0x9000;
  well_formed = omega arith;
  mapped = refl;
  readable = refl;
  above = omega arith;
  below = omega arith;
  covers_range = λ a lo hi. covers_ram a (omega arith) (omega arith);
}

pop_lem_example : pop queue mem reads ≡ done (some head, record queue { next_avail = 6 })
unfolding copy_out copy_in from_le_bytes bit readable_ring readable_table
pop_lem_example =
    pop_lem queue mem reads 4 refl (omega arith) (omega arith) (omega arith) readable_ring
      readable_table

covers_ring : (a : ℕ) → 0x1200 ≤ a → a < 0x1200 + 6 + 8 * 4 → find_region mem a ≡ some ram
unfolding find_region last_addr
covers_ring a lo hi = ground arith

used_ring : IsUsedRing queue mem
used_ring = record {
  region = ram;
  hpa = 0x9000;
  well_formed = omega arith;
  mapped = refl;
  writable = refl;
  readable = refl;
  above = omega arith;
  below = omega arith;
  covers_ring = covers_ring;
}

add_used_lem_example :
    (host' : Host) × (add_used queue mem host 2 64 ≡ (
      ok tt,
      record queue { next_used = u16 (queue.next_used + 1); num_added = u16 (queue.num_added + 1) },
      host',
    ))
    × (read_guest_memory mem host' 0x120c 8 ≡ ok (used_elem_bytes (record { id = 2; len = 64 })))
    × (load mem host' 2 0x1202 ≡ ok 6)
add_used_lem_example = add_used_lem queue mem host 2 64 used_ring (omega arith)

-- The guest wants to hear of completion 4, which is one of the last two.
abbrev asking : Host
asking = copy_in (4 ∷ []) 0x910c host

asked : used_event queue mem asking ≡ ok 4
unfolding used_event load find_region last_addr copy_out copy_in from_le_bytes
asked = refl

needs_notification_iff_example :
    (((needs_notification queue mem asking).0 ≡ ok true)
      ↔ ((k : ℕ) × (k < 2) × (sub16 5 (k + 1) ≡ 4)))
    × ((needs_notification queue mem asking).1 ≡ record queue { num_added = 0 })
needs_notification_iff_example =
    needs_notification_iff queue mem asking 4 refl asked (omega arith) (omega arith) (omega arith)

ram_readable :
    (addr : ℕ) (r : MemoryRegion)
    → find_region mem addr ≡ some r
    → contains r.perms read_perm ≡ true
unfolding find_region
ram_readable addr r e = ground arith

enabled_host : Host
enabled_host = copy_in (6 ∷ 0 ∷ []) 0x9224 host

enabled :
    enable_notification (record queue { next_avail = 6 }) mem (λ h. h) host
    ≡ ok (false, enabled_host)
unfolding enable_notification set_notification set_avail_event avail_idx store load find_region
    last_addr copy_out copy_in from_le_bytes to_le_bytes enabled_host
enabled = refl

enable_notification_misses_none_example :
    (told : Host) × (load mem told 2 0x1224 ≡ ok 6)
    × (enabled_host ≡ told)
    × (avail_idx (record queue { next_avail = 6 }) mem enabled_host ≡ ok 6)
enable_notification_misses_none_example =
    enable_notification_misses_none (record queue { next_avail = 6 }) mem (λ h. h) host enabled_host
      refl (omega arith) (ram_readable 0x1224) enabled
