-- ===== src/Queue/Vring.antt =====
-- The queue and its operations. What the guest does between two accesses of one operation is an
-- argument: `pop` has a host memory for each of its reads, `enable_notification` what the guest
-- makes of the memory before the second look. `panic` is the `unwrap` of a failed access.
use whypa.Base.{
  ℕ, ◌+◌, ◌-◌, ◌*◌, ◌%◌, ◌==◌, ltb, leb, if◌then◌else◌, Bool, true, false, not, ◌||◌, Option, none,
  some, List, ◌++◌, min, bit_and, checked_add64, u16, sub16, Host, to_le_bytes, from_le_bytes,
  Result, ok, err, Outcome, done, panic,
}
use whypa.Memory.{
  MemoryManager, MemoryError, GuestAddress, unchecked_add, address_in_range, read_obj, write_obj,
  store, load,
}
use whypa.Queue.Descriptor.{DescriptorChain, checked_new}

pub data Error : Type 0 where
  address_overflow : Error
  guest_memory : MemoryError → Error
  invalid_indirect_descriptor invalid_indirect_descriptor_table invalid_chain : Error
  invalid_descriptor_index invalid_max_size invalid_size : Error
  invalid_desc_table_align invalid_avail_ring_align invalid_used_ring_align : Error
  invalid_avail_ring_index queue_not_ready descriptor_chain_overflow find_memory_region : Error
  split_out_of_bounds : ℕ → Error

abbrev pub used_ring_header_size : ℕ
used_ring_header_size = 4

abbrev pub used_element_size : ℕ
used_element_size = 8

abbrev pub avail_ring_header_size : ℕ
avail_ring_header_size = 4

abbrev pub avail_element_size : ℕ
avail_element_size = 2

abbrev pub used_f_no_notify : ℕ
used_f_no_notify = 1

pub record VirtqUsedElem : Type 0 where
  pub id : ℕ
  pub len : ℕ

unfoldable pub used_elem_bytes : VirtqUsedElem → List ℕ
used_elem_bytes e = to_le_bytes 4 e.id ++ to_le_bytes 4 e.len

-- `next_avail`, `next_used` and `num_added` wrap at 16 bits.
pub record Queue : Type 0 where
  pub max_size : ℕ
  pub size : ℕ
  pub ready : Bool
  pub desc_table : GuestAddress
  pub avail_ring : GuestAddress
  pub used_ring : GuestAddress
  pub next_avail : ℕ
  pub next_used : ℕ
  pub event_idx_enabled : Bool
  pub num_added : ℕ

unfoldable pub new : ℕ → Queue
new max_size = record {
  max_size = max_size;
  size = 0;
  ready = false;
  desc_table = 0;
  avail_ring = 0;
  used_ring = 0;
  next_avail = 0;
  next_used = 0;
  event_idx_enabled = false;
  num_added = 0;
}

abbrev pub actual_size : Queue → ℕ
actual_size q = min q.size q.max_size

-- A ring of `size` bytes at `start` is refused if its end overflows or lies in no region.
unfoldable pub out_of_bounds : MemoryManager → GuestAddress → ℕ → Bool
out_of_bounds mem start size = elim (checked_add64 start size) [
  | none ↦ true
  | some v ↦ not (address_in_range mem v)
]

unfoldable pub is_valid : Queue → MemoryManager → Bool
is_valid q mem =
    let queue_size = actual_size q in
    if not q.ready
    then false
    else if ltb q.max_size q.size || q.size == 0 || not (bit_and q.size (q.size - 1) == 0)
    then false
    else if out_of_bounds mem q.desc_table (16 * queue_size)
    then false
    else if out_of_bounds mem q.avail_ring (6 + 2 * queue_size)
    then false
    else if out_of_bounds mem q.used_ring (6 + 8 * queue_size)
    then false
    else if not (bit_and q.desc_table 0xf == 0)
    then false
    else if not (bit_and q.avail_ring 0x1 == 0)
    then false
    else if not (bit_and q.used_ring 0x3 == 0)
    then false
    else true

abbrev pub map_err : {A : Type 0} → Result A MemoryError → Result A Error
map_err (ok a) = ok a
map_err (err e) = err (guest_memory e)

unfoldable pub avail_idx : Queue → MemoryManager → Host → Result ℕ Error
avail_idx q mem host = elim (checked_add64 q.avail_ring 2) [
  | none ↦ err address_overflow
  | some addr ↦ map_err (load mem host 2 addr)
]

unfoldable pub len : Queue → MemoryManager → Host → Outcome ℕ
len q mem host = elim (avail_idx q mem host) [
  | err _ ↦ panic
  | ok idx ↦ done (sub16 idx q.next_avail)
]

unfoldable pub is_empty : Queue → MemoryManager → Host → Outcome Bool
is_empty q mem host = elim (len q mem host) [ panic ↦ panic | done n ↦ done (n == 0) ]

-- The memory at the three reads of `pop`: the available index, the ring's entry, the descriptor.
pub record PopReads : Type 0 where
  pub at_idx : Host
  pub at_ring : Host
  pub at_desc : Host

-- The offset is computed at 16 bits.
abbrev pub index_offset : Queue → ℕ
index_offset q = u16 (4 + 2 * (q.next_avail % actual_size q))

unfoldable pub pop : Queue → MemoryManager → PopReads → Outcome (Option DescriptorChain × Queue)
pop q mem reads = elim (len q mem reads.at_idx) [
  | panic ↦ panic
  | done n ↦
      (if n == 0 || actual_size q == 0
        then done (none, q)
        else elim (read_obj 2 from_le_bytes mem reads.at_ring
            (unchecked_add q.avail_ring (index_offset q))) [
              | err _ ↦ panic
              | ok desc_index ↦
                  elim (checked_new mem reads.at_desc q.desc_table (actual_size q) desc_index) [
                    | none ↦ done (none, q)
                    | some c ↦ done (some c, record q { next_avail = u16 (q.next_avail + 1) })
                  ]
            ])
]

unfoldable pub undo_pop : Queue → Queue
undo_pop q = record q { next_avail = sub16 q.next_avail 1 }

unfoldable pub go_to_previous_position : Queue → Queue
go_to_previous_position q = record q { next_avail = sub16 q.next_avail 1 }

abbrev pub used_offset : Queue → ℕ
used_offset q = used_ring_header_size + (q.next_used % q.size) * used_element_size

-- The host memory after `write_obj`, whose error the code drops.
abbrev pub ignore_err : Host → Result Host MemoryError → Host
ignore_err host (ok host') = host'
ignore_err host (err e) = host

abbrev pub advance_used : Queue → Queue
advance_used q = record q { next_used = u16 (q.next_used + 1); num_added = u16 (q.num_added + 1) }

-- Publishes `next_used` in the `idx` field of the used ring.
unfoldable pub publish_used : Queue → MemoryManager → Host → Result (Unit {0}) Error × Queue × Host
publish_used q mem host = elim (checked_add64 q.used_ring 2) [
  | none ↦ (err address_overflow, q, host)
  | some addr ↦ elim (store mem host 2 q.next_used addr) [
    | err e ↦ (err (guest_memory e), q, host)
    | ok host' ↦ (ok tt, q, host')
  ]
]

unfoldable pub add_used :
    Queue → MemoryManager → Host → ℕ → ℕ → Result (Unit {0}) Error × Queue × Host
unfolding publish_used
add_used q mem host head_index len =
    if leb q.size head_index
    then (err invalid_descriptor_index, q, host)
    else elim (checked_add64 q.used_ring (used_offset q)) [
      | none ↦ (err address_overflow, q, host)
      | some addr ↦
          let elem : VirtqUsedElem = record { id = head_index; len = len } in
          let host' = ignore_err host (write_obj (used_elem_bytes elem) mem host addr) in
          publish_used (advance_used q) mem host'
    ]

unfoldable pub used_event : Queue → MemoryManager → Host → Result ℕ Error
used_event q mem host =
    elim (checked_add64 q.avail_ring (avail_ring_header_size + q.size * avail_element_size)) [
      | none ↦ err address_overflow
      | some addr ↦ map_err (load mem host 2 addr)
    ]

unfoldable pub set_avail_event : Queue → MemoryManager → Host → ℕ → Result Host Error
set_avail_event q mem host val =
    elim (checked_add64 q.used_ring (used_ring_header_size + used_element_size * q.size)) [
      | none ↦ err address_overflow
      | some addr ↦ map_err (store mem host 2 val addr)
    ]

unfoldable pub set_event_idx : Queue → Bool → Queue
set_event_idx q enabled = record q { event_idx_enabled = enabled }

unfoldable pub set_used_flags : Queue → MemoryManager → Host → ℕ → Result Host Error
set_used_flags q mem host val = map_err (store mem host 2 val q.used_ring)

unfoldable pub set_notification : Queue → MemoryManager → Host → Bool → Result Host Error
set_notification q mem host enable =
    if enable
    then (if q.event_idx_enabled
        then set_avail_event q mem host q.next_avail
        else set_used_flags q mem host 0)
    else if not q.event_idx_enabled
    then set_used_flags q mem host used_f_no_notify
    else ok host

-- `guest` is what the guest does to the memory between the write and the second look.
unfoldable pub enable_notification :
    Queue → MemoryManager → (Host → Host) → Host → Result (Bool × Host) Error
enable_notification q mem guest host = elim (set_notification q mem host true) [
  | err e ↦ err e
  | ok host' ↦ elim (avail_idx q mem (guest host')) [
    | err e ↦ err e
    | ok idx ↦ ok (not (idx == q.next_avail), guest host')
  ]
]

unfoldable pub disable_notification : Queue → MemoryManager → Host → Result Host Error
disable_notification q mem host = set_notification q mem host false

unfoldable pub needs_notification : Queue → MemoryManager → Host → Result Bool Error × Queue
needs_notification q mem host =
    if q.event_idx_enabled
    then elim (used_event q mem host) [
      | err e ↦ (err e, q)
      | ok event ↦
          let old = sub16 q.next_used q.num_added in
          (
            ok (ltb (sub16 (sub16 q.next_used event) 1) (sub16 q.next_used old)),
            record q { num_added = 0 },
          )
    ]
    else (ok true, q)
