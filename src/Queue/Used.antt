-- ===== src/Queue/Used.antt =====
-- Returning a chain to the guest on the used ring.
use whypa.Base.{
  ℕ, ◌+◌, ◌-◌, ◌*◌, ◌%◌, ◌^◌, ◌≤◌, ◌<◌, ◌≡◌, ap, ◌∙◌, true, some, List, length, length-append,
  length-to_le_bytes, u16, sub64, Host, copy_in, copy_out, copy_out-copy_in,
  copy_out-copy_in_outside, to_le_bytes, from_le_bytes, from_le_bytes-to_le_bytes, inr, ok, err,
  arith,
}
use whypa.Memory.{
  MemoryManager, MemoryError, MemoryRegion, find_region, contains, write_perm, read_perm, load,
  store, read_guest_memory, write_obj,
}
use whypa.Memory.Regions.{AllRegions, find_region-Holds}
use whypa.Memory.Access.{Reaches, Reaches-write, Reaches-read}
use whypa.Memory.Atomic.{Admits, Admits-store, Admits-load}
use whypa.Queue.Vring.{Queue, VirtqUsedElem, used_elem_bytes, used_offset, advance_used, add_used}

pub length-used_elem_bytes : (e : VirtqUsedElem) → length (used_elem_bytes e) ≡ 8
unfolding used_elem_bytes
length-used_elem_bytes e = omega (
  arith,
  length-append {0} (to_le_bytes 4 e.id) (to_le_bytes 4 e.len),
  length-to_le_bytes 4 e.id,
  length-to_le_bytes 4 e.len,
)

-- The used ring lies in one region that is readable, writable and backed by the host, and ends
-- before the region's last byte.
pub record IsUsedRing (q : Queue) (mem : MemoryManager) : Type 0 where
  pub region : MemoryRegion
  pub hpa : ℕ
  pub well_formed : AllRegions mem.regions
  pub mapped : region.hpa ≡ some hpa
  pub writable : contains region.perms write_perm ≡ true
  pub readable : contains region.perms read_perm ≡ true
  pub above : region.gpa ≤ q.used_ring
  pub below : q.used_ring + 6 + 8 * q.size < region.gpa + region.size
  pub covers_ring :
      (a : ℕ) → q.used_ring ≤ a → a < q.used_ring + 6 + 8 * q.size → find_region mem a ≡ some region

module _ (q : Queue) (mem : MemoryManager) (host : Host) (head len : ℕ) (ring : IsUsedRing q mem)
    (known : head < q.size) where
  open ring use {region, hpa}

  elem : VirtqUsedElem
  elem = record { id = head; len = len }

  -- The slot is one of the ring's, past its header.
  slot_bounds : (4 ≤ used_offset q) × (used_offset q + 8 ≤ 4 + 8 * q.size)
  slot_bounds = omega arith

  slot_address : ℕ
  slot_address = q.used_ring + used_offset q

  -- Where the slot and the index lie in the host's memory.
  slot_host : ℕ
  slot_host = hpa + (q.used_ring + used_offset q - region.gpa)

  index_host : ℕ
  index_host = hpa + (q.used_ring + 2 - region.gpa)

  region_ends : region.gpa + region.size ≤ 2 ^ 64
  region_ends =
      (find_region-Holds mem q.used_ring {r = region} ring.well_formed
        (ring.covers_ring q.used_ring (omega arith) (omega arith))).0.1

  slot_writable : Reaches mem write_perm slot_address (length (used_elem_bytes elem))
  unfolding slot_address
  slot_writable = record {
    region = region;
    hpa = hpa;
    found = ring.covers_ring slot_address (omega arith) (omega (arith, slot_bounds));
    permitted = ring.writable;
    mapped = ring.mapped;
    above = omega (arith, ring.above);
    below = omega (arith, ring.below, length-used_elem_bytes elem, slot_bounds);
  }

  slot_readable : Reaches mem read_perm slot_address 8
  unfolding slot_address
  slot_readable = record {
    region = region;
    hpa = hpa;
    found = ring.covers_ring slot_address (omega arith) (omega (arith, slot_bounds));
    permitted = ring.readable;
    mapped = ring.mapped;
    above = omega (arith, ring.above);
    below = omega (arith, ring.below, slot_bounds);
  }

  index_admits : (perm : ℕ) → contains region.perms perm ≡ true → Admits mem perm (q.used_ring + 2)
  index_admits perm h = record {
    region = region;
    hpa = hpa;
    found = ring.covers_ring (q.used_ring + 2) (omega arith) (omega arith);
    permitted = h;
    mapped = ring.mapped;
  }

  -- The memory once the element is written, and once the index is published too.
  with_element : Host
  with_element = copy_in (used_elem_bytes elem) slot_host host

  published : Host
  published = copy_in (to_le_bytes 2 (u16 (q.next_used + 1))) index_host with_element

  element_written : write_obj (used_elem_bytes elem) mem host slot_address ≡ ok with_element
  unfolding write_obj with_element slot_host slot_address slot_writable
  element_written =
      Reaches-write mem ring.well_formed slot_address (used_elem_bytes elem) host
        (omega (arith, slot_writable.below, region_ends)) slot_writable

  index_wraps_not : hpa + sub64 (q.used_ring + 2) region.gpa ≡ index_host
  unfolding index_host
  index_wraps_not = omega (arith, ring.above, ring.below, region_ends)

  index_published :
      store mem with_element 2 (u16 (q.next_used + 1)) (q.used_ring + 2) ≡ ok published
  unfolding published index_admits
  index_published =
      let step : store mem with_element 2 (u16 (q.next_used + 1)) (q.used_ring + 2)
          ≡ ok (
              copy_in (to_le_bytes 2 (u16 (q.next_used + 1)))
                (hpa + sub64 (q.used_ring + 2) region.gpa) with_element) =
        Admits-store mem with_element (q.used_ring + 2) 2 (u16 (q.next_used + 1))
          (index_admits write_perm ring.writable) in
      rw index_wraps_not at step

  added : add_used q mem host head len ≡ (ok tt, advance_used q, published)
  unfolding add_used slot_address elem
  added = ground (arith, element_written, index_published, ring.below, region_ends, slot_bounds)

  slot_kept : copy_out published slot_host 8 ≡ used_elem_bytes elem
  unfolding published with_element slot_host index_host
  slot_kept =
      copy_out-copy_in_outside (to_le_bytes 2 (u16 (q.next_used + 1))) index_host slot_host 8
        with_element
        (inr (omega (arith, length-to_le_bytes 2 (u16 (q.next_used + 1)), slot_bounds, ring.above)))
      ∙ (rw (length-used_elem_bytes elem) at
          (copy_out-copy_in (used_elem_bytes elem) slot_host host))

  slot_read : read_guest_memory mem published slot_address 8 ≡ ok (used_elem_bytes elem)
  unfolding slot_address slot_readable slot_host
  slot_read =
      Reaches-read mem ring.well_formed slot_address published 8 slot_readable
        (omega (arith, slot_readable.below, region_ends))
      ∙ ap ok slot_kept

  index_kept : copy_out published index_host 2 ≡ to_le_bytes 2 (u16 (q.next_used + 1))
  unfolding published
  index_kept =
      rw (length-to_le_bytes 2 (u16 (q.next_used + 1))) at
        (copy_out-copy_in (to_le_bytes 2 (u16 (q.next_used + 1))) index_host with_element)

  index_read : load mem published 2 (q.used_ring + 2) ≡ ok (u16 (q.next_used + 1))
  unfolding index_admits
  index_read =
      let step : load mem published 2 (q.used_ring + 2)
          ≡ ok (from_le_bytes (copy_out published (hpa + sub64 (q.used_ring + 2) region.gpa) 2)) =
        Admits-load mem published (q.used_ring + 2) 2 0 (index_admits read_perm ring.readable) in
      (rw index_wraps_not at step)
      ∙ ap (λ (bytes : List ℕ). ok (from_le_bytes bytes)) index_kept
      ∙ ap ok (from_le_bytes-to_le_bytes 2 (u16 (q.next_used + 1)) (omega arith))

  -- If the used ring lies in one region that the device may read and write, and the head is below
  -- the queue's size, `add_used` succeeds: the element is in the slot of the ring that the old
  -- position names, the `idx` field holds the new position, and the queue has counted the chain.
  pub add_used_lem :
      (host' : Host) × (add_used q mem host head len ≡ (
        ok tt,
        record q { next_used = u16 (q.next_used + 1); num_added = u16 (q.num_added + 1) },
        host',
      ))
      × (read_guest_memory mem host' (q.used_ring + (4 + q.next_used % q.size * 8)) 8
          ≡ ok (used_elem_bytes (record { id = head; len = len })))
      × (load mem host' 2 (q.used_ring + 2) ≡ ok (u16 (q.next_used + 1)))
  unfolding slot_address elem
  add_used_lem = (published, added, slot_read, index_read)

-- If the write of the element fails, `add_used` publishes the new index all the same, and succeeds
-- when that store does: the guest is told of an element that was never written.
pub add_used_ignores_write :
    (q : Queue) (mem : MemoryManager) (host host' : Host) (head len : ℕ) (e : MemoryError)
    → head < q.size
    → q.used_ring + (4 + q.next_used % q.size * 8) < 2 ^ 64
    → write_obj
        (used_elem_bytes (record { id = head; len = len }))
        mem
        host
        (q.used_ring + (4 + q.next_used % q.size * 8))
      ≡ err e
    → store mem host 2 (u16 (q.next_used + 1)) (q.used_ring + 2) ≡ ok host'
    → add_used q mem host head len ≡ (
      ok tt,
      record q { next_used = u16 (q.next_used + 1); num_added = u16 (q.num_added + 1) },
      host',
    )
unfolding add_used
add_used_ignores_write q mem host host' head len e known fits failed stored = ground arith
