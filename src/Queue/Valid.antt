-- ===== src/Queue/Valid.antt =====
-- The checks of `Queue::is_valid`.
use whypa.Base.{ℕ, ◌+◌, ◌-◌, ◌*◌, ◌%◌, ◌^◌, ◌≤◌, ◌<◌, ◌≡◌, true, false, bit_and, arith}
use whypa.Base.Bits.{power_of_two, bit_and-low_mask}
use whypa.Memory.{MemoryManager, address_in_range}
use whypa.Queue.Vring.{Queue, actual_size, out_of_bounds, is_valid}

-- What the tests of `is_valid` say, before any reading of the masks.
is_valid_tests :
    (q : Queue) (mem : MemoryManager)
    → is_valid q mem ≡ true
    → (q.ready ≡ true)
      × (q.size ≤ q.max_size)
      × (0 < q.size)
      × (bit_and q.size (q.size - 1) ≡ 0)
      × (bit_and q.desc_table 15 ≡ 0)
      × (bit_and q.avail_ring 1 ≡ 0)
      × (bit_and q.used_ring 3 ≡ 0)
unfolding is_valid
is_valid_tests q mem h = ground arith

is_valid_bounds :
    (q : Queue) (mem : MemoryManager)
    → is_valid q mem ≡ true
    → (out_of_bounds mem q.desc_table (16 * q.size) ≡ false)
      × (out_of_bounds mem q.avail_ring (6 + 2 * q.size) ≡ false)
      × (out_of_bounds mem q.used_ring (6 + 8 * q.size) ≡ false)
unfolding is_valid
is_valid_bounds q mem h =
    let small : actual_size q ≡ q.size = omega (arith, is_valid_tests q mem h) in
    rw (← small) (ground arith)

end_mapped :
    (mem : MemoryManager) (start size : ℕ)
    → out_of_bounds mem start size ≡ false
    → address_in_range mem (start + size) ≡ true
unfolding out_of_bounds
end_mapped mem start size h = ground arith

same_end :
    (mem mem' : MemoryManager) (start size : ℕ)
    → address_in_range mem (start + size) ≡ address_in_range mem' (start + size)
    → out_of_bounds mem start size ≡ out_of_bounds mem' start size
unfolding out_of_bounds
same_end mem mem' start size h = ground arith

-- A valid queue is ready, and its size is a power of two within the device's maximum; its rings
-- are aligned as the virtio standard asks, and end, without overflow, at mapped addresses.
pub is_valid_lem :
    (q : Queue) (mem : MemoryManager)
    → is_valid q mem ≡ true
    → (q.ready ≡ true)
      × (q.size ≤ q.max_size)
      × ((k : ℕ) × (q.size ≡ 2 ^ k))
      × (q.desc_table % 16 ≡ 0)
      × (q.avail_ring % 2 ≡ 0)
      × (q.used_ring % 4 ≡ 0)
      × (address_in_range mem (q.desc_table + 16 * q.size) ≡ true)
      × (address_in_range mem (q.avail_ring + (6 + 2 * q.size)) ≡ true)
      × (address_in_range mem (q.used_ring + (6 + 8 * q.size)) ≡ true)
is_valid_lem q mem h =
    let t = is_valid_tests q mem h in
    let b = is_valid_bounds q mem h in
    (
      t.0,
      t.1,
      power_of_two q.size t.2 t.3,
      omega (arith, t, bit_and-low_mask 4 q.desc_table),
      omega (arith, t, bit_and-low_mask 1 q.avail_ring),
      omega (arith, t, bit_and-low_mask 2 q.used_ring),
      end_mapped mem q.desc_table (16 * q.size) b.0,
      end_mapped mem q.avail_ring (6 + 2 * q.size) b.1,
      end_mapped mem q.used_ring (6 + 8 * q.size) b.2,
    )

-- Of where the rings lie, `is_valid` looks at nothing but the three end addresses: two memories
-- that agree on whether these are mapped get the same verdict, whatever is mapped below them.
pub is_valid_looks_at_ends :
    (q : Queue) (mem mem' : MemoryManager)
    → address_in_range mem (q.desc_table + 16 * actual_size q)
      ≡ address_in_range mem' (q.desc_table + 16 * actual_size q)
    → address_in_range mem (q.avail_ring + (6 + 2 * actual_size q))
      ≡ address_in_range mem' (q.avail_ring + (6 + 2 * actual_size q))
    → address_in_range mem (q.used_ring + (6 + 8 * actual_size q))
      ≡ address_in_range mem' (q.used_ring + (6 + 8 * actual_size q))
    → is_valid q mem ≡ is_valid q mem'
unfolding is_valid
is_valid_looks_at_ends q mem mem' d a u = ground (
  arith,
  same_end mem mem' q.desc_table (16 * actual_size q) d,
  same_end mem mem' q.avail_ring (6 + 2 * actual_size q) a,
  same_end mem mem' q.used_ring (6 + 8 * actual_size q) u,
)
