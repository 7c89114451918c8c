-- ===== src/Queue/Descriptor.antt =====
-- Descriptors and descriptor chains. The guest may change its memory at any time, so each read of
-- a descriptor has a host memory of its own.
use whypa.Base.{
  ℕ, zero, suc, ◌-◌, ◌*◌, ◌==◌, ltb, leb, if◌then◌else◌, Bool, not, ◌&&◌, ◌||◌, Option, none, some,
  List, [], ◌∷◌, take, drop, take_while, skip_while, bit_and, checked_add64, Host, from_le_bytes,
  ok, err,
}
use whypa.Memory.{MemoryManager, GuestAddress, read_obj}

abbrev pub desc_f_next : ℕ
desc_f_next = 0x1

abbrev pub desc_f_write : ℕ
desc_f_write = 0x2

pub record Descriptor : Type 0 where
  pub addr : ℕ
  pub len : ℕ
  pub flags : ℕ
  pub next : ℕ

-- The C layout of a descriptor, in little-endian bytes.
unfoldable pub parse_descriptor : List ℕ → Descriptor
parse_descriptor bytes = record {
  addr = from_le_bytes (take 8 bytes);
  len = from_le_bytes (take 4 (drop 8 bytes));
  flags = from_le_bytes (take 2 (drop 12 bytes));
  next = from_le_bytes (take 2 (drop 14 bytes));
}

pub record DescriptorChain : Type 0 where
  pub desc_table : GuestAddress
  pub queue_size : ℕ
  pub ttl : ℕ
  pub index : ℕ
  pub addr : GuestAddress
  pub len : ℕ
  pub flags : ℕ
  pub next : ℕ

unfoldable pub has_next : DescriptorChain → Bool
has_next c = not (bit_and c.flags desc_f_next == 0) && ltb 1 c.ttl

unfoldable pub is_valid : DescriptorChain → Bool
unfolding has_next
is_valid c = not (has_next c) || ltb c.next c.queue_size

unfoldable pub is_write_only : DescriptorChain → Bool
is_write_only c = not (bit_and c.flags desc_f_write == 0)

unfoldable pub is_read_only : DescriptorChain → Bool
is_read_only c = bit_and c.flags desc_f_write == 0

unfoldable pub checked_new : MemoryManager → Host → GuestAddress → ℕ → ℕ → Option DescriptorChain
checked_new mem host desc_table queue_size index =
    if leb queue_size index then none else elim (checked_add64 desc_table (index * 16)) [
      | none ↦ none
      | some desc_addr ↦ elim (read_obj 16 parse_descriptor mem host desc_addr) [
        | err _ ↦ none
        | ok desc ↦
            let chain : DescriptorChain = record {
              desc_table = desc_table;
              queue_size = queue_size;
              ttl = queue_size;
              index = index;
              addr = desc.addr;
              len = desc.len;
              flags = desc.flags;
              next = desc.next;
            } in
            if is_valid chain then some chain else none
      ]
    ]

unfoldable pub next_descriptor : MemoryManager → Host → DescriptorChain → Option DescriptorChain
next_descriptor mem host c =
    if has_next c
    then elim (checked_new mem host c.desc_table c.queue_size c.next) [
      | none ↦ none
      | some d ↦ some (record d { ttl = c.ttl - 1 })
    ]
    else none

unfoldable pub descriptor : DescriptorChain → Descriptor
descriptor c = record { addr = c.addr; len = c.len; flags = c.flags; next = c.next }

-- `DescIter`: the chain that is yielded next. `into_iter` is `some`.
abbrev pub DescIter : Type 0
DescIter = Option DescriptorChain

unfoldable pub iter_next : MemoryManager → Host → DescIter → Option DescriptorChain × DescIter
iter_next mem host none = (none, none)
iter_next mem host (some current) = (some current, next_descriptor mem host current)

-- All that an iterator yields, with `fuel` calls of `next`; `none` means that it had not ended by
-- then. `hosts i` is the memory at the call that is `i` calls before the last.
unfoldable pub collect : MemoryManager → (ℕ → Host) → ℕ → DescIter → Option (List DescriptorChain)
collect mem hosts zero it = none
collect mem hosts (suc fuel) it =
    let step = iter_next mem (hosts fuel) it in
    let rest = collect mem hosts fuel step.1 in
    elim step.0 [ none ↦ some [] | some c ↦ elim rest [ none ↦ none | some cs ↦ some (c ∷ cs) ] ]

-- What `readable` and `writable` let through of the descriptors that the iterator yields.
unfoldable pub readable : List DescriptorChain → List DescriptorChain
unfolding is_read_only
readable = take_while is_read_only

unfoldable pub writable : List DescriptorChain → List DescriptorChain
unfolding is_read_only
writable = skip_while is_read_only
