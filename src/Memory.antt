-- ===== src/Memory.antt =====
-- Guest memory: memory/memory.rs. Host memory is a function from host addresses to bytes; a
-- `MemoryManager` maps guest addresses to it. Sums and differences of `u64` wrap, as they do in a
-- build without overflow checks.
pub mod Regions
pub mod Access
pub mod Atomic
pub mod Log
pub mod Layout
mod Examples
use Prim.Native.String.{String}
use whypa.Base.{
  ℕ, suc, ◌+◌, ◌-◌, ◌^◌, ◌==◌, ltb, leb, if◌then◌else◌, Bool, true, false, not, ◌&&◌, Option, none,
  some, List, [], ◌∷◌, ◌++◌, length, find, u64, sub64, bit_and, checked_add64, Host, copy_in,
  copy_out, to_le_bytes, from_le_bytes, Result, ok, err,
}

-- `GuestAddress` is its raw value.
abbrev pub GuestAddress : Type 0
GuestAddress = ℕ

abbrev pub unchecked_add : GuestAddress → ℕ → GuestAddress
unchecked_add gpa offset = u64 (gpa + offset)

-- `MemoryPerms`, as bits.
abbrev pub read_perm : ℕ
read_perm = 1

abbrev pub write_perm : ℕ
write_perm = 2

abbrev pub contains : ℕ → ℕ → Bool
contains perms flag = bit_and perms flag == flag

pub record MemoryRegion : Type 0 where
  pub gpa : GuestAddress
  pub size : ℕ
  pub perms : ℕ
  pub hpa : Option ℕ

pub record MmioRegion : Type 0 where
  pub gpa : GuestAddress
  pub size : ℕ
  pub name : String
  pub handler : Option String

pub record AccessEntry : Type 0 where
  pub gpa : ℕ
  pub is_write : Bool
  pub stamp : ℕ

pub record MemoryManager : Type 0 where
  pub regions : List MemoryRegion
  pub mmio_regions : List MmioRegion
  pub access_log : List AccessEntry
  pub acpi_address : Option GuestAddress

-- The `anyhow` errors of the accesses, by their texts.
pub data MemoryError : Type 0 where
  not_allocated exceeds_region not_permitted no_host_address : MemoryError

unfoldable pub new : MemoryManager
new = record { regions = []; mmio_regions = []; access_log = []; acpi_address = none }

unfoldable pub last_addr : MemoryRegion → GuestAddress
last_addr r = unchecked_add r.gpa (sub64 r.size 1)

pub check_address : MemoryRegion → GuestAddress → Option GuestAddress
unfolding last_addr
check_address r addr = if leb r.gpa addr && leb addr (last_addr r) then some addr else none

pub checked_offset : MemoryRegion → GuestAddress → ℕ → Option GuestAddress
unfolding check_address
checked_offset r base offset = elim (checked_add64 base offset) [
  | none ↦ none
  | some addr ↦ check_address r addr
]

unfoldable pub register_region : MemoryManager → MemoryRegion → MemoryManager
register_region mem region = record mem { regions = mem.regions ++ (region ∷ []) }

unfoldable pub register_mmio : MemoryManager → MmioRegion → MemoryManager
register_mmio mem mmio = record mem { mmio_regions = mem.mmio_regions ++ (mmio ∷ []) }

-- `Vec::remove(0)`.
abbrev pub remove_first : {A : Type 0} → List A → List A
remove_first [] = []
remove_first (x ∷ xs) = xs

abbrev pub log_capacity : ℕ
log_capacity = 1000

pub log_access : MemoryManager → ℕ → Bool → MemoryManager
log_access mem gpa is_write =
    let entry : AccessEntry = record {
      gpa = gpa;
      is_write = is_write;
      stamp = length mem.access_log;
    } in
    let log = mem.access_log ++ (entry ∷ []) in
    record mem { access_log = if ltb log_capacity (length log) then remove_first log else log }

abbrev pub covers : GuestAddress → MemoryRegion → Bool
covers gpa r = leb r.gpa gpa && leb gpa (last_addr r)

unfoldable pub find_region : MemoryManager → GuestAddress → Option MemoryRegion
find_region mem gpa = find (covers gpa) mem.regions

unfoldable pub address_in_range : MemoryManager → GuestAddress → Bool
unfolding find_region
address_in_range mem addr = elim (find_region mem addr) [ none ↦ false | some _ ↦ true ]

unfoldable pub find_mmio : MemoryManager → ℕ → Option MmioRegion
find_mmio mem gpa = find (λ r. leb r.gpa gpa && ltb gpa (u64 (r.gpa + r.size))) mem.mmio_regions

unfoldable pub write_guest_memory :
    MemoryManager → Host → List ℕ → GuestAddress → Result Host MemoryError
write_guest_memory mem host code gpa = elim (find_region mem gpa) [
  | none ↦ err not_allocated
  | some region ↦
      (if ltb (last_addr region) (unchecked_add gpa (length code))
        then err exceeds_region
        else if not (contains region.perms write_perm)
        then err not_permitted
        else elim region.hpa [
          | none ↦ err no_host_address
          | some hpa ↦ ok (copy_in code (hpa + sub64 gpa region.gpa) host)
        ])
]

unfoldable pub read_guest_memory :
    MemoryManager → Host → GuestAddress → ℕ → Result (List ℕ) MemoryError
read_guest_memory mem host gpa size = elim (find_region mem gpa) [
  | none ↦ err not_allocated
  | some region ↦
      (if ltb (last_addr region) (unchecked_add gpa size)
        then err exceeds_region
        else if not (contains region.perms read_perm)
        then err not_permitted
        else elim region.hpa [
          | none ↦ err no_host_address
          | some hpa ↦ ok (copy_out host (hpa + sub64 gpa region.gpa) size)
        ])
]

-- `store` and `load` of an unsigned integer of `k` bytes. The orderings say how accesses of other
-- threads are seen, and change nothing in a sequence of steps.
unfoldable pub store : MemoryManager → Host → ℕ → ℕ → GuestAddress → Result Host MemoryError
store mem host k val addr = elim (find_region mem addr) [
  | none ↦ err not_allocated
  | some region ↦
      (if not (contains region.perms write_perm) then err not_permitted else elim region.hpa [
        | none ↦ err no_host_address
        | some hpa ↦ ok (copy_in (to_le_bytes k val) (hpa + sub64 addr region.gpa) host)
      ])
]

unfoldable pub load : MemoryManager → Host → ℕ → GuestAddress → Result ℕ MemoryError
load mem host k addr = elim (find_region mem addr) [
  | none ↦ err not_allocated
  | some region ↦
      (if not (contains region.perms read_perm) then err not_permitted else elim region.hpa [
        | none ↦ err no_host_address
        | some hpa ↦ ok (from_le_bytes (copy_out host (hpa + sub64 addr region.gpa) k))
      ])
]

-- `read_obj` of a type of `size` bytes that `parse` reads, and `write_obj` of a type whose bytes
-- are `bytes`.
unfoldable pub read_obj :
    {T : Type 0} → ℕ → (List ℕ → T) → MemoryManager → Host → GuestAddress → Result T MemoryError
read_obj size parse mem host gpa = elim (read_guest_memory mem host gpa size) [
  | ok bytes ↦ ok (parse bytes)
  | err e ↦ err e
]

unfoldable pub write_obj : List ℕ → MemoryManager → Host → GuestAddress → Result Host MemoryError
write_obj bytes mem host gpa = write_guest_memory mem host bytes gpa
