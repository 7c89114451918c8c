-- ===== src/Buffers/Slice.antt =====
-- `VolatileSlice` of vm-memory, as the operations that the code calls and what its documentation
-- says of them, and `get_slice` of src/memory/memory.rs.
use whypa.Base.{
  ℕ, ◌+◌, ◌≤◌, ◌<◌, ◌≡◌, ltb, if◌then◌else◌, Option, none, some, checked_add64, Result, ok, err,
}
use whypa.Memory.{MemoryRegion}

-- `with_bitmap` makes a slice of so many bytes at a host address; `ptr` is its address.
pub record VolatileSlice (V : Type 0) : Type 0 where
  pub with_bitmap : ℕ → ℕ → V
  pub ptr : V → ℕ
  pub len : V → ℕ
  pub offset : V → ℕ → Option V

-- `offset` gives the slice without its first bytes, and an error past its end.
pub record IsVolatileSlice {V : Type 0} (vs : VolatileSlice V) : Type 0 where
  pub ptr_new : (p n : ℕ) → vs.ptr (vs.with_bitmap p n) ≡ p
  pub len_new : (p n : ℕ) → vs.len (vs.with_bitmap p n) ≡ n
  pub offset_within :
      (v : V) (n : ℕ)
      → n ≤ vs.len v
      → (w : V) × (vs.offset v n ≡ some w) × (vs.ptr w ≡ vs.ptr v + n) × (vs.len w + n ≡ vs.len v)
  pub offset_past : (v : V) (n : ℕ) → vs.len v < n → vs.offset v n ≡ none

pub data GuestMemoryError : Type 0 where
  invalid_backend_address host_address_not_available : GuestMemoryError

unfoldable pub get_slice :
    {V : Type 0} → VolatileSlice V → MemoryRegion → ℕ → ℕ → Result V GuestMemoryError
get_slice vs region addr count = elim (checked_add64 addr count) [
  | none ↦ err invalid_backend_address
  | some end ↦
      (if ltb region.size end then err invalid_backend_address else elim region.hpa [
        | none ↦ err host_address_not_available
        | some hpa ↦ ok (vs.with_bitmap (hpa + addr) count)
      ])
]
