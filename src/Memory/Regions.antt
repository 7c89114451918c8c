-- ===== src/Memory/Regions.antt =====
-- Which region holds a guest address.
use whypa.Base.{
  ℕ, ◌+◌, ◌-◌, ◌^◌, ◌≤◌, ◌<◌, ◌≡◌, ◌↔◌, ◌⊎◌, inl, inr, true, some, List, [], ◌∷◌, find, Bool-cases,
  Option-cases, arith,
}
use whypa.Memory.{
  MemoryRegion, MemoryManager, GuestAddress, last_addr, covers, find_region, address_in_range,
}

-- A region with at least one byte, that ends within 64 bits.
abbrev pub IsRegion : MemoryRegion → Type 0
IsRegion r = (0 < r.size) × (r.gpa + r.size ≤ 2 ^ 64)

abbrev pub AllRegions : List MemoryRegion → Type 0
AllRegions [] = Unit {0}
AllRegions (r ∷ rs) = IsRegion r × AllRegions rs

abbrev pub Holds : GuestAddress → MemoryRegion → Type 0
Holds gpa r = (r.gpa ≤ gpa) × (gpa < r.gpa + r.size)

abbrev pub SomeHolds : GuestAddress → List MemoryRegion → Type 0
SomeHolds gpa [] = ⊥
SomeHolds gpa (r ∷ rs) = Holds gpa r ⊎ SomeHolds gpa rs

pub last_addr-eq : (r : MemoryRegion) → IsRegion r → last_addr r ≡ r.gpa + r.size - 1
unfolding last_addr
last_addr-eq r v = omega arith

covers_iff : (gpa : ℕ) (r : MemoryRegion) → IsRegion r → (covers gpa r ≡ true) ↔ Holds gpa r
covers_iff gpa r v = ground (arith, last_addr-eq r v)

found-Holds :
    (gpa : ℕ) (rs : List MemoryRegion) {r : MemoryRegion}
    → AllRegions rs
    → find (covers gpa) rs ≡ some r
    → IsRegion r × Holds gpa r
found-Holds gpa [] v e = cc
found-Holds gpa (x ∷ rs) {r} v e = elim (Bool-cases (covers gpa x)) [
  | inl here ↦ let same : x ≡ r = ground arith in rw (← same) (v.0, (covers_iff gpa x v.0).0 here)
  | inr later ↦ found-Holds gpa rs {r = r} v.1 (ground arith)
]

-- A region that `find_region` returns is well formed and holds the address, if all regions are
-- well formed.
pub find_region-Holds :
    (mem : MemoryManager) (gpa : ℕ) {r : MemoryRegion}
    → AllRegions mem.regions
    → find_region mem gpa ≡ some r
    → IsRegion r × Holds gpa r
unfolding find_region
find_region-Holds mem gpa v e = found-Holds gpa mem.regions v e

holding_found :
    (gpa : ℕ) (rs : List MemoryRegion)
    → AllRegions rs
    → SomeHolds gpa rs
    → (r : MemoryRegion) × (find (covers gpa) rs ≡ some r)
holding_found gpa [] v h = absurd h
holding_found gpa (x ∷ rs) v h = elim (Bool-cases (covers gpa x)) [
  | inl here ↦ (x, ground arith)
  | inr later ↦
      let rest = holding_found gpa rs v.1 (elim h [
        | inl this ↦ absurd (ground (arith, (covers_iff gpa x v.0).1 this))
        | inr that ↦ that
      ]) in
      (rest.0, ground arith)
]

some_holds :
    (gpa : ℕ) (rs : List MemoryRegion) (r : MemoryRegion)
    → AllRegions rs
    → find (covers gpa) rs ≡ some r
    → SomeHolds gpa rs
some_holds gpa [] r v e = cc
some_holds gpa (x ∷ rs) r v e = elim (Bool-cases (covers gpa x)) [
  | inl here ↦ inl ((covers_iff gpa x v.0).0 here)
  | inr later ↦ inr (some_holds gpa rs r v.1 (ground arith))
]

-- With well-formed regions, `address_in_range` tells exactly whether a region holds the address.
pub address_in_range_iff :
    (mem : MemoryManager) (addr : ℕ)
    → AllRegions mem.regions
    → (address_in_range mem addr ≡ true) ↔ SomeHolds addr mem.regions
unfolding address_in_range find_region
address_in_range_iff mem addr v = (
  λ t. elim (Option-cases (find (covers addr) mem.regions)) [
    | inl nothing ↦ absurd (ground arith)
    | inr (r, found) ↦ some_holds addr mem.regions r v found
  ],
  λ h. let f = holding_found addr mem.regions v h in ground (arith, f.1),
)
