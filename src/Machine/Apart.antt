-- ===== src/Machine/Apart.antt =====
-- The MMIO windows of a machine stay apart: `register_mmio_region` of src/partition.rs.
use Prim.Native.String.{String}
use whypa.Base.{
  ℕ, ◌+◌, ◌^◌, ◌<◌, ◌≤◌, ◌≡◌, refl, ◌⊎◌, inl, inr, Bool-cases, true, false, ltb, ◌&&◌, any, Option,
  List, [], ◌∷◌, ◌++◌, u64, dec_le, ltb→lt, lt→ltb, ok, arith,
}
use whypa.Memory.{MmioRegion, MemoryRegion, last_addr, register_mmio}
use whypa.Memory.Regions.{IsRegion, Holds, last_addr-eq}
use whypa.Machine.{Partition, register_mmio_region}

-- No address is in both windows.
abbrev pub Disjoint : MmioRegion → MmioRegion → Type 0
Disjoint r s = (r.gpa + r.size ≤ s.gpa) ⊎ (s.gpa + s.size ≤ r.gpa)

abbrev pub AllDisjoint : MmioRegion → List MmioRegion → Type 0
AllDisjoint r [] = Unit {0}
AllDisjoint r (s ∷ ss) = Disjoint r s × AllDisjoint r ss

-- Windows that end within 64 bits, each disjoint from those after it.
abbrev pub AreApart : List MmioRegion → Type 0
AreApart [] = Unit {0}
AreApart (r ∷ rs) = (r.gpa + r.size < 2 ^ 64) × AllDisjoint r rs × AreApart rs

AllDisjoint-append :
    (r w : MmioRegion) (rs : List MmioRegion)
    → AllDisjoint r rs
    → Disjoint r w
    → AllDisjoint r (rs ++ w ∷ [])
AllDisjoint-append r w [] h d = (d, tt)
AllDisjoint-append r w (s ∷ ss) h d = (h.0, AllDisjoint-append r w ss h.1 d)

AreApart-append :
    (w : MmioRegion) (rs : List MmioRegion)
    → 0 < w.size
    → w.gpa + w.size < 2 ^ 64
    → AreApart rs
    → any (λ r. ltb w.gpa (u64 (r.gpa + r.size)) && ltb r.gpa (w.gpa + w.size)) rs ≡ false
    → AreApart (rs ++ w ∷ [])
AreApart-append w [] some_byte ends apart clear = (ends, tt, tt)
AreApart-append w (r ∷ rs) some_byte ends apart clear =
    elim (Bool-cases (ltb w.gpa (u64 (r.gpa + r.size)) && ltb r.gpa (w.gpa + w.size))) [
      | inl met ↦ absurd (ground arith)
      | inr free ↦ (
        apart.0,
        AllDisjoint-append r w rs apart.1
            (elim (dec_le (w.gpa + w.size) r.gpa) [ yes h ↦ inr h | no h ↦ inl (ground arith) ]),
        AreApart-append w rs some_byte ends apart.2 (ground arith),
      )
    ]

-- Registering a window of at least one byte keeps the windows disjoint, whether it is accepted or
-- refused.
pub register_mmio_region-AreApart :
    (gpa size : ℕ) (name : String) (handler : Option String) (p : Partition)
    → 0 < size
    → AreApart p.memory.mmio_regions
    → AreApart (register_mmio_region gpa size name handler p).1.memory.mmio_regions
unfolding register_mmio_region register_mmio
register_mmio_region-AreApart gpa size name handler p some_byte apart =
    let meets = λ (r : MemoryRegion). ltb gpa (last_addr r) && ltb r.gpa (gpa + size) in
    let clashes = λ (r : MmioRegion). ltb gpa (u64 (r.gpa + r.size)) && ltb r.gpa (gpa + size) in
    elim (Bool-cases (ltb (gpa + size) (2 ^ 64))) [
      | inr over ↦ rw (register_mmio_region, over) apart
      | inl ends ↦ elim (Bool-cases (any meets p.memory.regions)) [
        | inl memory ↦ rw (register_mmio_region, ends, memory) apart
        | inr clear ↦ elim (Bool-cases (any clashes p.memory.mmio_regions)) [
          | inl window ↦ rw (register_mmio_region, ends, clear, window) apart
          | inr free ↦
              rw (register_mmio_region, ends, clear, free)
                (AreApart-append (record { gpa = gpa; size = size; name = name; handler = handler })
                  p.memory.mmio_regions some_byte (ltb→lt _ _ ends) apart free)
        ]
      ]
    ]

-- A window that begins with the last byte of the machine's memory is accepted, though that byte is
-- then in both.
pub register_mmio_region_at_last_byte :
    (r : MemoryRegion) (size : ℕ) (name : String) (handler : Option String) (p : Partition)
    → IsRegion r
    → p.memory.regions ≡ r ∷ []
    → p.memory.mmio_regions ≡ []
    → 0 < size
    → last_addr r + size < 2 ^ 64
    → ((register_mmio_region (last_addr r) size name handler p).0 ≡ ok tt) × Holds (last_addr r) r
unfolding register_mmio_region
register_mmio_region_at_last_byte r size name handler p v regions windows some_byte ends =
    let at = last_addr r in
    let fits : ltb (at + size) (2 ^ 64) ≡ true = lt→ltb _ _ ends in
    let clear : any (λ r'. ltb at (last_addr r') && ltb r'.gpa (at + size)) p.memory.regions
        ≡ false =
      rw regions (ground arith) in
    let free : any (λ w. ltb at (u64 (w.gpa + w.size)) && ltb w.gpa (at + size))
          p.memory.mmio_regions
        ≡ false =
      rw windows refl in
    (rw (register_mmio_region, fits, clear, free) refl, omega (arith, last_addr-eq r v))
