-- ===== src/Boot/Entering.antt =====
-- Where `load_elf_kernel` of src/linux_boot.rs enters a kernel, said without its sums.
use whypa.Base.{
  ℕ, ◌+◌, ◌-◌, ◌^◌, ◌<◌, ◌≤◌, ◌≡◌, refl, sym, ◌⊎◌, inl, inr, Bool-cases, true, false, some, List,
  [], ◌∷◌, sub64, arith,
}
use whypa.Boot.Elf.{Elf64Phdr, is_load, entry_is_physical, phys_entry}
use whypa.Boot.Segments.{EachLoad}
use whypa.Boot.Entry.{first_offset}

-- What holds of some segment that is to be loaded.
abbrev pub SomeLoad : (Elf64Phdr → Type 0) → List Elf64Phdr → Type 0
SomeLoad P [] = ⊥
SomeLoad P (ph ∷ phs) = ((is_load ph ≡ true) × P ph) ⊎ SomeLoad P phs

-- The address is in the segment's physical range.
abbrev pub HoldsEntry : ℕ → Elf64Phdr → Type 0
HoldsEntry entry ph = (ph.p_paddr ≤ entry) × (entry < ph.p_paddr + ph.p_memsz)

-- The physical range ends within 64 bits.
abbrev pub EndsWithin : Elf64Phdr → Type 0
EndsWithin ph = ph.p_paddr + ph.p_memsz < 2 ^ 64

-- Where the entry of the file, a physical or a virtual address, is in physical memory: itself, if a
-- segment's physical range holds it; else its place in a segment whose virtual range holds it and
-- whose addresses lie as far apart as those of the first segment.
abbrev pub EntersAt : List Elf64Phdr → ℕ → ℕ → Type 0
EntersAt phs entry at =
    (SomeLoad (HoldsEntry entry) phs × (at ≡ entry))
    ⊎ (EachLoad (λ ph. HoldsEntry entry ph → ⊥) phs
        × (ph : Elf64Phdr) × (first_offset phs ≡ some (sub64 ph.p_vaddr ph.p_paddr))
        × (ph.p_vaddr ≤ entry)
        × (entry < ph.p_vaddr + ph.p_memsz)
        × (entry < 2 ^ 64)
        × (ph.p_paddr + ph.p_memsz ≤ 2 ^ 64)
        × (at ≡ ph.p_paddr + (entry - ph.p_vaddr)))

physical :
    (phs : List Elf64Phdr) (entry : ℕ)
    → EachLoad EndsWithin phs
    → SomeLoad (HoldsEntry entry) phs
    → entry_is_physical phs entry ≡ true
unfolding entry_is_physical
physical [] entry ends some_holds = elim some_holds [ ]
physical (ph ∷ phs) entry ends (inl (load, holds)) =
    let within = ends.0 load in ground (arith, load, holds, within)
physical (ph ∷ phs) entry ends (inr later) = ground (arith, physical phs entry ends.1 later)

virtual :
    (phs : List Elf64Phdr) (entry : ℕ)
    → EachLoad EndsWithin phs
    → EachLoad (λ ph. HoldsEntry entry ph → ⊥) phs
    → entry_is_physical phs entry ≡ false
unfolding entry_is_physical
virtual [] entry ends free = refl
virtual (ph ∷ phs) entry ends free = elim (Bool-cases (is_load ph)) [
  | inr other ↦ ground (arith, virtual phs entry ends.1 free.1)
  | inl load ↦
      let within = ends.0 load in
      let out = free.0 load in ground (arith, within, out, virtual phs entry ends.1 free.1)
]

pub phys_entry-EntersAt :
    (phs : List Elf64Phdr) (entry at : ℕ)
    → EachLoad EndsWithin phs
    → EntersAt phs entry at
    → phys_entry phs entry (first_offset phs) ≡ at
unfolding phys_entry
phys_entry-EntersAt phs entry at ends (inl (holds, same)) =
    rw (phys_entry, physical phs entry ends holds) (sym same)
phys_entry-EntersAt phs entry at ends (inr e) =
    rw (phys_entry, virtual phs entry ends e.0, e.2) (omega (arith, e.3, e.4, e.5, e.6, e.7))
