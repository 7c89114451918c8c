-- ===== src/Boot/Entry.antt =====
-- Where a loaded ELF kernel is entered: the end of `load_elf_kernel` of src/linux_boot.rs.
use whypa.Base.{
  ℕ, ◌+◌, ◌-◌, ◌^◌, ◌<◌, ◌≤◌, ◌≡◌, ◌∙◌, inl, inr, Bool-cases, Result-cases, false, Option, none,
  some, List, [], ◌∷◌, sub64, if◌then◌else◌, Host, ok, arith,
}
use whypa.Memory.{MemoryManager}
use whypa.Boot.Elf.{
  Elf64Phdr, Loading, is_load, start_loading, note_segment, load_segment, load_segments,
  copy_segment, entry_is_physical, phys_entry,
}

-- How far the virtual addresses of the first segment lie from its physical ones.
unfoldable pub first_offset : List Elf64Phdr → Option ℕ
first_offset [] = none
first_offset (ph ∷ phs) =
    if is_load ph then some (sub64 ph.p_vaddr ph.p_paddr) else first_offset phs

abbrev pub or_else : Option ℕ → Option ℕ → Option ℕ
or_else (some d) other = some d
or_else none other = other

module _ (mem : MemoryManager) (file : List ℕ) where
  pub load_segments-offset :
      (phs : List Elf64Phdr) (l l' : Loading)
      → load_segments mem file phs l ≡ ok l'
      → l'.vaddr_to_paddr_offset ≡ or_else l.vaddr_to_paddr_offset (first_offset phs)
  unfolding load_segments load_segment note_segment first_offset
  load_segments-offset [] l l' e = ground arith
  load_segments-offset (ph ∷ phs) l l' e = elim (Bool-cases (is_load ph)) [
    | inr other ↦ ground (arith, load_segments-offset phs l l')
    | inl load ↦ elim (Result-cases (copy_segment mem file ph l.host)) [
      | inl (host', copied) ↦ ground (arith, load_segments-offset phs (note_segment ph host' l) l')
      | inr (x, failed) ↦ absurd (ground arith)
    ]
  ]

-- No segment's physical range holds the entry, and the virtual range of a segment does whose virtual
-- addresses lie as far from the physical ones as those of the first segment. Then the kernel is
-- entered at the physical address of that byte of the segment.
pub phys_entry_virtual :
    (mem : MemoryManager) (file : List ℕ) (phs : List Elf64Phdr) (ph : Elf64Phdr) (entry : ℕ)
    (host : Host) (l : Loading)
    → load_segments mem file phs (start_loading host) ≡ ok l
    → entry_is_physical phs entry ≡ false
    → first_offset phs ≡ some (sub64 ph.p_vaddr ph.p_paddr)
    → ph.p_vaddr ≤ entry
    → entry < ph.p_vaddr + ph.p_memsz
    → entry < 2 ^ 64
    → ph.p_paddr + ph.p_memsz ≤ 2 ^ 64
    → phys_entry phs entry l.vaddr_to_paddr_offset ≡ ph.p_paddr + (entry - ph.p_vaddr)
unfolding phys_entry
phys_entry_virtual mem file phs ph entry host l loaded free first above below word ends =
    let offset : l.vaddr_to_paddr_offset ≡ some (sub64 ph.p_vaddr ph.p_paddr) =
      load_segments-offset mem file phs (start_loading host) l loaded ∙ first in
    rw (phys_entry, free, offset) (omega arith)
