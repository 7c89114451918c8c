-- ===== src/Boot/Image.antt =====
-- The guest's memory and the entry after `load_elf_kernel` of src/linux_boot.rs.
use whypa.Base.{
  ℕ, zero, suc, ◌+◌, ◌*◌, ◌^◌, ◌<◌, ◌≤◌, ◌≡◌, refl, ap, ◌∙◌, ◌⊎◌, true, List, [], ◌∷◌, length, any,
  min, Host, copy_in, copy_out, copy_out-copy_in, copy_out-copy_in_outside, Outcome, done, ok,
  arith,
}
use whypa.Memory.{MemoryManager, MmioRegion}
use whypa.Boot.Params.{cmd_line}
use whypa.Boot.Elf.{Elf64Phdr, is_load, read_at, ehdr_of, phdrs_of, check_ehdr, load_elf_kernel}
use whypa.Boot.MemoryMap.{memory_map, kernel_memory_map}
use whypa.Boot.MemoryMap.Entries.{AllEntries, read_entry, read_entries}
use whypa.Boot.Segments.{AreLoadable, EachLoad, Beside, Loaded}
use whypa.Boot.Entering.{EndsWithin, EntersAt, phys_entry-EntersAt}
use whypa.Boot.Loads.{cmd_line_short, load_elf_kernel-done}
use whypa.Boot.Start.{copy_out_all, copy_in-copy_out}
use whypa.Boot.Writes.{low_end, machine_memory}

EachLoad-map :
    (P Q : Elf64Phdr → Type 0) (phs : List Elf64Phdr)
    → ((ph : Elf64Phdr) → P ph → Q ph)
    → EachLoad P phs
    → EachLoad Q phs
EachLoad-map P Q [] f h = tt
EachLoad-map P Q (ph ∷ phs) f h = ((λ load. f ph (h.0 load)), EachLoad-map P Q phs f h.1)

EachLoad-both :
    (P Q : Elf64Phdr → Type 0) (phs : List Elf64Phdr)
    → EachLoad P phs
    → EachLoad Q phs
    → EachLoad (λ ph. P ph × Q ph) phs
EachLoad-both P Q [] h k = tt
EachLoad-both P Q (ph ∷ phs) h k = ((λ load. (h.0 load, k.0 load)), EachLoad-both P Q phs h.1 k.1)

-- Memories that agree on a range are read alike there.
copy_out-agree :
    (n p q : ℕ) (h k : Host)
    → ((i : ℕ) → i < n → h (p + i) ≡ k (q + i))
    → copy_out h p n ≡ copy_out k q n
unfolding copy_out
copy_out-agree zero p q h k same = refl
copy_out-agree (suc n) p q h k same =
    let first : h p ≡ k q = ap h (omega arith) ∙ same 0 (omega arith) ∙ ap k (omega arith) in
    let rest =
      copy_out-agree n (p + 1) (q + 1) h k
        (λ i small. ap h (omega arith) ∙ same (suc i) (omega arith) ∙ ap k (omega arith)) in
    cc (first, rest)

read_entries-agree :
    (n offset : ℕ) (h k : Host)
    → ((a : ℕ) → a < 4096 → h a ≡ k a)
    → offset + 20 * n ≤ 4096
    → read_entries n offset h ≡ read_entries n offset k
unfolding read_entries read_entry
read_entries-agree zero offset h k same fits = refl
read_entries-agree (suc n) offset h k same fits =
    let part = λ (at m : ℕ) (inside : at + m ≤ 4096).
      copy_out-agree m at at h k (λ i small. same (at + i) (omega arith)) in
    cc (
      part offset 8 (omega arith),
      part (offset + 8) 8 (omega arith),
      part (offset + 16) 4 (omega arith),
      read_entries-agree n (offset + 20) h k same (omega arith),
    )

kernel_memory_map-agree :
    (h k : Host) → ((a : ℕ) → a < 4096 → h a ≡ k a) → kernel_memory_map h ≡ kernel_memory_map k
unfolding kernel_memory_map
kernel_memory_map-agree h k same =
    ap (λ c. read_entries (min c 128) 0x2d0 h) (same 0x1e8 (omega arith))
    ∙ read_entries-agree (min (k 0x1e8) 128) 0x2d0 h k same (omega arith)

-- The segment's bytes are beside the zero page, the command line and the place of the ACPI tables.
abbrev pub IsClear : Elf64Phdr → Type 0
IsClear ph =
    Beside 0x7000 4096 ph × Beside 0x2_0000 (length cmd_line) ph × Beside 0xe_0000 0x2_0000 ph

module _ (source total : ℕ) (ms : List MmioRegion) (bound : total < 2 ^ 63)
    (room : 0x2_1000 < low_end total)
    (entries : AllEntries (memory_map (machine_memory source total ms)))
    (few : length (memory_map (machine_memory source total ms)) ≤ 128)
    (tables : Host → Outcome Host) (written : (h : Host) → (h' : Host) × (tables h ≡ done h'))
    (frame : (h h' : Host)
      → tables h ≡ done h'
      → (a : ℕ) → (a < 0xe_0000) ⊎ (0x10_0000 ≤ a)
      → h' (source + a) ≡ h (source + a)) where
  abbrev mem : MemoryManager
  mem = machine_memory source total ms

  abbrev filled : Host → Host → Host
  filled b host =
      copy_in (copy_out b 0 4096) (source + 0x7000) (copy_in cmd_line (source + 0x2_0000) host)

  -- What the parameters and the tables leave as it was.
  kept :
      (b host host' : Host) (p n : ℕ)
      → tables (filled b host) ≡ done host'
      → (p + n ≤ 0x7000) ⊎ (0x8000 ≤ p)
      → (p + n ≤ 0x2_0000) ⊎ (0x2_0000 + length cmd_line ≤ p)
      → (p + n ≤ 0xe_0000) ⊎ (0x10_0000 ≤ p)
      → copy_out host' (source + p) n ≡ copy_out host (source + p) n
  kept b host host' p n t page line acpi =
      copy_out-agree n (source + p) (source + p) host' (filled b host) (λ i small.
        ap host' (omega arith)
        ∙ frame (filled b host) host' t (p + i) (omega arith)
        ∙ ap (filled b host) (omega arith))
      ∙ copy_out-copy_in_outside (copy_out b 0 4096) (source + 0x7000) (source + p) n
          (copy_in cmd_line (source + 0x2_0000) host) (omega (arith, copy_out_all b 0 4096))
      ∙ copy_out-copy_in_outside cmd_line (source + 0x2_0000) (source + p) n host (omega arith)

  line_kept :
      (b host host' : Host)
      → tables (filled b host) ≡ done host'
      → copy_out host' (source + 0x2_0000) (length cmd_line) ≡ cmd_line
  line_kept b host host' t =
      let named = copy_in cmd_line (source + 0x2_0000) host in
      copy_out-agree (length cmd_line) (source + 0x2_0000) (source + 0x2_0000) host' (filled b host)
        (λ i small.
          ap host' (omega arith)
          ∙ frame (filled b host) host' t (0x2_0000 + i) (omega (arith, cmd_line_short))
          ∙ ap (filled b host) (omega arith))
      ∙ copy_out-copy_in_outside (copy_out b 0 4096) (source + 0x7000) (source + 0x2_0000)
          (length cmd_line) named (omega (arith, copy_out_all b 0 4096))
      ∙ copy_out-copy_in cmd_line (source + 0x2_0000) host

  page_kept :
      (b host host' : Host)
      → tables (filled b host) ≡ done host'
      → (a : ℕ) → a < 4096
      → host' (source + 0x7000 + a) ≡ b a
  page_kept b host host' t a small =
      ap host' (omega arith)
      ∙ frame (filled b host) host' t (0x7000 + a) (omega arith)
      ∙ ap (filled b host) (omega arith)
      ∙ copy_in-copy_out 4096 0 (source + 0x7000) a b (copy_in cmd_line (source + 0x2_0000) host)
          small
      ∙ ap b (omega arith)

  -- The machine's memory map has at most 128 entries of 64-bit words; the ACPI tables can be made and
  -- change only the memory from 0xe0000 to 1 MiB. The file begins with the header of an ELF kernel for
  -- this machine, and the program headers are in it. One of them at least is to be loaded; all that
  -- are end within 64 bits, and have their bytes in the file and their place in the low memory, apart
  -- from each other and from the zero page, the command line and the ACPI tables. The entry is in the
  -- physical range of such a segment, or in none and in the virtual range of one that lies as far from
  -- its physical range as the first segment does. Then the loading succeeds and gives the entry's
  -- place in physical memory; in the memory that it leaves are the bytes of every segment at its
  -- address, the command line, and a zero page of which a kernel reads the machine's memory map.
  pub load_elf_kernel_lem :
      (file header table : List ℕ) (host : Host) (at : ℕ)
      → read_at file 0 64 ≡ ok header
      → check_ehdr (ehdr_of header) ≡ ok tt
      → read_at file (ehdr_of header).e_phoff (56 * (ehdr_of header).e_phnum) ≡ ok table
      → let phs = phdrs_of (ehdr_of header).e_phnum table in
        AreLoadable file total phs
        → any is_load phs ≡ true
        → EachLoad IsClear phs
        → EachLoad EndsWithin phs
        → EntersAt phs (ehdr_of header).e_entry at
        → (host' : Host) × (load_elf_kernel mem tables file host ≡ done (ok (at, host')))
          × EachLoad (Loaded source total ms bound file host') phs
          × (copy_out host' (source + 0x2_0000) (length cmd_line) ≡ cmd_line)
          × (kernel_memory_map (λ a. host' (source + 0x7000 + a)) ≡ memory_map mem)
  load_elf_kernel_lem file header table host at head good heads loadable some_load clear ends
        entry =
      let phs = phdrs_of (ehdr_of header).e_phnum table in
      let r =
        load_elf_kernel-done source total ms bound room entries few tables written file header table
          host head good heads loadable some_load in
      let same = phys_entry-EntersAt phs (ehdr_of header).e_entry at ends entry in
      let before = r.2.host in
      let b = r.4.0 in
      (
        r.0,
        r.1 ∙ ap (λ e. done (ok (e, r.0))) same,
        EachLoad-map (λ ph. Loaded source total ms bound file before ph × IsClear ph)
            (Loaded source total ms bound file r.0) phs
            (λ ph both.
              kept b before r.0 ph.p_paddr ph.p_filesz r.4.2 (omega (arith, both.1.0))
                (omega (arith, both.1.1)) (omega (arith, both.1.2))
              ∙ both.0)
            (EachLoad-both (Loaded source total ms bound file before) IsClear phs r.3 clear),
        line_kept b before r.0 r.4.2,
        kernel_memory_map-agree (λ a. r.0 (source + 0x7000 + a)) b (page_kept b before r.0 r.4.2)
            ∙ r.4.1,
      )
