-- ===== src/Boot/Segments.antt =====
-- What `load_elf_kernel` of src/linux_boot.rs leaves in the guest's memory, and where it enters it.
use whypa.Base.{
  ℕ, ◌+◌, ◌^◌, ◌<◌, ◌≤◌, ◌≡◌, refl, ap, ◌∙◌, sym, ◌⊎◌, inl, inr, Bool-cases, true, ◌==◌, leb, List,
  [], ◌∷◌, length, take, drop, length-take, length-drop, Host, copy_in, copy_out, copy_out-copy_in,
  copy_out-copy_in_outside, ok, arith,
}
use whypa.Memory.{MmioRegion}
use whypa.Boot.Elf.{
  Elf64Phdr, Loading, read_at, is_load, note_segment, copy_segment, load_segment, load_segments,
}
use whypa.Boot.Writes.{low_end, machine_memory, low_write}

-- What holds of each segment that is to be loaded.
abbrev pub EachLoad : (Elf64Phdr → Type 0) → List Elf64Phdr → Type 0
EachLoad P [] = Unit {0}
EachLoad P (ph ∷ phs) = (is_load ph ≡ true → P ph) × EachLoad P phs

-- The bytes of the file for a segment.
abbrev pub segment_bytes : List ℕ → Elf64Phdr → List ℕ
segment_bytes file ph = take ph.p_filesz (drop ph.p_offset file)

-- The range `n` bytes from `p` on and the bytes of the segment have no address in common.
abbrev pub Beside : ℕ → ℕ → Elf64Phdr → Type 0
Beside p n ph = (p + n ≤ ph.p_paddr) ⊎ (ph.p_paddr + ph.p_filesz ≤ p)

-- Each segment is in the file and in the low memory, and apart from those after it.
abbrev pub AreLoadable : List ℕ → ℕ → List Elf64Phdr → Type 0
AreLoadable file total [] = Unit {0}
AreLoadable file total (ph ∷ phs) =
    (is_load ph ≡ true
      → (ph.p_offset + ph.p_filesz ≤ length file)
        × (ph.p_paddr + ph.p_filesz < low_end total)
        × EachLoad (Beside ph.p_paddr ph.p_filesz) phs)
    × AreLoadable file total phs

module _ (source total : ℕ) (ms : List MmioRegion) (bound : total < 2 ^ 63) (file : List ℕ) where
  -- The bytes of the segment are in the guest's memory.
  abbrev pub Loaded : Host → Elf64Phdr → Type 0
  Loaded host ph = copy_out host (source + ph.p_paddr) ph.p_filesz ≡ segment_bytes file ph

  abbrev pub Outside : List Elf64Phdr → Host → Host → Type 0
  Outside phs host host' =
      (p n : ℕ)
      → EachLoad (Beside p n) phs
      → copy_out host' (source + p) n ≡ copy_out host (source + p) n

  length-segment_bytes :
      (ph : Elf64Phdr)
      → ph.p_offset + ph.p_filesz ≤ length file
      → length (segment_bytes file ph) ≡ ph.p_filesz
  length-segment_bytes ph inside =
      omega (arith, length-take ph.p_filesz (drop ph.p_offset file), length-drop ph.p_offset file)

  copy_segment_lem :
      (ph : Elf64Phdr) (host : Host)
      → ph.p_offset + ph.p_filesz ≤ length file
      → ph.p_paddr + ph.p_filesz < low_end total
      → copy_segment (machine_memory source total ms) file ph host
        ≡ ok (copy_in (segment_bytes file ph) (source + ph.p_paddr) host)
  unfolding copy_segment read_at copy_in
  copy_segment_lem ph host inside room = elim (Bool-cases (ph.p_filesz == 0)) [
    | inl empty ↦
        let nothing : ph.p_filesz ≡ 0 = ground arith in rw (copy_segment, empty, nothing) refl
    | inr full ↦
        let readable : leb (ph.p_offset + ph.p_filesz) (length file) ≡ true = ground arith in
        rw
          (
            copy_segment,
            full,
            read_at,
            readable,
            low_write source total ms bound (segment_bytes file ph) ph.p_paddr host
                (omega (arith, length-segment_bytes ph inside)),
          )
          refl
  ]

  -- Each segment is in the file and in the low memory, and no two overlap. Then all are loaded: the
  -- bytes of each are in the memory at its physical address, and no other byte of the memory has
  -- changed.
  pub load_segments_lem :
      (phs : List Elf64Phdr) (l : Loading)
      → AreLoadable file total phs
      → (l' : Loading) × (load_segments (machine_memory source total ms) file phs l ≡ ok l')
        × EachLoad (Loaded l'.host) phs
        × Outside phs l.host l'.host
  unfolding load_segments load_segment note_segment
  load_segments_lem [] l loadable = (l, refl, tt, λ p n beside. refl)
  load_segments_lem (ph ∷ phs) l loadable = elim (Bool-cases (is_load ph)) [
    | inr other ↦
        let rest = load_segments_lem phs l loadable.1 in
        (
          rest.0,
          rw (load_segments, load_segment, other) rest.1,
          (λ load. absurd (cc), rest.2),
          λ p n beside. rest.3 p n beside.1,
        )
    | inl load ↦
        let fits = loadable.0 load in
        let bytes = segment_bytes file ph in
        let host' = copy_in bytes (source + ph.p_paddr) l.host in
        let rest = load_segments_lem phs (note_segment ph host' l) loadable.1 in
        let len = length-segment_bytes ph fits.0 in
        let here : copy_out host' (source + ph.p_paddr) ph.p_filesz ≡ bytes =
          ap (copy_out host' (source + ph.p_paddr)) (sym len)
          ∙ copy_out-copy_in bytes (source + ph.p_paddr) l.host in
        (
          rest.0,
          rw (load_segments, load_segment, load, copy_segment_lem ph l.host fits.0 fits.1) rest.1,
          (λ load'. rest.3 ph.p_paddr ph.p_filesz fits.2 ∙ here, rest.2),
          λ p n beside.
              rest.3 p n beside.1
              ∙ copy_out-copy_in_outside bytes (source + ph.p_paddr) (source + p) n l.host
                  (elim (beside.0 load) [
                    | inl h ↦ inl (omega arith)
                    | inr h ↦ inr (omega (arith, len))
                  ]),
        )
  ]
