-- ===== src/Boot/Elf.antt =====
-- Loading an ELF kernel: `load_elf_kernel` of src/linux_boot.rs. A file is its bytes; reading beyond its
-- end is an error, and each read stands behind a seek to its place.
use whypa.Base.{
  ℕ, zero, suc, ◌+◌, ◌-◌, ◌*◌, ◌^◌, ◌==◌, ltb, leb, if◌then◌else◌, Bool, true, false, not, ◌&&◌,
  Option, none, some, List, [], ◌∷◌, length, take, drop, any, get_or, min, u64, sub64,
  from_le_bytes, Host, Outcome, done, and_then, Result, ok, err,
}
use Prim.Native.Nat.{max}
use whypa.Memory.{MemoryManager, MemoryError, write_guest_memory}
use whypa.Memory.Layout.{zero_page_start}
use whypa.Boot.Params.{setup_elf_boot_params}

pub data LoadError : Type 0 where
  unexpected_eof not_elf not_64_bit not_little_endian wrong_machine wrong_phentsize no_segments :
      LoadError
  missing_header unsupported_version : LoadError
  memory : MemoryError → LoadError

-- `seek` and `read_exact`.
unfoldable pub read_at : List ℕ → ℕ → ℕ → Result (List ℕ) LoadError
read_at file offset n =
    if leb (offset + n) (length file) then ok (take n (drop offset file)) else err unexpected_eof

-- A field of a structure in memory.
abbrev pub field : List ℕ → ℕ → ℕ → ℕ
field bytes offset n = from_le_bytes (take n (drop offset bytes))

pub record Elf64Ehdr : Type 0 where
  pub e_ident : List ℕ
  pub e_type : ℕ
  pub e_machine : ℕ
  pub e_version : ℕ
  pub e_entry : ℕ
  pub e_phoff : ℕ
  pub e_shoff : ℕ
  pub e_flags : ℕ
  pub e_ehsize : ℕ
  pub e_phentsize : ℕ
  pub e_phnum : ℕ
  pub e_shentsize : ℕ
  pub e_shnum : ℕ
  pub e_shstrndx : ℕ

pub record Elf64Phdr : Type 0 where
  pub p_type : ℕ
  pub p_flags : ℕ
  pub p_offset : ℕ
  pub p_vaddr : ℕ
  pub p_paddr : ℕ
  pub p_filesz : ℕ
  pub p_memsz : ℕ
  pub p_align : ℕ

unfoldable pub ehdr_of : List ℕ → Elf64Ehdr
ehdr_of b = record {
  e_ident = take 16 b;
  e_type = field b 16 2;
  e_machine = field b 18 2;
  e_version = field b 20 4;
  e_entry = field b 24 8;
  e_phoff = field b 32 8;
  e_shoff = field b 40 8;
  e_flags = field b 48 4;
  e_ehsize = field b 52 2;
  e_phentsize = field b 54 2;
  e_phnum = field b 56 2;
  e_shentsize = field b 58 2;
  e_shnum = field b 60 2;
  e_shstrndx = field b 62 2;
}

unfoldable pub phdr_of : List ℕ → Elf64Phdr
phdr_of b = record {
  p_type = field b 0 4;
  p_flags = field b 4 4;
  p_offset = field b 8 8;
  p_vaddr = field b 16 8;
  p_paddr = field b 24 8;
  p_filesz = field b 32 8;
  p_memsz = field b 40 8;
  p_align = field b 48 8;
}

unfoldable pub phdrs_of : ℕ → List ℕ → List Elf64Phdr
phdrs_of zero b = []
phdrs_of (suc n) b = phdr_of (take 56 b) ∷ phdrs_of n (drop 56 b)

abbrev pub is_load : Elf64Phdr → Bool
is_load ph = ph.p_type == 1

-- What the loop over the segments keeps. The difference of addresses is an `i64` by its bits.
pub record Loading : Type 0 where
  pub host : Host
  pub lowest_paddr : ℕ
  pub highest_end : ℕ
  pub vaddr_to_paddr_offset : Option ℕ

unfoldable pub note_segment : Elf64Phdr → Host → Loading → Loading
note_segment ph host l = record {
  host = host;
  lowest_paddr = min l.lowest_paddr ph.p_paddr;
  highest_end = max l.highest_end (u64 (ph.p_paddr + ph.p_memsz));
  vaddr_to_paddr_offset = elim l.vaddr_to_paddr_offset [
    | none ↦ some (sub64 ph.p_vaddr ph.p_paddr)
    | some d ↦ some d
  ];
}

unfoldable pub copy_segment : MemoryManager → List ℕ → Elf64Phdr → Host → Result Host LoadError
copy_segment mem file ph host =
    if ph.p_filesz == 0 then ok host else elim (read_at file ph.p_offset ph.p_filesz) [
      | err e ↦ err e
      | ok code ↦ elim (write_guest_memory mem host code ph.p_paddr) [
        | err e ↦ err (memory e)
        | ok host' ↦ ok host'
      ]
    ]

unfoldable pub load_segment :
    MemoryManager → List ℕ → Elf64Phdr → Loading → Result Loading LoadError
load_segment mem file ph l =
    if not (is_load ph) then ok l else elim (copy_segment mem file ph l.host) [
      | err e ↦ err e
      | ok host' ↦ ok (note_segment ph host' l)
    ]

unfoldable pub load_segments :
    MemoryManager → List ℕ → List Elf64Phdr → Loading → Result Loading LoadError
load_segments mem file [] l = ok l
load_segments mem file (ph ∷ phs) l = elim (load_segment mem file ph l) [
  | err e ↦ err e
  | ok l' ↦ load_segments mem file phs l'
]

unfoldable pub entry_is_physical : List Elf64Phdr → ℕ → Bool
entry_is_physical phdrs entry =
    any (λ ph. is_load ph && (leb ph.p_paddr entry && ltb entry (u64 (ph.p_paddr + ph.p_memsz))))
      phdrs

unfoldable pub phys_entry : List Elf64Phdr → ℕ → Option ℕ → ℕ
phys_entry phdrs entry offset =
    if entry_is_physical phdrs entry
    then entry
    else elim offset [ none ↦ sub64 entry 0 | some d ↦ sub64 entry d ]

abbrev pub elf_magic : List ℕ
elf_magic = 0x7f ∷ 0x45 ∷ 0x4c ∷ 0x46 ∷ []

-- `==` on slices of bytes.
unfoldable pub bytes_eq : List ℕ → List ℕ → Bool
bytes_eq [] [] = true
bytes_eq [] (y ∷ ys) = false
bytes_eq (x ∷ xs) [] = false
bytes_eq (x ∷ xs) (y ∷ ys) = x == y && bytes_eq xs ys

-- The checks of the file's header, in their order.
unfoldable pub check_ehdr : Elf64Ehdr → Result (Unit {0}) LoadError
check_ehdr h =
    if not (bytes_eq (take 4 h.e_ident) elf_magic)
    then err not_elf
    else if not (get_or h.e_ident 4 0 == 2)
    then err not_64_bit
    else if not (get_or h.e_ident 5 0 == 1)
    then err not_little_endian
    else if not (h.e_machine == 62)
    then err wrong_machine
    else if not (h.e_phentsize == 56)
    then err wrong_phentsize
    else ok tt

abbrev pub start_loading : Host → Loading
start_loading host = record {
  host = host;
  lowest_paddr = 2 ^ 64 - 1;
  highest_end = 0;
  vaddr_to_paddr_offset = none;
}

-- After the segments: the entry point and the boot parameters.
unfoldable pub finish_elf :
    MemoryManager
    → (Host → Outcome Host)
    → List Elf64Phdr
    → ℕ
    → Loading
    → Outcome (Result (ℕ × Host) LoadError)
finish_elf mem create_acpi_tables phdrs entry l =
    if l.lowest_paddr == 2 ^ 64 - 1
    then done (err no_segments)
    else and_then
        (setup_elf_boot_params mem create_acpi_tables zero_page_start l.lowest_paddr
          (sub64 l.highest_end l.lowest_paddr) l.host)
        λ r. elim r [
          | err e ↦ done (err (memory e))
          | ok (init_size, host') ↦
              done (ok (phys_entry phdrs entry l.vaddr_to_paddr_offset, host'))
        ]

unfoldable pub load_elf_kernel :
    MemoryManager → (Host → Outcome Host) → List ℕ → Host → Outcome (Result (ℕ × Host) LoadError)
load_elf_kernel mem create_acpi_tables file host = elim (read_at file 0 64) [
  | err e ↦ done (err e)
  | ok bytes ↦
      let h = ehdr_of bytes in
      elim (check_ehdr h) [
        | err e ↦ done (err e)
        | ok _ ↦ elim (read_at file h.e_phoff (56 * h.e_phnum)) [
          | err e ↦ done (err e)
          | ok table ↦
              let phdrs = phdrs_of h.e_phnum table in
              elim (load_segments mem file phdrs (start_loading host)) [
                | err e ↦ done (err e)
                | ok l ↦ finish_elf mem create_acpi_tables phdrs h.e_entry l
              ]
        ]
      ]
]
