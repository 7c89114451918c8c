-- ===== src/Boot/Examples.antt =====
-- A machine with 2 GiB of memory at 0x10000000 of the host and the windows of its devices, and a kernel
-- of two segments.
use whypa.Base.{
  ℕ, ◌+◌, ◌-◌, ◌≤◌, ◌≡◌, refl, inl, false, some, List, [], ◌∷◌, length, sub64, Host, done, ok,
  arith,
}
use whypa.Memory.{MemoryManager}
use whypa.Machine.{get_memory_size, highest_end}
use whypa.Machine.Ram.{ram_memory}
use whypa.Machine.Windows.{windows}
use whypa.Boot.Params.{write_memory_map, reserved_entries}
use whypa.Boot.MemoryMap.{memory_map, kernel_memory_map, write_memory_map_lem}
use whypa.Boot.MemoryMap.Entries.{AllEntries}
use whypa.Boot.Writes.{machine_memory}
use whypa.Boot.Elf.{Elf64Phdr, Loading, start_loading, load_segments, entry_is_physical, phys_entry}
use whypa.Boot.Segments.{AreLoadable, EachLoad, Loaded, Outside, load_segments_lem}
use whypa.Boot.Entry.{first_offset, phys_entry_virtual}

abbrev pub mem : MemoryManager
mem = machine_memory 0x1000_0000 0x8000_0000 windows

abbrev pub zeros : Host
zeros a = 0

pub entries-AllEntries : AllEntries (memory_map mem)
unfolding memory_map ram_memory reserved_entries get_memory_size highest_end
entries-AllEntries = (
  (omega arith, omega arith, omega arith),
  (
    (omega arith, omega arith, omega arith),
    (
      (omega arith, omega arith, omega arith),
      (
        (omega arith, omega arith, omega arith),
        (
          (omega arith, omega arith, omega arith),
          ((omega arith, omega arith, omega arith), ((omega arith, omega arith, omega arith), tt)),
        ),
      ),
    ),
  ),
)

pub entries_few : length (memory_map mem) ≤ 128
unfolding memory_map ram_memory reserved_entries get_memory_size highest_end
entries_few = omega arith

write_memory_map_lem_example :
    (b : Host) × (write_memory_map mem zeros ≡ done b)
    × (b 0x1e8 ≡ length (memory_map mem))
    × (kernel_memory_map b ≡ memory_map mem)
write_memory_map_lem_example = write_memory_map_lem mem zeros entries-AllEntries entries_few

abbrev segment : ℕ → ℕ → ℕ → Elf64Phdr
segment kind offset paddr = record {
  p_type = kind;
  p_flags = 5;
  p_offset = offset;
  p_vaddr = paddr + 0x8000_0000;
  p_paddr = paddr;
  p_filesz = 3;
  p_memsz = 0x1000;
  p_align = 0x1000;
}

abbrev segments : List Elf64Phdr
segments = segment 1 0 0x100_0000 ∷ segment 4 0 0 ∷ segment 1 2 0x200_0000 ∷ []

abbrev file : List ℕ
file = 10 ∷ 11 ∷ 12 ∷ 13 ∷ 14 ∷ []

segments-AreLoadable : AreLoadable file 0x8000_0000 segments
segments-AreLoadable = (
  λ load. (omega arith, omega arith, ((λ no. absurd (cc no)), ((λ load'. inl (omega arith)), tt))),
  ((λ no. absurd (cc no)), ((λ load. (omega arith, omega arith, tt)), tt)),
)

load_segments_lem_example :
    (l' : Loading) × (load_segments mem file segments (start_loading zeros) ≡ ok l')
    × EachLoad (Loaded 0x1000_0000 0x8000_0000 windows (omega arith) file l'.host) segments
    × Outside 0x1000_0000 0x8000_0000 windows (omega arith) file segments zeros l'.host
load_segments_lem_example =
    load_segments_lem 0x1000_0000 0x8000_0000 windows (omega arith) file segments
      (start_loading zeros) segments-AreLoadable

segments_loaded : (l : Loading) × (load_segments mem file segments (start_loading zeros) ≡ ok l)
segments_loaded =
    let l =
      load_segments_lem 0x1000_0000 0x8000_0000 windows (omega arith) file segments
        (start_loading zeros) segments-AreLoadable in
    (l.0, l.1)

entry_is_virtual : entry_is_physical segments 0x8200_0010 ≡ false
unfolding entry_is_physical
entry_is_virtual = refl

segments-first_offset :
    first_offset segments
    ≡ some (sub64 (segment 1 2 0x200_0000).p_vaddr (segment 1 2 0x200_0000).p_paddr)
unfolding first_offset
segments-first_offset = refl

phys_entry_virtual_example :
    phys_entry segments 0x8200_0010 segments_loaded.0.vaddr_to_paddr_offset
    ≡ 0x200_0000 + (0x8200_0010 - 0x8200_0000)
phys_entry_virtual_example =
    phys_entry_virtual mem file segments (segment 1 2 0x200_0000) 0x8200_0010 zeros
      segments_loaded.0 segments_loaded.1 entry_is_virtual segments-first_offset (omega arith)
      (omega arith) (omega arith) (omega arith)
