-- ===== src/Boot.antt =====
-- The page tables that the kernel starts with: `setup_identity_paging` of src/linux_boot.rs, with the
-- addresses of src/memory/layout.rs. The vector of bytes is a function on the offsets below its length.
pub mod Launch
pub mod Paging
pub mod Params
pub mod Elf
pub mod Kernel
pub mod Writes
pub mod Start
pub mod Segments
pub mod Entry
pub mod Loads
pub mod Entering
pub mod Image
pub mod MemoryMap
pub mod Examples
mod LaunchExamples
use whypa.Base.{ℕ, zero, suc, ◌+◌, ◌*◌, ◌<<<◌, bit_or, to_le_bytes, Host, copy_in, copy_out, Result}
use whypa.Memory.Layout.{pml4_start, pdpte_start}
use whypa.Memory.{MemoryManager, MemoryError, write_guest_memory}

abbrev pub tables_len : ℕ
tables_len = 8192

abbrev pub pdpte_offset : ℕ
pdpte_offset = 0x1000

-- The entries from `i` on, each for a page of 1 GiB.
unfoldable pub map_pages : ℕ → ℕ → Host → Host
map_pages zero i tables = tables
map_pages (suc n) i tables =
    map_pages n (i + 1)
      (copy_in (to_le_bytes 8 (bit_or (i <<< 30) 0x83)) (pdpte_offset + i * 8) tables)

unfoldable pub identity_tables : Host
unfolding map_pages
identity_tables = map_pages 4 0 (copy_in (to_le_bytes 8 (bit_or pdpte_start 0x3)) 0 (λ offset. 0))

unfoldable pub setup_identity_paging : MemoryManager → Host → Result Host MemoryError
unfolding identity_tables
setup_identity_paging mem host =
    write_guest_memory mem host (copy_out identity_tables 0 tables_len) pml4_start
