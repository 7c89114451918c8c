-- ===== src/Memory/Examples.antt =====
-- One region of 256 bytes at 0x1000, readable and writable, that the host maps at 0x5000.
use whypa.Base.{
  ℕ, ◌+◌, ◌≤◌, ◌<◌, ◌≡◌, refl, ◌⊎◌, true, none, some, List, [], ◌∷◌, Host, copy_in, ok, arith,
}
use whypa.Memory.{
  MemoryRegion, MemoryManager, last_addr, contains, read_perm, find_region, write_guest_memory,
  read_guest_memory,
}
use whypa.Memory.Access.{write_stays_inside, read-write}

abbrev ram : MemoryRegion
ram = record { gpa = 0x1000; size = 0x100; perms = 3; hpa = some 0x5000 }

abbrev mem : MemoryManager
mem = record { regions = ram ∷ []; mmio_regions = []; access_log = []; acpi_address = none }

abbrev host : Host
host a = 0

abbrev code : List ℕ
code = 1 ∷ 2 ∷ []

ram_readable :
    (gpa : ℕ) (r : MemoryRegion) → find_region mem gpa ≡ some r → contains r.perms read_perm ≡ true
unfolding find_region
ram_readable gpa r e = ground arith

written : write_guest_memory mem host code 0x1010 ≡ ok (copy_in code 0x5010 host)
unfolding write_guest_memory find_region last_addr
written = refl

write_stays_inside_example :
    (r : MemoryRegion) × (hpa : ℕ) × (find_region mem 0x1010 ≡ some r)
    × (r.hpa ≡ some hpa)
    × ((a : ℕ) → (a < hpa) ⊎ (hpa + r.size ≤ a) → copy_in code 0x5010 host a ≡ host a)
write_stays_inside_example =
    write_stays_inside mem (omega arith) 0x1010 code host (omega arith) written

read-write_example : read_guest_memory mem (copy_in code 0x5010 host) 0x1010 2 ≡ ok code
read-write_example =
    read-write mem (omega arith) 0x1010 code host (omega arith) written (ram_readable 0x1010)
