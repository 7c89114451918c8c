-- ===== src/Boot/Start.antt =====
-- The state in which the processor starts: `setup_linux_registers` of src/partition.rs and
-- src/linux_boot.rs, with the page tables below it.
use whypa.Base.{
  ℕ, zero, suc, ◌+◌, ◌^◌, ◌<◌, ◌≡◌, refl, ap, ◌∙◌, inl, inr, Option, none, some, List, [], ◌∷◌,
  length, to_le_bytes, true, ◌==◌, if◌then◌else◌, Host, copy_in, copy_out, copy_in_outside, ok,
  arith,
}
use whypa.Memory.{MmioRegion}
use whypa.Memory.Layout.{pml4_start}
use whypa.Boot.{identity_tables, setup_identity_paging}
use whypa.Boot.Paging.{translate, translate-identity_tables}
use whypa.Boot.Kernel.{
  Register, cr3, rip, gdt, gdt_bytes, boot_registers, setup_registers, setup_linux_registers,
}
use whypa.Boot.Writes.{low_end, machine_memory, low_write, low_read}

-- Where the registers have the page tables, and where the first instruction.
unfoldable pub page_tables : List Register → Option ℕ
page_tables [] = none
page_tables (cr3 root ∷ rs) = some root
page_tables (r ∷ rs) = page_tables rs

unfoldable pub first_instruction : List Register → Option ℕ
first_instruction [] = none
first_instruction (rip at ∷ rs) = some at
first_instruction (r ∷ rs) = first_instruction rs

pub copy_out_all : (host : Host) (p n : ℕ) → length (copy_out host p n) ≡ n
unfolding copy_out
copy_out_all host p zero = refl
copy_out_all host p (suc n) = ap suc (copy_out_all host (p + 1) n)

pub copy_in-copy_out :
    (n p q i : ℕ) (m host : Host) → i < n → copy_in (copy_out m p n) q host (q + i) ≡ m (p + i)
unfolding copy_in copy_out
copy_in-copy_out zero p q i m host small = absurd (omega arith)
copy_in-copy_out (suc n) p q zero m host small =
    let next : Host = λ a. if a == q then m p else host a in
    copy_in_outside (copy_out m (p + 1) n) (q + 1) (q + 0) next (inl (omega arith))
    ∙ let same : (q + 0 == q) ≡ true = ground arith in rw same (ap m (omega arith))
copy_in-copy_out (suc n) p q (suc i) m host small =
    let at : q + suc i ≡ q + 1 + i = omega arith in
    let from : p + suc i ≡ p + 1 + i = omega arith in
    rw (at, from)
      (copy_in-copy_out n (p + 1) (q + 1) i m (λ a. if a == q then m p else host a) (omega arith))

length-gdt : length (gdt_bytes gdt) ≡ 32
unfolding gdt_bytes to_le_bytes
length-gdt = refl

module _ (source total : ℕ) (ms : List MmioRegion) (bound : total < 2 ^ 63)
    (room : 0xc000 < low_end total) where
  -- With memory beyond the tables the set-up succeeds: the registers begin at the kernel's entry, and
  -- with the page tables that they name the processor takes every address below 4 GiB for itself.
  pub setup_linux_registers_lem :
      (entry : ℕ) (host : Host)
      → (registers : List Register) × (host' : Host) × (root : ℕ) × (setup_linux_registers
            (machine_memory source total ms)
            entry
            host
          ≡ ok (registers, host'))
        × (first_instruction registers ≡ some entry)
        × (page_tables registers ≡ some root)
        × ((va : ℕ) → va < 2 ^ 32 → translate (λ a. host' (source + a)) root va ≡ some va)
  unfolding setup_linux_registers setup_registers setup_identity_paging boot_registers page_tables
      first_instruction
  setup_linux_registers_lem entry host =
      let tables = copy_in (copy_out identity_tables 0 8192) (source + 0xa000) host in
      let final = copy_in (gdt_bytes gdt) (source + 0x500) tables in
      (
        boot_registers entry,
        final,
        pml4_start,
        rw
            (
              setup_linux_registers,
              low_read source total ms bound 0x7000 4096 host (omega arith),
              low_write source total ms bound (copy_out identity_tables 0 8192) 0xa000 host
                  (omega (arith, copy_out_all identity_tables 0 8192)),
              setup_registers,
              low_write source total ms bound (gdt_bytes gdt) 0x500 tables
                  (omega (arith, length-gdt)),
            )
            refl,
        refl,
        refl,
        λ va small.
            translate-identity_tables (λ a. final (source + a)) va
              (λ i inside.
                (copy_in_outside (gdt_bytes gdt) (source + 0x500) (source + (0xa000 + i)) tables
                    (inr (omega (arith, length-gdt)))
                  ∙ ap tables (omega arith)
                  ∙ copy_in-copy_out 8192 0 (source + 0xa000) i identity_tables host inside
                  ∙ ap identity_tables (omega arith)))
              small,
      )
