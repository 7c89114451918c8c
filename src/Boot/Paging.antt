-- ===== src/Boot/Paging.antt =====
-- The tables of src/linux_boot.rs under the processor's walk of them.
use whypa.Base.{
  ℕ, zero, suc, ◌+◌, ◌*◌, ◌/◌, ◌%◌, ◌^◌, ◌<◌, ◌≤◌, ◌≡◌, refl, ap, ◌∙◌, ◌==◌, not, true,
  if◌then◌else◌, Option, none, some, ◌∷◌, to_le_bytes, from_le_bytes, Host, copy_in, copy_out,
  arith,
}
use whypa.Memory.Layout.{pml4_start}
use whypa.Boot.{tables_len, map_pages, identity_tables}

unfoldable pub entry_at : Host → ℕ → ℕ
entry_at physical a = from_le_bytes (copy_out physical a 8)

-- The walk of a 4-level table with pages of 1 GiB, as the processor's manual has it: bit 0 tells
-- that an entry is present, bit 7 that it is a page, and bits 12 and up are an address. Smaller
-- pages are not followed.
unfoldable pub page_of : ℕ → ℕ → ℕ → Option ℕ
page_of e4 e3 va =
    if not (e4 % 2 == 1)
    then none
    else if not (e3 % 2 == 1)
    then none
    else if not (e3 / 128 % 2 == 1)
    then none
    else some (e3 / 2 ^ 30 % 2 ^ 22 * 2 ^ 30 + va % 2 ^ 30)

unfoldable pub third_entry : Host → ℕ → ℕ → ℕ
third_entry physical e4 va = entry_at physical (e4 / 4096 % 2 ^ 40 * 4096 + 8 * (va / 2 ^ 30 % 512))

unfoldable pub translate : Host → ℕ → ℕ → Option ℕ
translate physical cr3 va =
    let e4 = entry_at physical (cr3 + 8 * (va / 2 ^ 39 % 512)) in
    page_of e4 (third_entry physical e4 va) va

copy_out_agree :
    (m m' : Host) (p k n len : ℕ)
    → ((i : ℕ) → i < len → m (p + i) ≡ m' i)
    → k + n ≤ len
    → copy_out m (p + k) n ≡ copy_out m' k n
unfolding copy_out
copy_out_agree m m' p k zero len agree h = refl
copy_out_agree m m' p k (suc n) len agree h =
    let next : p + k + 1 ≡ p + (k + 1) = omega arith in
    ap (λ b. b ∷ copy_out m (p + k + 1) n) (agree k (omega arith))
    ∙ ap (λ a. m' k ∷ copy_out m a n) next
    ∙ ap (λ bs. m' k ∷ bs) (copy_out_agree m m' p (k + 1) n len agree (omega arith))

first_entry : entry_at identity_tables 0 ≡ 0xb003
unfolding entry_at identity_tables map_pages copy_in copy_out to_le_bytes from_le_bytes
first_entry = refl

page_entry : (i : ℕ) → i < 4 → entry_at identity_tables (0x1000 + 8 * i) ≡ i * 2 ^ 30 + 0x83
unfolding entry_at identity_tables map_pages copy_in copy_out to_le_bytes from_le_bytes
page_entry zero h = refl
page_entry (suc zero) h = refl
page_entry (suc (suc zero)) h = refl
page_entry (suc (suc (suc zero))) h = refl
page_entry (suc (suc (suc (suc i)))) h = absurd (omega arith)

-- The third entry is present and a page.
page_of_page :
    (i va : ℕ) → i < 4 → page_of 0xb003 (i * 2 ^ 30 + 0x83) va ≡ some (i * 2 ^ 30 + va % 2 ^ 30)
unfolding page_of
page_of_page i va small =
    let present : ((i * 2 ^ 30 + 0x83) % 2 == 1) ≡ true = ground arith in
    let page : ((i * 2 ^ 30 + 0x83) / 128 % 2 == 1) ≡ true = ground arith in
    let base : (i * 2 ^ 30 + 0x83) / 2 ^ 30 % 2 ^ 22 ≡ i = omega arith in
    rw (present, page, base) refl

-- With the tables in place at their address, the processor takes every address below 4 GiB for
-- itself.
pub translate-identity_tables :
    (physical : Host) (va : ℕ)
    → ((i : ℕ) → i < tables_len → physical (pml4_start + i) ≡ identity_tables i)
    → va < 2 ^ 32
    → translate physical pml4_start va ≡ some va
unfolding translate
translate-identity_tables physical va agree h =
    let i = va / 2 ^ 30 in
    let small : i < 4 = omega arith in
    let root : va / 2 ^ 39 % 512 ≡ 0 = omega arith in
    let slot : va / 2 ^ 30 % 512 ≡ i = omega arith in
    let e4 : entry_at physical 0xa000 ≡ 0xb003 =
      unfold entry_at in
      ap from_le_bytes (copy_out_agree physical identity_tables 0xa000 0 8 8192 agree (omega arith))
      ∙ first_entry in
    let at : 0xb003 / 4096 % 2 ^ 40 * 4096 + 8 * i ≡ 0xa000 + (0x1000 + 8 * i) = omega arith in
    let e3 : entry_at physical (0xa000 + (0x1000 + 8 * i)) ≡ i * 2 ^ 30 + 0x83 =
      unfold entry_at in
      ap from_le_bytes
        (copy_out_agree physical identity_tables 0xa000 (0x1000 + 8 * i) 8 8192 agree (omega arith))
      ∙ page_entry i small in
    let root_at : 0xa000 + 8 * (va / 2 ^ 39 % 512) ≡ 0xa000 = omega (arith, root) in
    let top : entry_at physical (0xa000 + 8 * (va / 2 ^ 39 % 512)) ≡ 0xb003 =
      ap (entry_at physical) root_at ∙ e4 in
    let third : third_entry physical 0xb003 va ≡ i * 2 ^ 30 + 0x83 =
      unfold third_entry in (ap (entry_at physical) (omega (arith, at, slot)) ∙ e3) in
    ap (λ e. page_of e (third_entry physical e va) va) top
    ∙ ap (λ e. page_of 0xb003 e va) third
    ∙ page_of_page i va small
    ∙ ap some (omega arith)
