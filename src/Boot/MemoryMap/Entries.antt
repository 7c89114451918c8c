-- ===== src/Boot/MemoryMap/Entries.antt =====
-- The entries of the memory map of `fill_boot_params` of src/linux_boot.rs, written and read one after
-- another.
use whypa.Base.{
  ℕ, zero, suc, ◌+◌, ◌*◌, ◌^◌, ◌<◌, ◌≤◌, ◌≡◌, refl, ap, ◌∙◌, sym, ◌⊎◌, inl, inr, Bool-cases, true,
  leb, List, [], ◌∷◌, ◌++◌, length, to_le_bytes, from_le_bytes, length-to_le_bytes,
  from_le_bytes-to_le_bytes, Host, copy_in, copy_out, copy_out-copy_in, copy_out-copy_in_outside,
  done, and_then, arith,
}
use whypa.Boot.Params.{E820Entry, write_e820, write_entries}

-- An entry as a kernel reads it: two numbers of 8 bytes and one of 4.
unfoldable pub read_entry : Host → ℕ → E820Entry
read_entry b offset = record {
  mem_addr = from_le_bytes (copy_out b offset 8);
  mem_size = from_le_bytes (copy_out b (offset + 8) 8);
  mem_type = from_le_bytes (copy_out b (offset + 16) 4);
}

unfoldable pub read_entries : ℕ → ℕ → Host → List E820Entry
read_entries zero offset b = []
read_entries (suc n) offset b = read_entry b offset ∷ read_entries n (offset + 20) b

abbrev pub IsEntry : E820Entry → Type 0
IsEntry e = (e.mem_addr < 2 ^ 64) × (e.mem_size < 2 ^ 64) × (e.mem_type < 2 ^ 32)

abbrev pub AllEntries : List E820Entry → Type 0
AllEntries [] = Unit {0}
AllEntries (e ∷ es) = IsEntry e × AllEntries es

unfoldable pub put_entry : E820Entry → ℕ → Host → Host
put_entry e offset params = copy_in (to_le_bytes 4 e.mem_type) (offset + 16) (
    copy_in (to_le_bytes 8 e.mem_size) (offset + 8)
      (copy_in (to_le_bytes 8 e.mem_addr) offset params))

unfoldable pub put_entries : List E820Entry → ℕ → Host → Host
put_entries [] offset params = params
put_entries (e ∷ es) offset params = put_entries es (offset + 20) (put_entry e offset params)

pub write_entries-put_entries :
    (es : List E820Entry) (offset : ℕ) (params : Host)
    → offset + 20 * length es ≤ 4096
    → write_entries es offset params ≡ done (put_entries es offset params)
unfolding write_entries write_e820 put_entries put_entry
write_entries-put_entries [] offset params fits = refl
write_entries-put_entries (e ∷ es) offset params fits =
    let here : leb (offset + 20) 4096 ≡ true = ground arith in
    rw (here, write_entries-put_entries es (offset + 20) (put_entry e offset params) (omega arith))
      refl

-- A number of `k` bytes that was stored is read back.
read_number :
    (k v at : ℕ) (b : Host)
    → v < 256 ^ k
    → from_le_bytes (copy_out (copy_in (to_le_bytes k v) at b) at k) ≡ v
read_number k v at b small =
    ap (λ n. from_le_bytes (copy_out (copy_in (to_le_bytes k v) at b) at n))
      (sym (length-to_le_bytes k v))
    ∙ ap from_le_bytes (copy_out-copy_in (to_le_bytes k v) at b)
    ∙ from_le_bytes-to_le_bytes k v small

-- A range beside a number that is stored reads as before.
beside :
    (k v at from n : ℕ) (b : Host)
    → (from + n ≤ at) ⊎ (at + k ≤ from)
    → copy_out (copy_in (to_le_bytes k v) at b) from n ≡ copy_out b from n
beside k v at from n b apart =
    copy_out-copy_in_outside (to_le_bytes k v) at from n b (rw (length-to_le_bytes k v) apart)

read_entry-put_entry :
    (e : E820Entry) (offset : ℕ) (b : Host)
    → IsEntry e
    → read_entry (put_entry e offset b) offset ≡ e
unfolding read_entry put_entry
read_entry-put_entry e offset b fits =
    let low = copy_in (to_le_bytes 8 e.mem_addr) offset b in
    let mid = copy_in (to_le_bytes 8 e.mem_size) (offset + 8) low in
    let addr =
      ap from_le_bytes (
        beside 4 e.mem_type (offset + 16) offset 8 mid (omega arith)
        ∙ beside 8 e.mem_size (offset + 8) offset 8 low (omega arith))
      ∙ read_number 8 e.mem_addr offset b (omega arith) in
    let size =
      ap from_le_bytes (beside 4 e.mem_type (offset + 16) (offset + 8) 8 mid (omega arith))
      ∙ read_number 8 e.mem_size (offset + 8) low (omega arith) in
    let kind = read_number 4 e.mem_type (offset + 16) mid (omega arith) in cc (addr, size, kind)

put_entry_outside :
    (e : E820Entry) (offset from n : ℕ) (b : Host)
    → (from + n ≤ offset) ⊎ (offset + 20 ≤ from)
    → copy_out (put_entry e offset b) from n ≡ copy_out b from n
unfolding put_entry
put_entry_outside e offset from n b apart =
    let low = copy_in (to_le_bytes 8 e.mem_addr) offset b in
    beside 4 e.mem_type (offset + 16) from n (copy_in (to_le_bytes 8 e.mem_size) (offset + 8) low)
      (omega arith)
    ∙ beside 8 e.mem_size (offset + 8) from n low (omega arith)
    ∙ beside 8 e.mem_addr offset from n b (omega arith)

put_entries_outside :
    (es : List E820Entry) (offset from n : ℕ) (b : Host)
    → (from + n ≤ offset) ⊎ (offset + 20 * length es ≤ from)
    → copy_out (put_entries es offset b) from n ≡ copy_out b from n
unfolding put_entries
put_entries_outside [] offset from n b apart = refl
put_entries_outside (e ∷ es) offset from n b apart =
    put_entries_outside es (offset + 20) from n (put_entry e offset b) (omega arith)
    ∙ put_entry_outside e offset from n b (omega arith)

pub read_entries-put_entries :
    (es : List E820Entry) (offset : ℕ) (b : Host)
    → AllEntries es
    → read_entries (length es) offset (put_entries es offset b) ≡ es
unfolding read_entries put_entries
read_entries-put_entries [] offset b fits = refl
read_entries-put_entries (e ∷ es) offset b fits =
    let b' = put_entry e offset b in
    let kept = λ (from n : ℕ) (before : from + n ≤ offset + 20).
      put_entries_outside es (offset + 20) from n b' (inl before) in
    let same : read_entry (put_entries es (offset + 20) b') offset ≡ read_entry b' offset =
      unfold read_entry in
      cc (
        kept offset 8 (omega arith),
        kept (offset + 8) 8 (omega arith),
        kept (offset + 16) 4 (omega arith),
      ) in
    cc (
      same,
      read_entry-put_entry e offset b fits.0,
      read_entries-put_entries es (offset + 20) b' fits.1,
    )

pub write_entries-append :
    (es fs : List E820Entry) (offset : ℕ) (b : Host)
    → and_then (write_entries es offset b) (write_entries fs (offset + 20 * length es))
      ≡ write_entries (es ++ fs) offset b
unfolding write_entries write_e820 put_entry
write_entries-append [] fs offset b = ap (λ o. write_entries fs o b) (omega arith)
write_entries-append (e ∷ es) fs offset b = elim (Bool-cases (leb (offset + 20) 4096)) [
  | inl here ↦
      let next : offset + 20 * length (e ∷ es) ≡ offset + 20 + 20 * length es = omega arith in
      unfold put_entry in
      rw (here, next) (write_entries-append es fs (offset + 20) (put_entry e offset b))
  | inr past ↦ rw past refl
]

pub read_entries-before :
    (n offset : ℕ) (bs : List ℕ) (p : ℕ) (b : Host)
    → p + length bs ≤ offset
    → read_entries n offset (copy_in bs p b) ≡ read_entries n offset b
unfolding read_entries read_entry
read_entries-before zero offset bs p b before = refl
read_entries-before (suc n) offset bs p b before = cc (
  copy_out-copy_in_outside bs p offset 8 b (inr before),
  copy_out-copy_in_outside bs p (offset + 8) 8 b (inr (omega arith)),
  copy_out-copy_in_outside bs p (offset + 16) 4 b (inr (omega arith)),
  read_entries-before n (offset + 20) bs p b (omega arith),
)
