-- ===== src/Acpi/Tables.antt =====
-- Where the tables of `create_acpi_tables_internal` of src/acpi.rs stand when their bytes are in memory.
use whypa.Base.{
  ℕ, ◌+◌, ◌^◌, ◌<◌, ◌≡◌, refl, ap, ◌∙◌, sym, inl, lt→ltb, ◌==◌, if◌then◌else◌, List, [], ◌∷◌, ◌++◌,
  length, Host, copy_in, copy_out, copy_out-copy_in, copy_out-copy_in_outside, done, arith,
}
use whypa.Machine.{DeviceManager}
use whypa.Boot.Params.{codes}
use whypa.Acpi.{
  SdtOps, IsSdt, create_dsdt_table, create_facp_table, create_madt, create_mcfg_table, create_xsdt,
  create_acpi_tables_internal, address_after,
}

copy_in-append :
    (xs ys : List ℕ) (p : ℕ) (m : Host)
    → copy_in (xs ++ ys) p m ≡ copy_in ys (p + length xs) (copy_in xs p m)
unfolding copy_in
copy_in-append [] ys p m = ap (λ q. copy_in ys q m) (omega arith)
copy_in-append (x ∷ xs) ys p m =
    copy_in-append xs ys (p + 1) (λ a. if a == p then x else m a)
    ∙ ap (λ q. copy_in ys q (copy_in xs (p + 1) (λ a. if a == p then x else m a))) (omega arith)

-- What begins a text that is copied is read at its place.
read_front :
    (xs ys : List ℕ) (p : ℕ) (m : Host) → copy_out (copy_in (xs ++ ys) p m) p (length xs) ≡ xs
read_front xs ys p m =
    ap (λ (h : Host). copy_out h p (length xs)) (copy_in-append xs ys p m)
    ∙ copy_out-copy_in_outside ys (p + length xs) p (length xs) (copy_in xs p m) (inl (omega arith))
    ∙ copy_out-copy_in xs p m

module _ {T : Type 0} (sdt : SdtOps T) (law : IsSdt sdt) (dsdt_addr cpus : ℕ) (aml : List ℕ)
    (d : DeviceManager) where
  abbrev pub facp : T
  facp = create_facp_table sdt dsdt_addr d

  abbrev pub madt : T
  madt = create_madt sdt cpus

  abbrev pub mcfg : T
  mcfg = create_mcfg_table sdt d.pci_segments

  abbrev pub Stands : Host → ℕ → T → Type 0
  Stands m at t = copy_out m at (sdt.len t) ≡ sdt.as_slice t

  after :
      (at : ℕ) (t : T) → at + sdt.len t < 2 ^ 64 → address_after sdt at t ≡ done (at + sdt.len t)
  after at t fits = rw (address_after, lt→ltb (at + sdt.len t) (2 ^ 64) fits) refl

  front : (t : T) (ys : List ℕ) (p : ℕ) (m : Host) → Stands (copy_in (sdt.as_slice t ++ ys) p m) p t
  front t ys p m =
      ap (copy_out (copy_in (sdt.as_slice t ++ ys) p m) p) (law.len-as_slice t)
      ∙ read_front (sdt.as_slice t) ys p m

  -- Behind a table the rest is read as if it were copied by itself.
  behind :
      (t : T) (ys : List ℕ) (p q n : ℕ) (m : Host)
      → copy_out (copy_in (sdt.as_slice t ++ ys) p m) q n
        ≡ copy_out (copy_in ys (p + sdt.len t) (copy_in (sdt.as_slice t) p m)) q n
  behind t ys p q n m =
      ap (λ (h : Host). copy_out h q n)
        (copy_in-append (sdt.as_slice t) ys p m
          ∙ ap (λ k. copy_in ys (p + k) (copy_in (sdt.as_slice t) p m)) (sym (law.len-as_slice t)))

  -- The tables end within 64 bits. When the bytes of all are in memory from `dsdt_addr` on, the three
  -- pointers lead to the tables of the platform, the processors and the PCI segments, the RSDP leads
  -- to the XSDT, and that is made of these pointers.
  pub create_acpi_tables_internal_lem :
      (host : Host)
      → dsdt_addr + sdt.len (create_dsdt_table sdt aml) + sdt.len facp + sdt.len madt + sdt.len mcfg
        < 2 ^ 64
      → (f a c x : ℕ) × (bytes : List ℕ) × (create_acpi_tables_internal sdt dsdt_addr aml cpus d
          ≡ done (sdt.rsdp_new (codes "CLOUDH") x, bytes, f ∷ a ∷ c ∷ []))
        × Stands (copy_in bytes dsdt_addr host) dsdt_addr (create_dsdt_table sdt aml)
        × Stands (copy_in bytes dsdt_addr host) f facp
        × Stands (copy_in bytes dsdt_addr host) a madt
        × Stands (copy_in bytes dsdt_addr host) c mcfg
        × Stands (copy_in bytes dsdt_addr host) x (create_xsdt sdt (f ∷ a ∷ c ∷ []))
  unfolding create_acpi_tables_internal
  create_acpi_tables_internal_lem host fits =
      let dsdt = create_dsdt_table sdt aml in
      let f = dsdt_addr + sdt.len dsdt in
      let a = f + sdt.len facp in
      let c = a + sdt.len madt in
      let x = c + sdt.len mcfg in
      let xsdt = create_xsdt sdt (f ∷ a ∷ c ∷ []) in
      let b₄ = sdt.as_slice xsdt in
      let b₃ = sdt.as_slice mcfg ++ b₄ in
      let b₂ = sdt.as_slice madt ++ b₃ in
      let b₁ = sdt.as_slice facp ++ b₂ in
      let m₁ = copy_in (sdt.as_slice dsdt) dsdt_addr host in
      let m₂ = copy_in (sdt.as_slice facp) f m₁ in
      let m₃ = copy_in (sdt.as_slice madt) a m₂ in
      let m₄ = copy_in (sdt.as_slice mcfg) c m₃ in
      (
        f,
        a,
        c,
        x,
        sdt.as_slice dsdt ++ b₁,
        rw
            (
              create_acpi_tables_internal,
              after dsdt_addr dsdt (omega (arith, fits)),
              after f facp (omega (arith, fits)),
              after a madt (omega (arith, fits)),
              after c mcfg fits,
            )
            refl,
        front dsdt b₁ dsdt_addr host,
        behind dsdt b₁ dsdt_addr f (sdt.len facp) host ∙ front facp b₂ f m₁,
        behind dsdt b₁ dsdt_addr a (sdt.len madt) host
            ∙ behind facp b₂ f a (sdt.len madt) m₁
            ∙ front madt b₃ a m₂,
        behind dsdt b₁ dsdt_addr c (sdt.len mcfg) host
            ∙ behind facp b₂ f c (sdt.len mcfg) m₁
            ∙ behind madt b₃ a c (sdt.len mcfg) m₂
            ∙ front mcfg b₄ c m₃,
        behind dsdt b₁ dsdt_addr x (sdt.len xsdt) host
            ∙ behind facp b₂ f x (sdt.len xsdt) m₁
            ∙ behind madt b₃ a x (sdt.len xsdt) m₂
            ∙ behind mcfg b₄ c x (sdt.len xsdt) m₃
            ∙ ap (copy_out (copy_in b₄ x m₄) x) (law.len-as_slice xsdt)
            ∙ copy_out-copy_in b₄ x m₄,
      )
