-- ===== src/Memory/Atomic.antt =====
-- The atomic accesses to guest memory, which check that the first byte is mapped and no more.
use whypa.Base.{
  ℕ, ◌+◌, ◌/◌, ◌%◌, ◌^◌, ◌<◌, ◌≡◌, inl, inr, true, some, Option-cases, Host, copy_in, copy_out,
  copy_out-copy_in, to_le_bytes, from_le_bytes, length-to_le_bytes, from_le_bytes-to_le_bytes,
  sub64, ok, arith,
}
use whypa.Memory.{
  MemoryRegion, MemoryManager, contains, write_perm, read_perm, find_region, store, load,
}
use whypa.Memory.Regions.{AllRegions, find_region-Holds}

-- The checks of an atomic access pass, and it lands at `at` in the host's memory.
pub record Admits (mem : MemoryManager) (perm gpa : ℕ) : Type 0 where
  pub region : MemoryRegion
  pub hpa : ℕ
  pub found : find_region mem gpa ≡ some region
  pub permitted : contains region.perms perm ≡ true
  pub mapped : region.hpa ≡ some hpa

abbrev pub at : {mem : MemoryManager} {perm gpa : ℕ} → Admits mem perm gpa → ℕ
at {gpa = gpa} r = r.hpa + sub64 gpa r.region.gpa

module _ (mem : MemoryManager) (host : Host) (gpa k val : ℕ) where
  pub store-Admits :
      {host' : Host} → store mem host k val gpa ≡ ok host' → Admits mem write_perm gpa
  unfolding store
  store-Admits e = elim (Option-cases (find_region mem gpa)) [
    | inl nothing ↦ absurd (ground arith)
    | inr (r, found) ↦ elim (Option-cases r.hpa) [
      | inl unmapped ↦ absurd (ground arith)
      | inr (hpa, mapped) ↦ record {
        region = r;
        hpa = hpa;
        found = found;
        permitted = ground arith;
        mapped = mapped;
      }
    ]
  ]

  pub Admits-store :
      (r : Admits mem write_perm gpa)
      → store mem host k val gpa ≡ ok (copy_in (to_le_bytes k val) (at r) host)
  unfolding store
  Admits-store r = ground (arith, r.found, r.mapped, r.permitted)

  pub Admits-load :
      (r : Admits mem read_perm gpa)
      → load mem host k gpa ≡ ok (from_le_bytes (copy_out host (at r) k))
  unfolding load
  Admits-load r = ground (arith, r.found, r.mapped, r.permitted)

  -- A number of `k` bytes that was stored in a readable region is loaded back.
  pub load-store :
      {host' : Host}
      → val < 256 ^ k
      → store mem host k val gpa ≡ ok host'
      → ((r : MemoryRegion) → find_region mem gpa ≡ some r → contains r.perms read_perm ≡ true)
      → load mem host' k gpa ≡ ok val
  unfolding load
  load-store {host'} small e readable =
      let r = store-Admits e in
      let landed : host' ≡ copy_in (to_le_bytes k val) (at r) host = cc (Admits-store r) in
      let back : copy_out (copy_in (to_le_bytes k val) (at r) host) (at r) k ≡ to_le_bytes k val =
        rw (length-to_le_bytes k val) at (copy_out-copy_in (to_le_bytes k val) (at r) host) in
      rw landed (
        ground (
          arith,
          back,
          from_le_bytes-to_le_bytes k val small,
          readable r.region r.found,
          r.found,
          r.mapped,
        ))

-- With well-formed regions, a two-byte store at the last byte of a region that is writable and
-- backed by the host succeeds, and puts its high byte just past the region's host mapping.
pub store_past_end :
    (mem : MemoryManager) (host : Host) (gpa val : ℕ) (r : MemoryRegion) (hpa : ℕ)
    → AllRegions mem.regions
    → find_region mem gpa ≡ some r
    → gpa + 1 ≡ r.gpa + r.size
    → contains r.perms write_perm ≡ true
    → r.hpa ≡ some hpa
    → (host' : Host) × (store mem host 2 val gpa ≡ ok host')
      × (host' (hpa + r.size) ≡ val / 256 % 256)
unfolding to_le_bytes copy_in
store_past_end mem host gpa val r hpa v found ends writable mapped =
    let admits : Admits mem write_perm gpa = record {
      region = r;
      hpa = hpa;
      found = found;
      permitted = writable;
      mapped = mapped;
    } in
    let holds = find_region-Holds mem gpa {r = r} v found in
    (
      copy_in (to_le_bytes 2 val) (at admits) host,
      Admits-store mem host gpa 2 val admits,
      ground arith,
    )
