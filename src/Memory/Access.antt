-- ===== src/Memory/Access.antt =====
-- The copying accesses to guest memory: when they succeed, what they touch, and that a read gives
-- back what a write stored.
use whypa.Base.{
  ℕ, ◌+◌, ◌-◌, ◌^◌, ◌≤◌, ◌<◌, ◌≡◌, ap, ◌↔◌, ◌⊎◌, inl, inr, true, some, List, length, Option-cases,
  Host, copy_in, copy_out, copy_in_outside, copy_out-copy_in, sub64, ok, err, arith,
}
use whypa.Memory.{
  MemoryRegion, MemoryManager, exceeds_region, contains, write_perm, read_perm, find_region,
  write_guest_memory, read_guest_memory,
}
use whypa.Memory.Regions.{AllRegions, last_addr-eq, find_region-Holds}

-- An access of `n` bytes at `gpa` passes the checks and lands at `at` in the host's memory.
pub record Reaches (mem : MemoryManager) (perm gpa n : ℕ) : Type 0 where
  pub region : MemoryRegion
  pub hpa : ℕ
  pub found : find_region mem gpa ≡ some region
  pub permitted : contains region.perms perm ≡ true
  pub mapped : region.hpa ≡ some hpa
  pub above : region.gpa ≤ gpa
  pub below : gpa + n < region.gpa + region.size

abbrev pub at : {mem : MemoryManager} {perm gpa n : ℕ} → Reaches mem perm gpa n → ℕ
at {gpa = gpa} r = r.hpa + (gpa - r.region.gpa)

module _ (mem : MemoryManager) (v : AllRegions mem.regions) (gpa : ℕ) where
  pub Reaches-read :
      (host : Host) (n : ℕ) (r : Reaches mem read_perm gpa n)
      → gpa + n < 2 ^ 64
      → read_guest_memory mem host gpa n ≡ ok (copy_out host (at r) n)
  unfolding read_guest_memory
  Reaches-read host n r fits =
      let holds = find_region-Holds mem gpa {r = r.region} v r.found in
      let address : r.hpa + sub64 gpa r.region.gpa ≡ at r = omega (arith, r.above) in
      ground (
        arith,
        last_addr-eq r.region holds.0,
        ap (λ (p : ℕ). copy_out host p n) address,
        r.found,
        r.mapped,
        r.permitted,
        r.below,
      )

  module _ (code : List ℕ) (host : Host) (fits : gpa + length code < 2 ^ 64) where
    write-Reaches :
        {host' : Host}
        → write_guest_memory mem host code gpa ≡ ok host'
        → Reaches mem write_perm gpa (length code)
    unfolding write_guest_memory
    write-Reaches e = elim (Option-cases (find_region mem gpa)) [
      | inl nothing ↦ absurd (ground arith)
      | inr (r, found) ↦ elim (Option-cases r.hpa) [
        | inl unmapped ↦ absurd (ground (arith, find_region-Holds mem gpa {r = r} v found))
        | inr (hpa, mapped) ↦
            let holds = find_region-Holds mem gpa {r = r} v found in
            record {
              region = r;
              hpa = hpa;
              found = found;
              permitted = ground arith;
              mapped = mapped;
              above = holds.1.0;
              below = ground (arith, last_addr-eq r holds.0);
            }
      ]
    ]

    pub Reaches-write :
        (r : Reaches mem write_perm gpa (length code))
        → write_guest_memory mem host code gpa ≡ ok (copy_in code (at r) host)
    unfolding write_guest_memory
    Reaches-write r =
        let holds = find_region-Holds mem gpa {r = r.region} v r.found in
        let address : r.hpa + sub64 gpa r.region.gpa ≡ at r = omega (arith, r.above) in
        ground (arith, last_addr-eq r.region holds.0, ap (λ (p : ℕ). copy_in code p host) address)

    -- With well-formed regions and no overflow of the end address, a write succeeds exactly when
    -- the region that holds its first byte is writable, is backed by the host, and goes on beyond
    -- the last byte written; it then changes the host's memory at these bytes.
    pub write_guest_memory_iff :
        (host' : Host)
        → (write_guest_memory mem host code gpa ≡ ok host')
          ↔ ((r : Reaches mem write_perm gpa (length code)) × (host' ≡ copy_in code (at r) host))
    write_guest_memory_iff host' =
        (λ e. let r = write-Reaches e in (r, cc (Reaches-write r)), λ p. rw p.1 (Reaches-write p.0))

    -- With well-formed regions and no overflow of the end address, a successful write changes no
    -- byte of the host's memory outside the mapping of the region that holds its first byte.
    pub write_stays_inside :
        {host' : Host}
        → write_guest_memory mem host code gpa ≡ ok host'
        → (r : MemoryRegion) × (hpa : ℕ) × (find_region mem gpa ≡ some r)
          × (r.hpa ≡ some hpa)
          × ((a : ℕ) → (a < hpa) ⊎ (hpa + r.size ≤ a) → host' a ≡ host a)
    write_stays_inside {host'} e =
        let r = write-Reaches e in
        let landed : host' ≡ copy_in code (at r) host = cc (Reaches-write r) in
        (
          r.region,
          r.hpa,
          r.found,
          r.mapped,
          λ a out. rw landed (copy_in_outside code (at r) a host (omega (arith, r.above, r.below))),
        )

    -- With well-formed regions and no overflow of the end address, bytes that were written to a
    -- readable region are read back.
    pub read-write :
        {host' : Host}
        → write_guest_memory mem host code gpa ≡ ok host'
        → ((r : MemoryRegion) → find_region mem gpa ≡ some r → contains r.perms read_perm ≡ true)
        → read_guest_memory mem host' gpa (length code) ≡ ok code
    read-write {host'} e readable =
        let r = write-Reaches e in
        let landed : host' ≡ copy_in code (at r) host = cc (Reaches-write r) in
        let back : Reaches mem read_perm gpa (length code) = record {
          region = r.region;
          hpa = r.hpa;
          found = r.found;
          permitted = readable r.region r.found;
          mapped = r.mapped;
          above = r.above;
          below = r.below;
        } in
        rw (landed, Reaches-read (copy_in code (at r) host) (length code) back fits)
          (ap ok (copy_out-copy_in code (at r) host))

    -- With well-formed regions and no overflow of the end address, a write that ends with the last
    -- byte of its region is refused.
    pub write_last_byte :
        (r : MemoryRegion)
        → find_region mem gpa ≡ some r
        → gpa + length code ≡ r.gpa + r.size
        → write_guest_memory mem host code gpa ≡ err exceeds_region
    unfolding write_guest_memory
    write_last_byte r found ends =
        let holds = find_region-Holds mem gpa {r = r} v found in
        ground (arith, last_addr-eq r holds.0)
