-- ===== src/Buffers/Build.antt =====
-- `Reader::new` and `Writer::new` of src/devices/virtio/descriptor_utils.rs: where the slices lie
-- and how long they are.
use whypa.Base.{
  ℕ, ◌+◌, ◌-◌, ◌^◌, ◌≤◌, ◌<◌, ◌≡◌, refl, subst, inl, inr, some, Option-cases, List, [], ◌∷◌, length,
  ok, Result-cases, arith,
}
use whypa.Memory.{MemoryManager, MemoryRegion, find_region}
use whypa.Queue.Descriptor.{DescriptorChain}
use whypa.Buffers.Slice.{VolatileSlice, IsVolatileSlice, get_slice}
use whypa.Buffers.Consumer.{DescriptorChainConsumer, slices_of, consumer_of}
use whypa.Buffers.Flat.{addresses}
use whypa.Buffers.Consume.{left, length-addresses}

module _ {V : Type 0} (vs : VolatileSlice V) (law : IsVolatileSlice vs) where
  -- Each slice is its descriptor's range in the mapping of one region.
  unfoldable pub AreMapped : MemoryManager → List DescriptorChain → List V → Type 0
  AreMapped mem [] [] = mem ≡ mem
  AreMapped mem [] (v ∷ bufs) = 1 ≤ 0
  AreMapped mem (d ∷ descs) [] = 1 ≤ 0
  AreMapped mem (d ∷ descs) (v ∷ bufs) =
      ((region : MemoryRegion) × (hpa : ℕ) × (find_region mem d.addr ≡ some region)
        × (region.hpa ≡ some hpa)
        × (vs.ptr v ≡ hpa + (d.addr - region.gpa))
        × (vs.len v ≡ d.len)
        × (d.addr - region.gpa + d.len ≤ region.size))
      × AreMapped mem descs bufs

  get_slice-within :
      (region : MemoryRegion) (addr count : ℕ) (v : V)
      → get_slice vs region addr count ≡ ok v
      → (hpa : ℕ) × (region.hpa ≡ some hpa)
        × (vs.ptr v ≡ hpa + addr)
        × (vs.len v ≡ count)
        × (addr + count ≤ region.size)
  unfolding get_slice
  get_slice-within region addr count v e = elim (Option-cases region.hpa) [
    | inl unmapped ↦ absurd (ground arith)
    | inr (hpa, mapped) ↦ (
      hpa,
      mapped,
      ground (arith, law.ptr_new (hpa + addr) count),
      ground (arith, law.len_new (hpa + addr) count),
      ground arith,
    )
  ]

  slices_of-AreMapped :
      (mem : MemoryManager) (total_len : ℕ) (descs : List DescriptorChain) (bufs : List V)
      → total_len < 2 ^ 64
      → slices_of vs mem total_len descs ≡ ok bufs
      → AreMapped mem descs bufs × (total_len + length (addresses vs bufs) < 2 ^ 64)
  unfolding slices_of AreMapped
  slices_of-AreMapped mem total_len [] [] h e = (refl, unfold addresses in omega arith)
  slices_of-AreMapped mem total_len [] (v ∷ bufs) h e = absurd (ground arith)
  slices_of-AreMapped mem total_len (d ∷ descs) bufs h e =
      elim (Option-cases (find_region mem d.addr)) [
        | inl nothing ↦ absurd (ground arith)
        | inr (region, found) ↦
            elim (Result-cases (get_slice vs region (d.addr - region.gpa) d.len)) [
              | inr (e', refused) ↦ absurd (ground arith)
              | inl (v, got) ↦ elim (Result-cases (slices_of vs mem (total_len + d.len) descs)) [
                | inr (e', refused) ↦ absurd (ground arith)
                | inl (later, e_later) ↦
                    let small : total_len + d.len < 2 ^ 64 = ground arith in
                    let same : v ∷ later ≡ bufs = ground arith in
                    let w = get_slice-within region (d.addr - region.gpa) d.len v got in
                    let ih =
                      slices_of-AreMapped mem (total_len + d.len) descs later small e_later in
                    subst
                      (λ bs.
                        AreMapped mem (d ∷ descs) bs
                        × (total_len + length (addresses vs bs) < 2 ^ 64))
                      same
                      (
                        ((region, w.0, found, w.1, w.2, w.3, w.4), ih.0),
                        omega (arith, ih.1, w.3, length-addresses vs law v later),
                      )
              ]
            ]
      ]

  -- A reader or a writer starts with nothing consumed, its bytes lie in the mappings of regions,
  -- and there are less than 2 ^ 64 of them.
  pub consumer_of-AreMapped :
      (mem : MemoryManager) (descs : List DescriptorChain) (c : DescriptorChainConsumer V)
      → consumer_of vs mem descs ≡ ok c
      → AreMapped mem descs c.buffers
        × (c.bytes_consumed ≡ 0)
        × (c.bytes_consumed + left vs law c < 2 ^ 64)
  unfolding consumer_of
  consumer_of-AreMapped mem descs c e = elim (Result-cases (slices_of vs mem 0 descs)) [
    | inr (e', refused) ↦ absurd (ground arith)
    | inl (bufs, got) ↦
        let lem = slices_of-AreMapped mem 0 descs bufs (omega arith) got in
        subst
          (λ k.
            AreMapped mem descs k.buffers
            × (k.bytes_consumed ≡ 0)
            × (k.bytes_consumed + left vs law k < 2 ^ 64))
          (ground arith) (lem.0, refl, omega (arith, lem.1))
  ]
