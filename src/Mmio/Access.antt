-- ===== src/Mmio/Access.antt =====
-- The registers of the transport. The four bytes of an access are a number below 2 ^ 32.
use whypa.Base.{
  ℕ, ◌-◌, ◌^◌, ◌==◌, ltb, leb, if◌then◌else◌, ◌&&◌, Option, none, some, List, [], ◌∷◌, length,
  get_elem?, bit_and, bit_or, complement, u16, u32, ◌<<<◌, ◌>>>◌, to_le_bytes, from_le_bytes,
  Outcome, done, and_then,
}
use whypa.Queue.Vring.{Queue}
use whypa.IoApic.Device.{InterruptTypes}
use whypa.Mmio.Device.{VirtioDevice, VirtioShmRegion, avail_features_by_page, ack_features_by_page}
use whypa.Mmio.Transport.{
  MmioTransport, driver, driver_ok, features_ok, failed, try_clear_irq, check_device_status,
  with_queue, update_queue_field, set_device_status,
}

abbrev pub vendor_id : ℕ
vendor_id = 0

abbrev pub mmio_magic_value : ℕ
mmio_magic_value = 0x7472_6976

abbrev pub mmio_version : ℕ
mmio_version = 2

abbrev pub hi : ℕ → ℕ → ℕ
hi v x = bit_or (bit_and v 0xffff_ffff) (x <<< 32)

abbrev pub lo : ℕ → ℕ → ℕ
lo v x = bit_or (bit_and v (complement 64 0xffff_ffff)) x

-- The address and the length that the registers of the shared memory region show.
unfoldable pub shm_span : ℕ → Option VirtioShmRegion → ℕ × ℕ
shm_span shm_region_select none = (0, 2 ^ 64 - 1)
shm_span shm_region_select (some region) =
    if ltb 1 shm_region_select then (0, 2 ^ 64 - 1) else (region.guest_addr, region.size)

module _ {D : Type 0} (dev : VirtioDevice D) where
  -- The value of a register, where there is one.
  unfoldable pub register : MmioTransport D → ℕ → Option ℕ
  register t offset =
      let span = shm_span t.shm_region_select (dev.shm_region t.device) in
      let features = avail_features_by_page dev t.device t.features_select in
      if offset == 0x0
      then some mmio_magic_value
      else if offset == 0x04
      then some mmio_version
      else if offset == 0x08
      then some (dev.device_type t.device)
      else if offset == 0x0c
      then some vendor_id
      else if offset == 0x10
      then some (if t.features_select == 1 then bit_or features 0x1 else features)
      else if offset == 0x34
      then some (with_queue t 0 (λ q. q.max_size))
      else if offset == 0x44
      then some (with_queue t 0 (λ q. if q.ready then 1 else 0))
      else if offset == 0x60
      then some (u32 t.status)
      else if offset == 0x70
      then some t.device_status
      else if offset == 0xfc
      then some t.config_generation
      else if offset == 0xb0
      then some (u32 span.1)
      else if offset == 0xb4
      then some (u32 (span.1 >>> 32))
      else if offset == 0xb8
      then some (u32 span.0)
      else if offset == 0xbc
      then some (u32 (span.0 >>> 32))
      else if leb 0xb0 offset && leb offset 0xbc
      then some 0
      else none

  unfoldable pub read : MmioTransport D → ℕ → List ℕ → List ℕ
  read t offset buf =
      if leb offset 0xff && length buf == 4
      then elim (register t offset) [ none ↦ buf | some v ↦ to_le_bytes 4 v ]
      else if leb 0x100 offset && leb offset 0xfff
      then dev.read_config t.device (offset - 0x100) buf
      else buf

  unfoldable pub ack_features : MmioTransport D → ℕ → MmioTransport D
  ack_features t v =
      if check_device_status t driver (bit_or features_ok failed)
      then record t { device = ack_features_by_page dev t.device t.acked_features_select v }
      else t

module _ {D : Type 0} where
  unfoldable pub notify_queue : MmioTransport D → ℕ → MmioTransport D
  notify_queue t v = elim (get_elem? t.queue_evts v) [
    | none ↦ t
    | some event ↦ record t { signals = event ∷ t.signals }
  ]

module _ {D : Type 0} (types : InterruptTypes) where
  unfoldable pub ack_interrupt : MmioTransport D → ℕ → MmioTransport D
  ack_interrupt t v =
      let left = bit_and t.status (complement 64 v) in
      let acked : MmioTransport D = record t { status = left } in
      if check_device_status t driver_ok 0
      then (if left == 0 then try_clear_irq types acked else acked)
      else t

module _ {D : Type 0} (dev : VirtioDevice D) (types : InterruptTypes) (ring_f_event_idx : ℕ) where
  -- A write of the number `v` to a register.
  unfoldable pub write_register : MmioTransport D → ℕ → ℕ → Outcome (MmioTransport D)
  write_register t offset v =
      let update = update_queue_field t in
      if offset == 0x14
      then done (record t { features_select = v })
      else if offset == 0x20
      then done (ack_features dev t v)
      else if offset == 0x24
      then done (record t { acked_features_select = v })
      else if offset == 0x30
      then done (record t { queue_select = v })
      else if offset == 0x38
      then done (update (λ (q : Queue). record q { size = u16 v }))
      else if offset == 0x44
      then done (update (λ (q : Queue). record q { ready = v == 1 }))
      else if offset == 0x50
      then done (notify_queue t v)
      else if offset == 0x64
      then done (ack_interrupt types t v)
      else if offset == 0x70
      then set_device_status dev ring_f_event_idx t v
      else if offset == 0x80
      then done (update (λ (q : Queue). record q { desc_table = lo q.desc_table v }))
      else if offset == 0x84
      then done (update (λ (q : Queue). record q { desc_table = hi q.desc_table v }))
      else if offset == 0x90
      then done (update (λ (q : Queue). record q { avail_ring = lo q.avail_ring v }))
      else if offset == 0x94
      then done (update (λ (q : Queue). record q { avail_ring = hi q.avail_ring v }))
      else if offset == 0xa0
      then done (update (λ (q : Queue). record q { used_ring = lo q.used_ring v }))
      else if offset == 0xa4
      then done (update (λ (q : Queue). record q { used_ring = hi q.used_ring v }))
      else if offset == 0xac
      then done (record t { shm_region_select = v })
      else done t

  unfoldable pub write : MmioTransport D → ℕ → List ℕ → Outcome (MmioTransport D)
  write t offset buf =
      if leb offset 0xff && length buf == 4
      then write_register t offset (from_le_bytes buf)
      else if leb 0x100 offset && leb offset 0xfff
      then done (
          if check_device_status t driver failed
          then record t { device = dev.write_config t.device (offset - 0x100) buf }
          else t)
      else done t

  -- The writes of the guest, one after another.
  unfoldable pub run : MmioTransport D → List (ℕ × List ℕ) → Outcome (MmioTransport D)
  run t [] = done t
  run t (access ∷ rest) = and_then (write t access.0 access.1) (λ u. run u rest)
