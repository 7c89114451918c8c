-- ===== src/Mmio/Writes.antt =====
-- What all writes to the registers keep: a property of the status, the queues and their
-- configuration that updates of a queue and status changes keep, every write keeps.
use whypa.Base.{
  ℕ, ◌==◌, Bool-cases, inl, inr, Option, none, some, Option-cases, List, [], ◌∷◌, set, get_elem?,
  bit_and, bit_or, complement, u16, from_le_bytes, Each, and_then-Each, arith,
}
use whypa.Queue.Vring.{Queue}
use whypa.IoApic.Device.{InterruptTypes}
use whypa.Mmio.Device.{VirtioDevice, QueueConfig}
use whypa.Mmio.Transport.{
  MmioTransport, update_selected, modify_at, driver, driver_ok, features_ok, failed,
  check_device_status, with_queue_mut, update_queue_field, set_device_status,
}
use whypa.Mmio.Access.{
  lo, hi, notify_queue, ack_interrupt, ack_features, write_register, write, run,
}

update_selected-kept :
    (R : ℕ → Option (List Queue) → List QueueConfig → Type 0)
    → ((ds i : ℕ) (qs : List Queue) (q : Queue) (c : List QueueConfig)
        → R ds (some qs) c
        → R ds (some (set qs i q)) c)
    → (ds i : ℕ) (f : Queue → Queue) (queues : Option (List Queue)) (c : List QueueConfig)
    → R ds queues c
    → R ds (update_selected f i queues) c
unfolding update_selected modify_at
update_selected-kept R kept ds i f none c h = h
update_selected-kept R kept ds i f (some qs) c h = elim (Option-cases (get_elem? qs i)) [
  | inl e ↦ rw (modify_at, e) h
  | inr (q, e) ↦ rw (modify_at, e) (kept ds i qs (f q) c h)
]

module _ {D : Type 0} (R : ℕ → Option (List Queue) → List QueueConfig → Type 0) where
  abbrev pub Keeps : MmioTransport D → Type 0
  Keeps t = R t.device_status t.queues t.queue_config

  module _
      (kept : (ds i : ℕ) (qs : List Queue) (q : Queue) (c : List QueueConfig)
        → R ds (some qs) c
        → R ds (some (set qs i q)) c) where
    update_queue_field-Keeps :
        (t : MmioTransport D) (f : Queue → Queue) → Keeps t → Keeps (update_queue_field t f)
    unfolding update_queue_field with_queue_mut
    update_queue_field-Keeps t f h = elim (Bool-cases (check_device_status t features_ok failed)) [
      | inl e ↦
          rw e
            (update_selected-kept R kept t.device_status t.queue_select f t.queues t.queue_config h)
      | inr e ↦ rw e h
    ]

    module _ (dev : VirtioDevice D) (types : InterruptTypes) (ring_f_event_idx : ℕ) where
      ack_features-Keeps : (t : MmioTransport D) (v : ℕ) → Keeps t → Keeps (ack_features dev t v)
      unfolding ack_features
      ack_features-Keeps t v h =
          elim (Bool-cases (check_device_status t driver (bit_or features_ok failed))) [
            | inl e ↦ rw e h
            | inr e ↦ rw e h
          ]

      ack_interrupt-Keeps :
          (t : MmioTransport D) (v : ℕ) → Keeps t → Keeps (ack_interrupt types t v)
      unfolding ack_interrupt
      ack_interrupt-Keeps t v h = elim (Bool-cases (check_device_status t driver_ok 0)) [
        | inr e ↦ rw e h
        | inl e ↦ elim (Bool-cases (bit_and t.status (complement 64 v) == 0)) [
          | inl f ↦ rw (e, f) h
          | inr f ↦ rw (e, f) h
        ]
      ]

      notify_queue-Keeps : (t : MmioTransport D) (v : ℕ) → Keeps t → Keeps (notify_queue t v)
      unfolding notify_queue
      notify_queue-Keeps t v h = elim (Option-cases (get_elem? t.queue_evts v)) [
        | inl e ↦ rw (notify_queue, e) h
        | inr (q, e) ↦ rw (notify_queue, e) h
      ]

      write_register-Keeps :
          (t : MmioTransport D) (offset v : ℕ)
          → Keeps t
          → Each Keeps (set_device_status dev ring_f_event_idx t v)
          → Each Keeps (write_register dev types ring_f_event_idx t offset v)
      unfolding write_register
      write_register-Keeps t offset v h status = ground (
        arith,
        ack_features-Keeps t v h,
        ack_interrupt-Keeps t v h,
        notify_queue-Keeps t v h,
        update_queue_field-Keeps t (λ (q : Queue). record q { size = u16 v }) h,
        update_queue_field-Keeps t (λ (q : Queue). record q { ready = v == 1 }) h,
        update_queue_field-Keeps t (λ (q : Queue). record q { desc_table = lo q.desc_table v }) h,
        update_queue_field-Keeps t (λ (q : Queue). record q { desc_table = hi q.desc_table v }) h,
        update_queue_field-Keeps t (λ (q : Queue). record q { avail_ring = lo q.avail_ring v }) h,
        update_queue_field-Keeps t (λ (q : Queue). record q { avail_ring = hi q.avail_ring v }) h,
        update_queue_field-Keeps t (λ (q : Queue). record q { used_ring = lo q.used_ring v }) h,
        update_queue_field-Keeps t (λ (q : Queue). record q { used_ring = hi q.used_ring v }) h,
      )

      -- A property that queue updates and the change of the status keep, the write keeps.
      pub write-Keeps :
          (t : MmioTransport D) (offset : ℕ) (buf : List ℕ)
          → Keeps t
          → Each Keeps (set_device_status dev ring_f_event_idx t (from_le_bytes buf))
          → Each Keeps (write dev types ring_f_event_idx t offset buf)
      unfolding write
      write-Keeps t offset buf h status =
          ground (arith, write_register-Keeps t offset (from_le_bytes buf) h status)

      pub run-Keeps :
          ((t : MmioTransport D) (v : ℕ)
            → Keeps t
            → Each Keeps (set_device_status dev ring_f_event_idx t v))
          → (t : MmioTransport D) (accesses : List (ℕ × List ℕ)) → Keeps t
          → Each Keeps (run dev types ring_f_event_idx t accesses)
      unfolding run
      run-Keeps status t [] h = h
      run-Keeps status t (access ∷ rest) h =
          and_then-Each Keeps Keeps (write dev types ring_f_event_idx t access.0 access.1) _
            (write-Keeps t access.0 access.1 h (status t (from_le_bytes access.1) h))
            (λ u k. run-Keeps status u rest k)
