-- ===== src/Mmio/Status.antt =====
-- What a sequence of register accesses does to the device status and to the queues.
use whypa.Base.{
  ℕ, ◌≡◌, refl, ap, ◌∙◌, ◌==◌, Bool, Bool-cases, true, false, not, ◌&&◌, inl, inr, Option, none,
  some, List, length, length-set, length-map, bit_and, bit_or, complement, from_le_bytes, Outcome,
  done, panic, Each, Each-done, arith,
}
use whypa.Base.Bits.{bit, bit-bit_and, bit-two_pow, bit_raise, bit_test}
use whypa.Queue.Vring.{Queue, new as new_queue}
use whypa.IoApic.Device.{InterruptTypes}
use whypa.Mmio.Device.{VirtioDevice, QueueConfig}
use whypa.Mmio.Transport.{
  MmioTransport, activated, activate_queues, failed, create_queues, reset, activate, reset_device,
  set_device_status, other_status,
}
use whypa.Mmio.Access.{write, run}
use whypa.Mmio.Writes.{write-Keeps, run-Keeps}

-- A transport marked as failed stays so.
unfoldable pub is_failed : ℕ → Bool
is_failed status = bit status 7

both_eq : (a x b y : ℕ) → (a == x && b == y) ≡ true → (a ≡ x) × (b ≡ y)
both_eq a x b y e = (ground arith, ground arith)

-- The statuses of the handshake have neither DRIVER_OK nor FAILED.
before_last : ℕ → Bool
before_last n = not (bit n 2) && not (bit n 7)

fixed_bits : (n : ℕ) → before_last n ≡ true → (bit n 2 ≡ false) × (bit n 7 ≡ false)
unfolding before_last
fixed_bits n e = (ground arith, ground arith)

new_bit : (old v : ℕ) → bit_and (complement 32 old) v ≡ 4 → bit v 2 ≡ true
new_bit old v e =
    let both : bit (bit_and (complement 32 old) v) 2 ≡ bit 4 2 = ap (λ x. bit x 2) e in
    ground (arith, both, bit-bit_and (complement 32 old) v 2, bit-two_pow 2 2)

module _ {D : Type 0} (dev : VirtioDevice D) (ring_f_event_idx : ℕ) where
  activated-Each :
      (P : MmioTransport D → Type 0) (t : MmioTransport D) (o : Outcome D)
      → ((d : D) → P (record t { device = d; queues = none }))
      → Each P (activated dev ring_f_event_idx t o)
  unfolding activated
  activated-Each P t panic given = refl
  activated-Each P t (done d) given = given d

  activate_queues-Each :
      (P : MmioTransport D → Type 0) (t : MmioTransport D) (queues : Option (List Queue))
      → P t
      → ((d : D) → P (record t { device = d; queues = none }))
      → Each P (activate_queues dev ring_f_event_idx t queues)
  unfolding activate_queues
  activate_queues-Each P t none same given = same
  activate_queues-Each P t (some queues) same given = activated-Each P t _ given

  -- Activation leaves the transport alone or takes its queues away.
  activate-Each :
      (P : MmioTransport D → Type 0) (t : MmioTransport D)
      → P t
      → ((d : D) → P (record t { device = d; queues = none }))
      → Each P (activate dev ring_f_event_idx t)
  unfolding activate
  activate-Each P t same given = activate_queues-Each P t t.queues same given

  reset_device-failed :
      (t : MmioTransport D)
      → is_failed t.device_status ≡ true
      → is_failed (reset_device dev ring_f_event_idx t).device_status ≡ true
  unfolding reset_device is_failed
  reset_device-failed t h = ground (
    arith,
    bit_test t.device_status 7,
    bit_test (bit_or t.device_status failed) 7,
    bit_raise t.device_status 7 7,
  )

  other_status-rule :
      (P : MmioTransport D → Type 0) (t : MmioTransport D) (v : ℕ)
      → P (record t { device_status = bit_or t.device_status failed })
      → P (reset_device dev ring_f_event_idx t)
      → P t
      → P (other_status dev ring_f_event_idx t v)
  unfolding other_status
  other_status-rule P t v fails resets stays = elim (Bool-cases (bit_and v failed == 0)) [
    | inr e ↦ rw e fails
    | inl e ↦ elim (Bool-cases (v == 0)) [ inl f ↦ rw (e, f) resets | inr f ↦ rw (e, f) stays ]
  ]

  -- Every write to the status register ends in one of five ways.
  pub set_device_status-Each :
      (P : MmioTransport D → Type 0) (t : MmioTransport D) (v : ℕ)
      → (bit t.device_status 2 ≡ false
          → bit t.device_status 7 ≡ false
          → P (record t { device_status = v }))
      → ((d : D)
          → t.device_status ≡ 11
          → dev.is_activated t.device ≡ false
          → bit v 2 ≡ true
          → P (record t { device_status = v; device = d; queues = none }))
      → P (record t { device_status = bit_or t.device_status failed })
      → P (reset_device dev ring_f_event_idx t)
      → P t
      → Each P (set_device_status dev ring_f_event_idx t v)
  unfolding set_device_status before_last bit
  set_device_status-Each P t v moves activates fails resets stays =
      let moved = λ (n : ℕ) (low : (bit n 2 ≡ false) × (bit n 7 ≡ false)) (e : t.device_status ≡ n).
        moves (ap (λ x. bit x 2) e ∙ low.0) (ap (λ x. bit x 7) e ∙ low.1) in
      let changed = bit_and (complement 32 t.device_status) v in
      elim (Bool-cases (changed == 1 && t.device_status == 0)) [
        | inl e ↦ rw e (moved 0 (fixed_bits 0 refl) (both_eq changed 1 t.device_status 0 e).1)
        | inr a ↦ elim (Bool-cases (changed == 2 && t.device_status == 1)) [
          | inl e ↦
              rw (a, e) (moved 1 (fixed_bits 1 refl) (both_eq changed 2 t.device_status 1 e).1)
          | inr b ↦ elim (Bool-cases (changed == 8 && t.device_status == 3)) [
            | inl e ↦
                rw (a, b, e) (moved 3 (fixed_bits 3 refl) (both_eq changed 8 t.device_status 3 e).1)
            | inr c ↦ elim (Bool-cases (changed == 4 && t.device_status == 11)) [
              | inr d ↦ rw (a, b, c, d) (other_status-rule P t v fails resets stays)
              | inl e ↦
                  let at_last = (both_eq changed 4 t.device_status 11 e).1 in
                  rw (a, b, c, e)
                    (elim (Bool-cases (dev.is_activated t.device)) [
                      | inl f ↦ rw f (moved 11 (fixed_bits 11 refl) at_last)
                      | inr f ↦ rw f (
                          activate-Each P (record t { device_status = v })
                            (moved 11 (fixed_bits 11 refl) at_last)
                            (λ d. activates d at_last f (
                              new_bit t.device_status v
                                (both_eq changed 4 t.device_status 11 e).0)))
                    ])
            ]
          ]
        ]
      ]

-- The transport has one queue for each configuration, or has handed them over, which it does only
-- with DRIVER_OK set.
unfoldable pub OwnsQueues : ℕ → Option (List Queue) → List QueueConfig → Type 0
OwnsQueues status none configs = bit status 2 ≡ true
OwnsQueues status (some queues) configs = length queues ≡ length configs

abbrev pub IsTransport : {D : Type 0} → MmioTransport D → Type 0
IsTransport t = OwnsQueues t.device_status t.queues t.queue_config

some_ne_none : {A : Type 0} {a : A} → some a ≡ none → ⊥
some_ne_none e = ground arith

owns_status :
    (old new : ℕ) (queues : Option (List Queue)) (c : List QueueConfig)
    → (bit old 2 ≡ true → bit new 2 ≡ true)
    → OwnsQueues old queues c
    → OwnsQueues new queues c
unfolding OwnsQueues
owns_status old new none c h v = h v
owns_status old new (some qs) c h v = v

not_failed : (ds v : ℕ) → ds ≡ 11 → is_failed ds ≡ true → is_failed v ≡ true
unfolding is_failed bit
not_failed ds v e f = ground arith

module _ {D : Type 0} (dev : VirtioDevice D) (types : InterruptTypes) (ring_f_event_idx : ℕ) where
  -- Once the FAILED bit of the device status is set, no sequence of writes clears it: a write of 0
  -- to the status register does not reset the transport any more.
  pub run-is_failed :
      (t u : MmioTransport D) (accesses : List (ℕ × List ℕ))
      → is_failed t.device_status ≡ true
      → run dev types ring_f_event_idx t accesses ≡ done u
      → is_failed u.device_status ≡ true
  run-is_failed t u accesses h e =
      Each-done (λ (s : MmioTransport D). is_failed s.device_status ≡ true)
        (run-Keeps (λ ds qs c. is_failed ds ≡ true) (λ ds i qs q c k. k) dev types ring_f_event_idx
          (λ s v k.
            set_device_status-Each dev ring_f_event_idx (λ r. is_failed r.device_status ≡ true) s v
              (λ two seven. unfold is_failed in ground (arith, k, seven))
              (λ d eleven idle b. not_failed s.device_status v eleven k)
              (unfold is_failed in ground (arith, k, bit_raise s.device_status 7 7))
              (reset_device-failed dev ring_f_event_idx s k) k)
          t accesses h)
        e

  reset_device-IsTransport :
      (t : MmioTransport D) → IsTransport t → IsTransport (reset_device dev ring_f_event_idx t)
  unfolding reset_device reset OwnsQueues
  reset_device-IsTransport t h =
      let fresh : length (create_queues t.queue_config) ≡ length t.queue_config =
        length-map t.queue_config (λ (c : QueueConfig). new_queue c.size) in
      let kept : OwnsQueues (bit_or t.device_status failed) t.queues t.queue_config =
        owns_status t.device_status (bit_or t.device_status failed) t.queues t.queue_config
          (λ b. ground (arith, b, bit_raise t.device_status 7 2)) h in
      elim (Bool-cases (dev.is_activated t.device)) [
        | inr e ↦ elim (Bool-cases (bit_and t.device_status failed == 0)) [
          | inl f ↦ rw (e, f) fresh
          | inr f ↦ rw (e, f) h
        ]
        | inl e ↦ elim (Bool-cases (dev.reset t.device).0) [
          | inl g ↦ elim (Bool-cases (bit_and t.device_status failed == 0)) [
            | inl f ↦ rw (e, g, f) fresh
            | inr f ↦ rw (e, g, f) h
          ]
          | inr g ↦ elim (Bool-cases (bit_and (bit_or t.device_status failed) failed == 0)) [
            | inl f ↦ rw (e, g, f) fresh
            | inr f ↦ rw (e, g, f) kept
          ]
        ]
      ]

  -- Whatever the guest writes to the registers, in any order, as long as no activation of the device
  -- panics, the transport has a queue for each configuration of the device, or it has handed the
  -- queues over to the device and DRIVER_OK is set.
  pub run-IsTransport :
      (t u : MmioTransport D) (accesses : List (ℕ × List ℕ))
      → IsTransport t
      → run dev types ring_f_event_idx t accesses ≡ done u
      → IsTransport u
  run-IsTransport t u accesses h e =
      Each-done IsTransport
        (run-Keeps OwnsQueues (λ ds i qs q c k. unfold OwnsQueues in (length-set qs i q ∙ k)) dev
          types ring_f_event_idx
          (λ s v k.
            set_device_status-Each dev ring_f_event_idx IsTransport s v
              (λ two seven.
                owns_status s.device_status v s.queues s.queue_config (λ b. ground (arith, b, two))
                  k)
              (λ d eleven idle b. unfold OwnsQueues in b)
              (owns_status s.device_status (bit_or s.device_status failed) s.queues s.queue_config
                (λ b. ground (arith, b, bit_raise s.device_status 7 2)) k)
              (reset_device-IsTransport s k) k)
          t accesses h)
        e

  reset_device-queues :
      (t : MmioTransport D) → (reset_device dev ring_f_event_idx t).queues ≡ none → t.queues ≡ none
  unfolding reset_device reset
  reset_device-queues t h = ground arith

  -- If one write takes the queues from the transport, then the status before it was
  -- ACKNOWLEDGE | DRIVER | FEATURES_OK, the device was not active, and the queues were handed over
  -- only with DRIVER_OK set.
  pub queues_leave_at_driver_ok :
      (t u : MmioTransport D) (offset : ℕ) (buf : List ℕ) (qs : List Queue)
      → t.queues ≡ some qs
      → write dev types ring_f_event_idx t offset buf ≡ done u
      → u.queues ≡ none
      → (t.device_status ≡ 11)
        × (dev.is_activated t.device ≡ false)
        × (bit u.device_status 2 ≡ true)
  queues_leave_at_driver_ok t u offset buf qs e h gone =
      let there : t.queues ≡ none → ⊥ = λ n. ground arith in
      let R = λ (ds : ℕ) (queues : Option (List Queue)) (c : List QueueConfig).
        queues ≡ none
        → (t.device_status ≡ 11) × (dev.is_activated t.device ≡ false) × (bit ds 2 ≡ true) in
      let kept =
        write-Keeps R (λ ds i xs q c k n. elim (some_ne_none n) [ ]) dev types ring_f_event_idx t
          offset buf (λ n. elim (there n) [ ])
          (set_device_status-Each dev ring_f_event_idx
            (λ s. R s.device_status s.queues s.queue_config) t (from_le_bytes buf)
            (λ two seven n. elim (there n) [ ]) (λ d eleven idle b n. (eleven, idle, b))
            (λ n. elim (there n) [ ]) (λ n. elim (there (reset_device-queues t n)) [ ])
            (λ n. elim (there n) [ ])) in
      Each-done (λ (s : MmioTransport D). R s.device_status s.queues s.queue_config) kept h gone
