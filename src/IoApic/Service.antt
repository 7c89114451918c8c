-- ===== src/IoApic/Service.antt =====
-- What a run of `service` delivers and leaves behind.
use whypa.Base.{
  ℕ, zero, suc, ◌+◌, ◌^◌, ◌≤◌, ◌<◌, ◌≡◌, refl, sym, ap, ◌∙◌, ◌≢◌, ==_refl, ==_ne, ltb, leb,
  if◌then◌else◌, Bool, true, false, ◌&&◌, ◌||◌, some, List, [], ◌++◌, append-nil, append_assoc,
  length, bit_or, ℕ_discrete, arith,
}
use whypa.Base.Bits.{bit, bit_raise}
use whypa.IoApic.Device.{
  IoApic, InterruptTypes, InterruptControl, entry, service_pin, service_from, service, set_irq,
}
use whypa.IoApic.Pin.{
  is_masked, is_level, delivers, entry_after, pending_after, delivery, requests-service_pin,
  length-service_pin, entry-service_pin_self, entry-service_pin_ne, irr-service_pin_self,
  irr-service_pin_ne,
}

module _ (types : InterruptTypes) where
  -- The interrupts of the pins from `i` on, `n` of them, in the order of the pins.
  unfoldable pub deliveries : IoApic → ℕ → ℕ → List InterruptControl
  deliveries s zero i = []
  deliveries s (suc n) i = delivery types (bit s.irr i) (entry s i) ++ deliveries s n (i + 1)

  -- They depend on those pins alone.
  deliveries_ext :
      (s t : IoApic) (n i : ℕ)
      → ((j : ℕ) → i ≤ j → j < i + n → (bit s.irr j ≡ bit t.irr j) × (entry s j ≡ entry t j))
      → deliveries s n i ≡ deliveries t n i
  unfolding deliveries
  deliveries_ext s t zero i h = refl
  deliveries_ext s t (suc n) i h =
      let here = h i (omega arith) (omega arith) in
      let rest = deliveries_ext s t n (i + 1) (λ j lo hi. h j (omega arith) (omega arith)) in
      rw (here.0, here.1, rest)

  deliveries-service_pin :
      (s : IoApic) (n i : ℕ)
      → i + suc n ≤ 24
      → deliveries (service_pin types i s) n (i + 1) ≡ deliveries s n (i + 1)
  deliveries-service_pin s n i h = deliveries_ext (service_pin types i s) s n (i + 1) λ j lo hi. (
    irr-service_pin_ne types i s j (omega arith) (omega arith) (omega arith),
    entry-service_pin_ne types i s j (omega arith),
  )

  requests-service_from :
      (n i : ℕ) (s : IoApic)
      → i + n ≤ 24
      → (service_from types n i s).requests ≡ s.requests ++ deliveries s n i
  unfolding service_from deliveries
  requests-service_from zero i s h = sym (append-nil s.requests)
  requests-service_from (suc n) i s h =
      requests-service_from n (i + 1) (service_pin types i s) (omega arith)
      ∙ rw (requests-service_pin types i s, deliveries-service_pin s n i h)
          (append_assoc s.requests (delivery types (bit s.irr i) (entry s i))
            (deliveries s n (i + 1)))

  pub length-service_from :
      (n i : ℕ) (s : IoApic) → length (service_from types n i s).ioredtbl ≡ length s.ioredtbl
  unfolding service_from
  length-service_from zero i s = refl
  length-service_from (suc n) i s =
      length-service_from n (i + 1) (service_pin types i s) ∙ length-service_pin types i s

  entry-service_from :
      (n i : ℕ) (s : IoApic) (j : ℕ)
      → i + n ≤ length s.ioredtbl
      → i + n ≤ 24
      → j < 24
      → entry (service_from types n i s) j
        ≡ (if leb i j && ltb j (i + n) then entry_after (bit s.irr j) (entry s j) else entry s j)
  unfolding service_from
  entry-service_from zero i s j l h k = ground arith
  entry-service_from (suc n) i s j l h k =
      let rest =
        entry-service_from n (i + 1) (service_pin types i s) j
          (omega (arith, length-service_pin types i s)) (omega arith) k in
      elim (ℕ_discrete i j) [
        | yes e ↦
            let here : entry (service_pin types i s) j ≡ entry_after (bit s.irr j) (entry s j) =
              rw (← e) (entry-service_pin_self types i s (omega arith)) in
            ground (arith, rest, here)
        | no ne ↦ ground (
          arith,
          rest,
          entry-service_pin_ne types i s j ne,
          irr-service_pin_ne types i s j (omega arith) k ne,
        )
      ]

  irr-service_from :
      (n i : ℕ) (s : IoApic) (j : ℕ)
      → i + n ≤ 24
      → j < 24
      → bit (service_from types n i s).irr j ≡ (
          if leb i j && ltb j (i + n) then pending_after (bit s.irr j) (entry s j) else bit s.irr j)
  unfolding service_from
  irr-service_from zero i s j h k = ground arith
  irr-service_from (suc n) i s j h k =
      let rest = irr-service_from n (i + 1) (service_pin types i s) j (omega arith) k in
      elim (ℕ_discrete i j) [
        | yes e ↦
            let here : bit (service_pin types i s).irr j ≡ pending_after (bit s.irr j) (entry s j) =
              rw (← e) (irr-service_pin_self types i s (omega arith)) in
            ground (arith, rest, here)
        | no ne ↦ ground (
          arith,
          rest,
          entry-service_pin_ne types i s j ne,
          irr-service_pin_ne types i s j (omega arith) k ne,
        )
      ]

  -- With a table of 24 entries, `service` requests, in the order of the pins, one interrupt for
  -- each pin that is pending, is not masked, and is edge triggered or not in service; it marks the
  -- pending unmasked level pins as in service and takes back the requests of the pending unmasked
  -- edge pins, and changes no other pin.
  pub service_lem :
      (s : IoApic)
      → length s.ioredtbl ≡ 24
      → ((service types s).requests ≡ s.requests ++ deliveries s 24 0)
        × ((j : ℕ)
            → j < 24
            → (entry (service types s) j ≡ entry_after (bit s.irr j) (entry s j))
              × (bit (service types s).irr j ≡ pending_after (bit s.irr j) (entry s j)))
  unfolding service
  service_lem s l = (
    requests-service_from 24 0 s (omega arith),
    λ j k. (
      ground (arith, entry-service_from 24 0 s j (omega arith) (omega arith) k),
      ground (arith, irr-service_from 24 0 s j (omega arith) k),
    ),
  )

  pub no_deliveries :
      (s : IoApic) (n i : ℕ)
      → ((j : ℕ) → i ≤ j → j < i + n → delivers (bit s.irr j) (entry s j) ≡ false)
      → deliveries s n i ≡ []
  unfolding deliveries delivery
  no_deliveries s zero i h = refl
  no_deliveries s (suc n) i h = ground (
    arith,
    h i (omega arith) (omega arith),
    no_deliveries s n (i + 1) (λ j lo hi. h j (omega arith) (omega arith)),
  )

  -- When one pin alone can be delivered, it alone is.
  pub only_delivery :
      (s : IoApic) (n k i : ℕ)
      → k ≤ i
      → i < k + n
      → ((j : ℕ) → k ≤ j → j < k + n → i ≢ j → delivers (bit s.irr j) (entry s j) ≡ false)
      → deliveries s n k ≡ delivery types (bit s.irr i) (entry s i)
  unfolding deliveries
  only_delivery s zero k i lo hi h = ground arith
  only_delivery s (suc n) k i lo hi h = elim (ℕ_discrete i k) [
    | yes e ↦
        let none_left =
          no_deliveries s n (k + 1) (λ j p q. h j (omega arith) (omega arith) (λ r. omega arith)) in
        rw (none_left, e) (append-nil (delivery types (bit s.irr k) (entry s k)))
    | no ne ↦
        let skipped = h k (omega arith) (omega arith) ne in
        let rest =
          only_delivery s n (k + 1) i (omega arith) (omega arith)
            (λ j p q r. h j (omega arith) (omega arith) r) in
        rw rest (unfold delivery in (ground (arith, skipped)))
  ]

  -- A pin that was served is served no more.
  served :
      (pending : Bool) (e : ℕ) → delivers (pending_after pending e) (entry_after pending e) ≡ false
  unfolding delivers pending_after entry_after
  served pending e = ground (arith, bit_raise e 14 14, bit_raise e 14 15, bit_raise e 14 16)

  -- With a table of 24 entries, a second `service` right after one requests no interrupt: none is
  -- delivered twice.
  pub service_twice :
      (s : IoApic)
      → length s.ioredtbl ≡ 24
      → (service types (service types s)).requests ≡ (service types s).requests
  service_twice s l =
      let once = service_lem s l in
      let kept : length (service types s).ioredtbl ≡ 24 =
        unfold service in (length-service_from 24 0 s ∙ l) in
      (service_lem (service types s) kept).0
      ∙ ap (λ (r : List InterruptControl). (service types s).requests ++ r)
          (no_deliveries (service types s) 24 0 λ j lo hi.
            rw ((once.1 j (omega arith)).0, (once.1 j (omega arith)).1)
              (served (bit s.irr j) (entry s j)))
      ∙ append-nil (service types s).requests

  -- With 24 entries and no pin pending, raising a line below 24 requests that pin's interrupt if it
  -- is unmasked and is edge triggered or not in service, and nothing else; an edge is used up at
  -- once unless it is masked, while a level stays pending.
  pub set_irq-one :
      (s : IoApic) (irq : ℕ)
      → length s.ioredtbl ≡ 24
      → irq < 24
      → ((j : ℕ) → j < 24 → bit s.irr j ≡ false)
      → ((set_irq types s (some irq)).requests ≡ s.requests ++ delivery types true (entry s irq))
        × (bit (set_irq types s (some irq)).irr irq
            ≡ (is_masked (entry s irq) || is_level (entry s irq)))
  unfolding set_irq
  set_irq-one s irq l h quiet =
      let raised : IoApic = record s { irr = bit_or s.irr (2 ^ irq) } in
      let here : bit raised.irr irq ≡ true = ground (arith, bit_raise s.irr irq irq, ==_refl irq) in
      let all = service_lem raised l in
      let one = only_delivery raised 24 0 irq (omega arith) h λ j lo hi ne.
        unfold delivers in (ground (arith, bit_raise s.irr irq j, quiet j hi, ==_ne irq j ne)) in
      let runs : set_irq types s (some irq) ≡ service types raised =
        unfold set_irq in ground arith in
      (
        rw runs (all.0 ∙ ap (λ r. s.requests ++ r) (one ∙ rw here refl)),
        rw runs ((all.1 irq h).1 ∙ rw here (unfold pending_after in ground arith)),
      )
