-- ===== src/IoApic/EndOfInterrupt.antt =====
-- What a write to the EOI register does.
use whypa.Base.{
  ℕ, zero, suc, ◌+◌, ◌≤◌, ◌<◌, ◌≡◌, refl, ap, ◌∙◌, ◌≢◌, ◌==◌, ltb, leb, if◌then◌else◌, Bool, true,
  false, ◌&&◌, ==_refl, ==_ne, [], ◌∷◌, ◌++◌, length, length-set, set, get_or-set_self,
  get_or-set_ne, bit_and, bit_or, u8, complement, ℕ_discrete, arith,
}
use whypa.Base.Bits.{bit, bit_clear, bit_test}
use whypa.IoApic.Device.{
  IoApic, InterruptTypes, entry, parse_entry, interrupt_control, service, eoi_pin, eoi_from,
  remote_irr,
}
use whypa.IoApic.Pin.{is_masked, is_level, has_remote_irr, delivers, entry_after, delivery}
use whypa.IoApic.Service.{service_lem, only_delivery}

-- The entry serves the vector and is in service.
unfoldable pub acknowledged : ℕ → ℕ → Bool
acknowledged vector e = u8 (bit_and e 0xff) == vector && has_remote_irr e

unfoldable pub entry_after_eoi : ℕ → ℕ → ℕ
entry_after_eoi vector e = if acknowledged vector e then bit_and e (complement 64 remote_irr) else e

module _ (types : InterruptTypes) (vector : ℕ) where
  -- A pin that is not pending is only taken out of service.
  eoi_pin-quiet :
      (i : ℕ) (s : IoApic)
      → i < length s.ioredtbl
      → bit s.irr i ≡ false
      → ((eoi_pin types vector i s).irr ≡ s.irr)
        × ((eoi_pin types vector i s).requests ≡ s.requests)
        × (length (eoi_pin types vector i s).ioredtbl ≡ length s.ioredtbl)
  unfolding eoi_pin
  eoi_pin-quiet i s h quiet = ground (
    arith,
    bit_test s.irr i,
    length-set s.ioredtbl i (bit_and (entry s i) (complement 64 remote_irr)),
  )

  entry-eoi_pin_quiet :
      (i : ℕ) (s : IoApic) (j : ℕ)
      → i < length s.ioredtbl
      → bit s.irr i ≡ false
      → entry (eoi_pin types vector i s) j
        ≡ (if i == j then entry_after_eoi vector (entry s j) else entry s j)
  unfolding eoi_pin entry_after_eoi acknowledged
  entry-eoi_pin_quiet i s j h quiet = elim (ℕ_discrete i j) [
    | yes e ↦
        let stored =
          get_or-set_self s.ioredtbl i (bit_and (entry s i) (complement 64 remote_irr)) 0 h in
        rw (← e) (ground (arith, ==_refl i, bit_test s.irr i, bit_test (entry s i) 14, stored))
    | no ne ↦ ground (
      arith,
      ==_ne i j ne,
      bit_test s.irr i,
      get_or-set_ne s.ioredtbl i j (bit_and (entry s i) (complement 64 remote_irr)) 0 ne,
    )
  ]

  -- When none of `n` pins from `i` on is pending, the EOI loop over them takes those that serve the
  -- vector out of service, requests no interrupt and changes no other entry.
  pub eoi_from-quiet :
      (n i : ℕ) (s : IoApic)
      → i + n ≤ length s.ioredtbl
      → ((j : ℕ) → i ≤ j → j < i + n → bit s.irr j ≡ false)
      → ((eoi_from types vector n i s).requests ≡ s.requests)
        × ((eoi_from types vector n i s).irr ≡ s.irr)
        × ((j : ℕ)
            → entry (eoi_from types vector n i s) j ≡ (
                if leb i j && ltb j (i + n) then entry_after_eoi vector (entry s j) else entry s j))
  unfolding eoi_from
  eoi_from-quiet zero i s h quiet = (refl, refl, λ j. ground arith)
  eoi_from-quiet (suc n) i s h quiet =
      let here = quiet i (omega arith) (omega arith) in
      let frame = eoi_pin-quiet i s (omega arith) here in
      let rest =
        eoi_from-quiet n (i + 1) (eoi_pin types vector i s) (omega (arith, frame.2))
          λ j lo hi. rw frame.0 (quiet j (omega arith) (omega arith)) in
      (
        rest.0 ∙ frame.1,
        rest.1 ∙ frame.0,
        λ j. ground (arith, rest.2 j, entry-eoi_pin_quiet i s j (omega arith) here, ==_ne i j),
      )

  -- A pin that is not pending, or does not serve the vector, leaves requests alone; one that does
  -- not serve the vector leaves the state alone.
  eoi_pin-other :
      (i : ℕ) (s : IoApic) → acknowledged vector (entry s i) ≡ false → eoi_pin types vector i s ≡ s
  unfolding eoi_pin acknowledged
  eoi_pin-other i s h = ground (arith, bit_test (entry s i) 14)

  eoi_from-other :
      (n i : ℕ) (s : IoApic)
      → ((j : ℕ) → i ≤ j → j < i + n → acknowledged vector (entry s j) ≡ false)
      → eoi_from types vector n i s ≡ s
  unfolding eoi_from
  eoi_from-other zero i s h = refl
  eoi_from-other (suc n) i s h =
      rw (eoi_pin-other i s (h i (omega arith) (omega arith)))
        (eoi_from-other n (i + 1) s (λ j lo hi. h j (omega arith) (omega arith)))

  -- What the EOI loop does at the one pin that is pending and serves the vector.
  eoi_pin_again :
      (i : ℕ) (s : IoApic)
      → length s.ioredtbl ≡ 24
      → i < 24
      → acknowledged vector (entry s i) ≡ true
      → is_level (entry s i) ≡ true
      → is_masked (entry s i) ≡ false
      → bit s.irr i ≡ true
      → ((j : ℕ) → j < 24 → i ≢ j → bit s.irr j ≡ false)
      → ((eoi_pin types vector i s).requests
          ≡ s.requests
            ++ (interrupt_control types (parse_entry (entry_after_eoi vector (entry s i))) ∷ []))
        × (entry (eoi_pin types vector i s) i
            ≡ bit_or (entry_after_eoi vector (entry s i)) remote_irr)
        × ((j : ℕ) → j < 24 → i ≢ j → entry (eoi_pin types vector i s) j ≡ entry s j)
  unfolding eoi_pin acknowledged entry_after_eoi
  eoi_pin_again i s l h ack level free raised quiet =
      let e = bit_and (entry s i) (complement 64 remote_irr) in
      let cleared : IoApic = record s { ioredtbl = set s.ioredtbl i e } in
      let size : length cleared.ioredtbl ≡ 24 = length-set s.ioredtbl i e ∙ l in
      let stored : entry cleared i ≡ e = get_or-set_self s.ioredtbl i e 0 (omega arith) in
      let served = service_lem types cleared size in
      let runs : eoi_pin types vector i s ≡ service types cleared =
        unfold eoi_pin in (ground (arith, ack, bit_test (entry s i) 14, bit_test s.irr i)) in
      let one =
        only_delivery types cleared 24 0 i (omega arith) h
          λ j lo hi ne. (unfold delivers in (rw (quiet j hi ne) refl)) in
      let low = bit_clear 64 (entry s i) 14 14 (omega arith) (omega arith) in
      let mid = bit_clear 64 (entry s i) 14 15 (omega arith) (omega arith) in
      let high = bit_clear 64 (entry s i) 14 16 (omega arith) (omega arith) in
      let fires : delivery types (bit s.irr i) (entry cleared i)
          ≡ interrupt_control types (parse_entry e) ∷ [] =
        unfold delivery delivers in (rw stored (ground (arith, low, mid, high))) in
      let latched : entry_after (bit s.irr i) (entry cleared i) ≡ bit_or e remote_irr =
        unfold entry_after in (rw stored (ground (arith, low, mid, high))) in
      let after : entry_after_eoi vector (entry s i) ≡ e = ground arith in
      (
        rw (runs, after) (served.0 ∙ ap (λ r. s.requests ++ r) (one ∙ fires)),
        rw (runs, after) ((served.1 i h).0 ∙ latched),
        λ j k ne. rw runs (
            (served.1 j k).0
            ∙ (unfold entry_after in
                (ground (arith, quiet j k ne, get_or-set_ne s.ioredtbl i j e 0 ne)))),
      )

  -- With 24 entries, when the pin `i` is still asserted, is level triggered, unmasked, in service
  -- and serves the vector, and no other pin is pending or acknowledged, then the EOI of the vector
  -- requests that pin's interrupt once more, and leaves the pin in service and all other entries
  -- as they were.
  pub eoi_redelivers :
      (s : IoApic) (n k i : ℕ)
      → length s.ioredtbl ≡ 24
      → k ≤ i
      → i < k + n
      → k + n ≤ 24
      → acknowledged vector (entry s i) ≡ true
      → is_level (entry s i) ≡ true
      → is_masked (entry s i) ≡ false
      → bit s.irr i ≡ true
      → ((j : ℕ)
          → j < 24
          → i ≢ j
          → (bit s.irr j ≡ false) × (acknowledged vector (entry s j) ≡ false))
      → ((eoi_from types vector n k s).requests
          ≡ s.requests
            ++ (interrupt_control types (parse_entry (entry_after_eoi vector (entry s i))) ∷ []))
        × (entry (eoi_from types vector n k s) i
            ≡ bit_or (entry_after_eoi vector (entry s i)) remote_irr)
        × ((j : ℕ) → j < 24 → i ≢ j → entry (eoi_from types vector n k s) j ≡ entry s j)
  eoi_redelivers s zero k i l lo hi fits ack level free raised quiet = ground arith
  eoi_redelivers s (suc n) k i l lo hi fits ack level free raised quiet = elim (ℕ_discrete i k) [
    | yes e ↦
        let again =
          eoi_pin_again i s l (omega arith) ack level free raised (λ j p r. (quiet j p r).0) in
        let done : eoi_from types vector (suc n) k s ≡ eoi_pin types vector i s =
          unfold eoi_from in
          rw (← e) (
            eoi_from-other n (i + 1) (eoi_pin types vector i s) λ j p q.
              rw (again.2 j (omega arith) (omega arith)) (quiet j (omega arith) (omega arith)).1) in
        rw done again
    | no ne ↦
        let skipped : eoi_from types vector (suc n) k s ≡ eoi_from types vector n (k + 1) s =
          unfold eoi_from in rw (eoi_pin-other k s (quiet k (omega arith) ne).1) refl in
        rw skipped (
          eoi_redelivers s n (k + 1) i l (omega arith) (omega arith) (omega arith) ack level free
            raised quiet)
  ]
