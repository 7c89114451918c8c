-- ===== src/IoApic/Pin.antt =====
-- One pin of the controller, read off the digits of its entry and of the request register.
use whypa.Base.{
  ℕ, ◌/◌, ◌^◌, ◌<◌, ◌≡◌, ◌≢◌, ◌==◌, if◌then◌else◌, Bool, not, ◌&&◌, ◌||◌, List, [], ◌∷◌, ◌++◌,
  append-nil, length, length-set, set, get_or-set_self, get_or-set_ne, bit_and, bit_or, complement,
  ==_refl, ==_ne, arith,
}
use whypa.Base.Bits.{bit_clear, bit, bit_test, bit_and-two_pow, bit-shr}
use whypa.IoApic.Device.{
  IoApic, InterruptTypes, InterruptControl, entry, parse_entry, interrupt_control, inject_interrupt,
  service_pin, remote_irr,
}

abbrev pub is_masked : ℕ → Bool
is_masked e = bit e 16

abbrev pub is_level : ℕ → Bool
is_level e = bit e 15

abbrev pub has_remote_irr : ℕ → Bool
has_remote_irr e = bit e 14

masked_bit : (e : ℕ) → (parse_entry e).masked ≡ is_masked e
unfolding parse_entry
masked_bit e = ground (arith, bit_test (e / 2 ^ 16) 0, bit-shr e 16 0)

edge_bit : (e : ℕ) → ((parse_entry e).trig_mode == 0) ≡ not (is_level e)
unfolding parse_entry
edge_bit e = ground (arith, bit_and-two_pow (e / 2 ^ 15) 0, bit-shr e 15 0)

-- A pending pin is delivered unless it is masked, or is level triggered and already in service.
unfoldable pub delivers : Bool → ℕ → Bool
delivers pending e = pending && not (is_masked e) && (not (is_level e) || not (has_remote_irr e))

-- A pending unmasked level pin is then in service; a pending unmasked edge is used up.
unfoldable pub entry_after : Bool → ℕ → ℕ
entry_after pending e =
    if pending && not (is_masked e) && is_level e then bit_or e remote_irr else e

unfoldable pub pending_after : Bool → ℕ → Bool
pending_after pending e = pending && (is_masked e || is_level e)

module _ (types : InterruptTypes) where
  unfoldable pub delivery : Bool → ℕ → List InterruptControl
  delivery pending e =
      if delivers pending e then interrupt_control types (parse_entry e) ∷ [] else []

  module _ (i : ℕ) (s : IoApic) where
    abbrev fired : IoApic
    fired = record s { irr = bit_and s.irr (complement 32 (2 ^ i)) }

    abbrev latched : IoApic
    latched = record s { ioredtbl = set s.ioredtbl i (bit_or (entry s i) remote_irr) }

    service_pin-bits : service_pin types i s ≡ (
        if not (bit s.irr i)
        then s
        else if is_masked (entry s i)
        then s
        else if not (is_level (entry s i))
        then inject_interrupt types fired (parse_entry (entry s i))
        else if has_remote_irr (entry s i)
        then latched
        else inject_interrupt types latched (parse_entry (entry s i)))
    unfolding service_pin
    service_pin-bits = ground (
      arith,
      bit_test s.irr i,
      masked_bit (entry s i),
      edge_bit (entry s i),
      bit_test (entry s i) 14,
    )

    pub requests-service_pin :
        (service_pin types i s).requests ≡ s.requests ++ delivery (bit s.irr i) (entry s i)
    unfolding delivery delivers
    requests-service_pin = rw service_pin-bits (ground (arith, append-nil s.requests))

    pub length-service_pin : length (service_pin types i s).ioredtbl ≡ length s.ioredtbl
    length-service_pin =
        rw service_pin-bits
          (ground (arith, length-set s.ioredtbl i (bit_or (entry s i) remote_irr)))

    pub entry-service_pin_self :
        i < length s.ioredtbl
        → entry (service_pin types i s) i ≡ entry_after (bit s.irr i) (entry s i)
    unfolding entry_after
    entry-service_pin_self h =
        rw service_pin-bits
          (ground (arith, get_or-set_self s.ioredtbl i (bit_or (entry s i) remote_irr) 0 h))

    pub entry-service_pin_ne : (j : ℕ) → i ≢ j → entry (service_pin types i s) j ≡ entry s j
    entry-service_pin_ne j h =
        rw service_pin-bits
          (ground (arith, get_or-set_ne s.ioredtbl i j (bit_or (entry s i) remote_irr) 0 h))

    cleared_bit :
        (j : ℕ)
        → i < 24
        → j < 24
        → bit (bit_and s.irr (complement 32 (2 ^ i))) j ≡ (bit s.irr j && not (i == j))
    cleared_bit j hi hj = bit_clear 32 s.irr i j (omega arith) (omega arith)

    pub irr-service_pin_self :
        i < 24 → bit (service_pin types i s).irr i ≡ pending_after (bit s.irr i) (entry s i)
    unfolding pending_after
    irr-service_pin_self h = rw service_pin-bits (ground (arith, cleared_bit i h h, ==_refl i))

    pub irr-service_pin_ne :
        (j : ℕ) → i < 24 → j < 24 → i ≢ j → bit (service_pin types i s).irr j ≡ bit s.irr j
    irr-service_pin_ne j hi hj h =
        rw service_pin-bits (ground (arith, cleared_bit j hi hj, ==_ne i j h))
