-- ===== src/IoApic/Examples.antt =====
-- A controller with an edge pin, a level pin in service and a masked pin.
use whypa.Base.{
  ℕ, ◌+◌, ◌^◌, ◌<◌, ◌≡◌, refl, true, false, some, List, [], ◌∷◌, ◌++◌, ◌∙◌, set, get_or,
  get_or-set_ne, zero, suc, replicate, bit_or, arith, ◌≢◌, ==_ne,
}
use whypa.Base.Bits.{bit-zero, bit, bit-two_pow}
use whypa.IoApic.Device.{
  IoApic, InterruptTypes, new, entry, parse_entry, interrupt_control, service, remote_irr, eoi_from,
}
use whypa.IoApic.Pin.{is_masked, is_level, entry_after, pending_after}
use whypa.IoApic.Service.{service_lem, deliveries}
use whypa.IoApic.EndOfInterrupt.{acknowledged, entry_after_eoi, eoi_redelivers}
use whypa.IoApic.Invariant.{IsIoApic, raise, access, run, run-IsIoApic}

abbrev pub types : InterruptTypes
types = record { fixed = 0; lowest_priority = 1; nmi = 4; init = 5 }

-- Pin 2 is an edge with vector 0x31; pin 5 is a level with vector 0x42 that is in service.
abbrev level_entry : ℕ
level_entry = 0x42 + 2 ^ 15 + 2 ^ 14

abbrev table : List ℕ
table = set (set (replicate 24 (2 ^ 16)) 2 0x31) 5 level_entry

abbrev quiet : IoApic
quiet = record {
  id = 3;
  ioregsel = 0x15;
  irr = 0;
  ioredtbl = table;
  version = 0x20;
  irq_eoi = replicate 24 0;
  requests = [];
}

abbrev pub asserted : IoApic
asserted = record quiet { irr = 2 ^ 5 }

service_lem_example :
    ((service types asserted).requests ≡ asserted.requests ++ deliveries types asserted 24 0)
    × ((j : ℕ)
        → j < 24
        → (entry (service types asserted) j ≡ entry_after (bit asserted.irr j) (entry asserted j))
          × (bit (service types asserted).irr j
              ≡ pending_after (bit asserted.irr j) (entry asserted j)))
service_lem_example = service_lem types asserted refl

-- Nothing is pending at first; then line 2 is raised, and the lower half of pin 2 is written.
run-IsIoApic_example : IsIoApic (
    run types new (
      raise (some 2)
      ∷ access 0 (0x14 ∷ 0 ∷ 0 ∷ 0 ∷ [])
      ∷ access 0x10 (0x31 ∷ 0x80 ∷ 0 ∷ 0 ∷ [])
      ∷ []))
run-IsIoApic_example =
    run-IsIoApic types new
      (raise (some 2)
        ∷ access 0 (0x14 ∷ 0 ∷ 0 ∷ 0 ∷ [])
        ∷ access 0x10 (0x31 ∷ 0x80 ∷ 0 ∷ 0 ∷ [])
        ∷ [])
      (unfold new in
        record { table = refl; served = λ j k pending. absurd (ground (arith, bit-zero j)) })

-- The entries of a table that holds one value everywhere.
get_or-replicate : (n x j : ℕ) → j < n → get_or (replicate n x) j 0 ≡ x
get_or-replicate zero x j h = ground arith
get_or-replicate (suc n) x zero h = refl
get_or-replicate (suc n) x (suc j) h = get_or-replicate n x j (omega arith)

-- The level pin 5 alone, in service and still asserted; all others are masked.
abbrev pub held : IoApic
held = record asserted { ioredtbl = set (replicate 24 (2 ^ 16)) 5 level_entry }

pub held_others :
    (j : ℕ) → j < 24 → 5 ≢ j → (bit held.irr j ≡ false) × (acknowledged 0x42 (entry held j) ≡ false)
unfolding acknowledged
held_others j h ne =
    let other : entry held j ≡ 2 ^ 16 =
      get_or-set_ne (replicate 24 (2 ^ 16)) 5 j level_entry 0 ne
      ∙ get_or-replicate 24 (2 ^ 16) j h in
    (ground (arith, bit-two_pow 5 j, ==_ne 5 j ne), rw other refl)

pub held_bits :
    (acknowledged 0x42 (entry held 5) ≡ true)
    × (is_level (entry held 5) ≡ true)
    × (is_masked (entry held 5) ≡ false)
    × (bit held.irr 5 ≡ true)
unfolding acknowledged bit
held_bits = (refl, refl, refl, refl)

eoi_redelivers_example :
    ((eoi_from types 0x42 24 0 held).requests
      ≡ held.requests
        ++ (interrupt_control types (parse_entry (entry_after_eoi 0x42 (entry held 5))) ∷ []))
    × (entry (eoi_from types 0x42 24 0 held) 5
        ≡ bit_or (entry_after_eoi 0x42 (entry held 5)) remote_irr)
    × ((j : ℕ) → j < 24 → 5 ≢ j → entry (eoi_from types 0x42 24 0 held) j ≡ entry held j)
eoi_redelivers_example =
    eoi_redelivers types 0x42 held 24 0 5 refl (omega arith) (omega arith) (omega arith) held_bits.0
      held_bits.1 held_bits.2 held_bits.3 held_others
