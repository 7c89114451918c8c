-- ===== src/IoApic/Invariant.antt =====
-- What stays true of the controller under any sequence of requests and register accesses.
use whypa.Base.{
  ℕ, zero, suc, ◌+◌, ◌/◌, ◌^◌, ◌<◌, ◌≡◌, ◌∙◌, refl, sym, ◌⊎◌, inl, inr, Bool, Bool-cases, true,
  false, Option, List, [], ◌∷◌, length, length-set, set, get_or-set_ne, ℕ_discrete, ==_refl, ltb,
  ◌-◌, ◌>>>◌, u8, from_le_bytes, bit_and, complement, bit_or, arith,
}
use whypa.Base.Bits.{bit, bit_test, bit-bit_and, bit-bit_or, bit-two_pow}
use whypa.IoApic.Device.{
  IoApic, InterruptTypes, entry, remote_irr, merge_entry, fix_edge_remote_irr, service_pin,
  service_from, service, set_irq, clear_irq, write_redirection, eoi_pin, eoi_from, write_window,
  write,
}
use whypa.IoApic.Pin.{is_masked, is_level, has_remote_irr, entry_after, pending_after}
use whypa.IoApic.Service.{service_lem}

-- All 24 entries are there, and no interrupt is held back that could be delivered: a pin that is pending
-- is masked, or is level triggered and in service.
pub record IsIoApic (s : IoApic) : Type 0 where
  pub table : length s.ioredtbl ≡ 24
  pub served :
      (j : ℕ)
      → j < 24
      → bit s.irr j ≡ true
      → (is_masked (entry s j) ≡ true)
        ⊎ ((is_level (entry s j) ≡ true) × (has_remote_irr (entry s j) ≡ true))

-- What the guest and the devices ask of the controller.
pub data Request : Type 0 where
  raise lower : Option ℕ → Request
  access : ℕ → List ℕ → Request

length-fix_edge :
    (s : IoApic) (i : ℕ) → length (fix_edge_remote_irr s i).ioredtbl ≡ length s.ioredtbl
unfolding fix_edge_remote_irr
length-fix_edge s i =
    ground (arith, length-set s.ioredtbl i (bit_and (entry s i) (complement 64 remote_irr)))

-- A pin that is pending after a scan is masked, or level triggered and in service.
served_after :
    (pending : Bool) (e : ℕ)
    → pending_after pending e ≡ true
    → (is_masked (entry_after pending e) ≡ true)
      ⊎ ((is_level (entry_after pending e) ≡ true)
          × (has_remote_irr (entry_after pending e) ≡ true))
unfolding pending_after entry_after
served_after pending e left = elim (Bool-cases (is_masked e)) [
  | inl masked ↦ inl (ground arith)
  | inr free ↦ inr (
    ground (arith, bit-bit_or e (2 ^ 14) 15),
    ground (arith, bit-bit_or e (2 ^ 14) 14, bit-two_pow 14 14, ==_refl 14),
  )
]

module _ (types : InterruptTypes) where
  length-service_pin :
      (i : ℕ) (s : IoApic) → length (service_pin types i s).ioredtbl ≡ length s.ioredtbl
  unfolding service_pin
  length-service_pin i s = ground (arith, length-set s.ioredtbl i (bit_or (entry s i) remote_irr))

  length-service_from :
      (n i : ℕ) (s : IoApic) → length (service_from types n i s).ioredtbl ≡ length s.ioredtbl
  unfolding service_from
  length-service_from zero i s = refl
  length-service_from (suc n) i s =
      length-service_from n (i + 1) (service_pin types i s) ∙ length-service_pin i s

  -- After a scan nothing is held back, whatever was before.
  service-IsIoApic : (s : IoApic) → length s.ioredtbl ≡ 24 → IsIoApic (service types s)
  service-IsIoApic s l = record {
    table = unfold service in (length-service_from 24 0 s ∙ l);
    served = λ j k pending.
        let after = (service_lem types s l).1 j k in
        rw after.0 (served_after (bit s.irr j) (entry s j) (sym after.1 ∙ pending));
  }

  set_irq-IsIoApic : (s : IoApic) (line : Option ℕ) → IsIoApic s → IsIoApic (set_irq types s line)
  unfolding set_irq
  set_irq-IsIoApic s Option.none v = v
  set_irq-IsIoApic s (Option.some irq) v =
      ground (arith, service-IsIoApic (record s { irr = bit_or s.irr (2 ^ irq) }) v.table)

  clear_irq-IsIoApic :
      (s : IoApic) (line : Option ℕ) → IsIoApic s → IsIoApic (clear_irq types s line)
  unfolding clear_irq
  clear_irq-IsIoApic s Option.none v = v
  clear_irq-IsIoApic s (Option.some irq) v =
      let lowered : IoApic = record s { irr = bit_and s.irr (complement 32 (2 ^ irq)) } in
      let kept : IsIoApic lowered = record {
        table = v.table;
        served = λ j k pending.
            v.served j k (ground (arith, bit-bit_and s.irr (complement 32 (2 ^ irq)) j));
      } in
      ground (arith, kept)

  write_redirection-IsIoApic :
      (s : IoApic) (index : ℕ) (upper : Bool) (val : ℕ)
      → IsIoApic s
      → IsIoApic (write_redirection types s index upper val)
  unfolding write_redirection
  write_redirection-IsIoApic s index upper val v = service-IsIoApic _ (
      length-fix_edge _ index
      ∙ length-set s.ioredtbl index (merge_entry (entry s index) upper val)
      ∙ v.table)

  eoi_pin-IsIoApic : (vector i : ℕ) (s : IoApic) → IsIoApic s → IsIoApic (eoi_pin types vector i s)
  unfolding eoi_pin
  eoi_pin-IsIoApic vector i s v =
      let emptied = bit_and (entry s i) (complement 64 remote_irr) in
      let cleared : IoApic = record s { ioredtbl = set s.ioredtbl i emptied } in
      let size : length cleared.ioredtbl ≡ 24 = length-set s.ioredtbl i emptied ∙ v.table in
      let test = bit_test s.irr i in
      let quiet : bit s.irr i ≡ false → IsIoApic cleared = λ low. record {
        table = size;
        served = λ j k pending. elim (ℕ_discrete i j) [
          | yes same ↦ absurd (ground (arith, same))
          | no other ↦
              let kept : entry cleared j ≡ entry s j =
                get_or-set_ne s.ioredtbl i j emptied 0 other in
              rw kept (v.served j k pending)
        ];
      } in
      ground (arith, quiet, test, service-IsIoApic cleared size)

  eoi_from-IsIoApic :
      (vector n i : ℕ) (s : IoApic) → IsIoApic s → IsIoApic (eoi_from types vector n i s)
  unfolding eoi_from
  eoi_from-IsIoApic vector zero i s v = v
  eoi_from-IsIoApic vector (suc n) i s v =
      eoi_from-IsIoApic vector n (i + 1) (eoi_pin types vector i s) (eoi_pin-IsIoApic vector i s v)

  write_window-IsIoApic : (s : IoApic) (val : ℕ) → IsIoApic s → IsIoApic (write_window types s val)
  unfolding write_window
  write_window-IsIoApic s val v =
      let named : IsIoApic (record s { id = u8 (bit_and (val >>> 24) 0xf) }) = record {
        table = v.table;
        served = v.served;
      } in
      ground (
        arith,
        named,
        write_redirection-IsIoApic s ((s.ioregsel - 0x10) / 2) (ltb 0 (bit_and s.ioregsel 1)) val v,
      )

  write-IsIoApic :
      (s : IoApic) (offset : ℕ) (buf : List ℕ) → IsIoApic s → IsIoApic (write types s offset buf)
  unfolding write
  write-IsIoApic s offset buf v =
      let selected : IsIoApic (record s { ioregsel = u8 (from_le_bytes buf) }) = record {
        table = v.table;
        served = v.served;
      } in
      ground (
        arith,
        selected,
        write_window-IsIoApic s (from_le_bytes buf) v,
        eoi_from-IsIoApic (u8 (from_le_bytes buf)) 24 0 s v,
      )

  pub step : IoApic → Request → IoApic
  step s (raise line) = set_irq types s line
  step s (lower line) = clear_irq types s line
  step s (access offset buf) = write types s offset buf

  pub run : IoApic → List Request → IoApic
  run s [] = s
  run s (r ∷ rs) = run (step s r) rs

  step-IsIoApic : (s : IoApic) (r : Request) → IsIoApic s → IsIoApic (step s r)
  unfolding step
  step-IsIoApic s (raise line) v = set_irq-IsIoApic s line v
  step-IsIoApic s (lower line) v = clear_irq-IsIoApic s line v
  step-IsIoApic s (access offset buf) v = write-IsIoApic s offset buf v

  -- Whatever lines are raised and lowered and whatever is written to the registers, in any order,
  -- no interrupt stays back: a controller of 24 entries whose pending pins are masked, or level
  -- triggered and in service, keeps them so.
  pub run-IsIoApic : (s : IoApic) (rs : List Request) → IsIoApic s → IsIoApic (run s rs)
  unfolding run
  run-IsIoApic s [] v = v
  run-IsIoApic s (r ∷ rs) v = run-IsIoApic (step s r) rs (step-IsIoApic s r v)
