-- ===== src/IoApic/Device.antt =====
-- The state of the controller and its operations. What the guest is made to see of it are the
-- calls of `WHvRequestInterrupt`, kept in order with the state; the code only logs their results.
-- The types of interrupts are constants of the hypervisor's interface.
use whypa.Base.{
  ℕ, zero, suc, ◌+◌, ◌-◌, ◌/◌, ◌^◌, ◌==◌, ltb, leb, if◌then◌else◌, Bool, not, ◌&&◌, ◌||◌, Option,
  none, some, List, [], ◌∷◌, ◌++◌, length, get_or, set, replicate, bit_and, bit_or, u8, u32, sub64,
  complement, ◌<<<◌, ◌>>>◌, to_le_bytes, from_le_bytes,
}

abbrev pub num_pins : ℕ
num_pins = 24

abbrev pub io_reg_sel : ℕ
io_reg_sel = 0x00

abbrev pub io_win : ℕ
io_win = 0x10

abbrev pub io_eoi : ℕ
io_eoi = 0x40

-- Masks of single bits of a redirection table entry, and the read-only bits.
abbrev pub remote_irr : ℕ
remote_irr = 2 ^ 14

abbrev pub trigger_mode : ℕ
trigger_mode = 2 ^ 15

abbrev pub deliv_status : ℕ
deliv_status = 2 ^ 12

abbrev pub ro_bits : ℕ
ro_bits = bit_or remote_irr deliv_status

abbrev pub rw_bits : ℕ
rw_bits = complement 64 ro_bits

pub record EntryInfo : Type 0 where
  pub masked : Bool
  pub trig_mode : ℕ
  pub dest_idx : ℕ
  pub dest_mode : ℕ
  pub delivery_mode : ℕ
  pub vector : ℕ

pub record InterruptControl : Type 0 where
  pub bitfield : ℕ
  pub destination : ℕ
  pub vector : ℕ

pub record InterruptTypes : Type 0 where
  pub fixed : ℕ
  pub lowest_priority : ℕ
  pub nmi : ℕ
  pub init : ℕ

-- `requests` are the interrupts requested so far, the oldest first.
pub record IoApic : Type 0 where
  pub id : ℕ
  pub ioregsel : ℕ
  pub irr : ℕ
  pub ioredtbl : List ℕ
  pub version : ℕ
  pub irq_eoi : List ℕ
  pub requests : List InterruptControl

unfoldable pub new : IoApic
new = record {
  id = 0;
  ioregsel = 0;
  irr = 0;
  ioredtbl = replicate num_pins (2 ^ 16);
  version = 0x20;
  irq_eoi = replicate num_pins 0;
  requests = [];
}

unfoldable pub parse_entry : ℕ → EntryInfo
parse_entry entry = record {
  masked = not (bit_and (entry >>> 16) 1 == 0);
  trig_mode = u8 (bit_and (entry >>> 15) 1);
  dest_idx = u8 (bit_and (entry >>> 56) 0xff);
  dest_mode = u8 (bit_and (entry >>> 11) 1);
  delivery_mode = u8 (bit_and (entry >>> 8) 7);
  vector = u8 (bit_and entry 0xff);
}

-- `ioredtbl[i]`; the index is below 24 wherever the code reads or writes.
abbrev pub entry : IoApic → ℕ → ℕ
entry s i = get_or s.ioredtbl i 0

unfoldable pub fix_edge_remote_irr : IoApic → ℕ → IoApic
fix_edge_remote_irr s i =
    if bit_and (entry s i) trigger_mode == 0
    then record s { ioredtbl = set s.ioredtbl i (bit_and (entry s i) (complement 64 remote_irr)) }
    else s

-- The entry with one half replaced and the read-only bits kept.
unfoldable pub merge_entry : ℕ → Bool → ℕ → ℕ
merge_entry old upper val =
    let written =
      if upper
      then bit_or (bit_and old 0xffff_ffff) (val <<< 32)
      else bit_or (bit_and old (complement 64 0xffff_ffff)) val in
    bit_or (bit_and written rw_bits) (bit_and old ro_bits)

module _ (types : InterruptTypes) where
  unfoldable pub interrupt_type : ℕ → ℕ
  interrupt_type mode =
      if mode == 0
      then types.fixed
      else if mode == 1
      then types.lowest_priority
      else if mode == 4
      then types.nmi
      else if mode == 5
      then types.init
      else types.fixed

  unfoldable pub interrupt_control : EntryInfo → InterruptControl
  unfolding interrupt_type
  interrupt_control info = record {
    bitfield =
        bit_or (bit_or (interrupt_type info.delivery_mode <<< 0) (info.dest_mode <<< 8))
          (info.trig_mode <<< 12);
    destination = info.dest_idx;
    vector = info.vector;
  }

  abbrev pub inject_interrupt : IoApic → EntryInfo → IoApic
  inject_interrupt s info = record s { requests = s.requests ++ (interrupt_control info ∷ []) }

  -- One round of the loop of `service`.
  unfoldable pub service_pin : ℕ → IoApic → IoApic
  service_pin i s =
      let info = parse_entry (entry s i) in
      let fired : IoApic = record s { irr = bit_and s.irr (complement 32 (2 ^ i)) } in
      let latched : IoApic = record s {
        ioredtbl = set s.ioredtbl i (bit_or (entry s i) remote_irr);
      } in
      if bit_and s.irr (2 ^ i) == 0
      then s
      else if info.masked
      then s
      else if info.trig_mode == 0
      then inject_interrupt fired info
      else if not (bit_and (entry s i) remote_irr == 0)
      then latched
      else inject_interrupt latched info

  -- The rounds of the pins from `i` on, with `n` left.
  unfoldable pub service_from : ℕ → ℕ → IoApic → IoApic
  service_from zero i s = s
  service_from (suc n) i s = service_from n (i + 1) (service_pin i s)

  unfoldable pub service : IoApic → IoApic
  service s = service_from num_pins 0 s

  unfoldable pub set_irq : IoApic → Option ℕ → IoApic
  set_irq s none = s
  set_irq s (some irq) =
      if ltb irq num_pins then service (record s { irr = bit_or s.irr (2 ^ irq) }) else s

  unfoldable pub clear_irq : IoApic → Option ℕ → IoApic
  clear_irq s none = s
  clear_irq s (some irq) =
      if ltb irq num_pins then record s { irr = bit_and s.irr (complement 32 (2 ^ irq)) } else s

  unfoldable pub write_redirection : IoApic → ℕ → Bool → ℕ → IoApic
  write_redirection s index upper val = service (
      fix_edge_remote_irr
        (record s {
          ioredtbl = set s.ioredtbl index (merge_entry (entry s index) upper val);
          irq_eoi = set s.irq_eoi index 0;
        })
        index)

  -- One round of the loop of the EOI register.
  unfoldable pub eoi_pin : ℕ → ℕ → IoApic → IoApic
  eoi_pin vector i s =
      let cleared : IoApic = record s {
        ioredtbl = set s.ioredtbl i (bit_and (entry s i) (complement 64 remote_irr));
      } in
      if u8 (bit_and (entry s i) 0xff) == vector && not (bit_and (entry s i) remote_irr == 0)
      then (if bit_and s.irr (2 ^ i) == 0 then cleared else service cleared)
      else s

  unfoldable pub eoi_from : ℕ → ℕ → ℕ → IoApic → IoApic
  eoi_from vector zero i s = s
  eoi_from vector (suc n) i s = eoi_from vector n (i + 1) (eoi_pin vector i s)

  unfoldable pub write_window : IoApic → ℕ → IoApic
  write_window s val =
      if s.ioregsel == 0
      then record s { id = u8 (bit_and (val >>> 24) 0xf) }
      else if s.ioregsel == 1 || s.ioregsel == 2
      then s
      else if ltb s.ioregsel io_win
      then s
      else let index = (s.ioregsel - 0x10) / 2 in
        if leb num_pins index
        then s
        else write_redirection s index (ltb 0 (bit_and s.ioregsel 1)) val

  unfoldable pub write : IoApic → ℕ → List ℕ → IoApic
  write s offset buf =
      if not (length buf == 4)
      then s
      else let val = from_le_bytes buf in
        if offset == io_reg_sel
        then record s { ioregsel = u8 val }
        else if offset == io_win
        then write_window s val
        else if offset == io_eoi
        then eoi_from (u8 val) num_pins 0 s
        else s

-- The first bytes of the buffer are replaced.
abbrev pub overwrite : List ℕ → List ℕ → List ℕ
overwrite [] bytes = []
overwrite (x ∷ xs) [] = x ∷ xs
overwrite (x ∷ xs) (b ∷ bs) = b ∷ overwrite xs bs

-- The register that the window shows; the difference wraps for the selectors 3 to 15.
unfoldable pub read_window : IoApic → ℕ
read_window s =
    if s.ioregsel == 0 || s.ioregsel == 2
    then u32 (s.id <<< 24)
    else if s.ioregsel == 1
    then bit_or s.version ((num_pins - 1) <<< 16)
    else let index = sub64 s.ioregsel 0x10 / 2 in
      if ltb index num_pins
      then (if ltb 0 (bit_and s.ioregsel 1)
          then u32 (entry s index >>> 32)
          else u32 (bit_and (entry s index) 0xffff_ffff))
      else 0

unfoldable pub read : IoApic → ℕ → List ℕ → List ℕ
read s offset buf =
    if offset == io_reg_sel
    then overwrite buf (to_le_bytes 4 s.ioregsel)
    else if offset == io_win
    then (if not (length buf == 4) then buf else overwrite buf (to_le_bytes 4 (read_window s)))
    else overwrite buf (to_le_bytes 4 0)
