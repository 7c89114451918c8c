-- ===== src/Bus.antt =====
-- Routing of reads and writes to the devices of an address space: src/devices/bus.rs.
-- The `BTreeMap` is a list sorted by the base of the range, which is the whole of the key's order.
-- A device is a handle (`Arc<Mutex<dyn BusDevice>>`) into a store of device states.
pub mod Lookup
pub mod Insert
pub mod Dispatch
mod Examples
use mathlib.Core.List.{reverse}
use whypa.Base.{
  ℕ, ◌+◌, ◌^◌, ◌==◌, ltb, leb, if◌then◌else◌, Bool, true, false, Option, none, some, List, [], ◌∷◌,
  find, u64, sub64, Result, ok, err,
}

pub data Error : Type 0 where
  overlap : Error

pub record BusRange : Type 0 where
  pub base : ℕ
  pub len : ℕ

-- `BusDevice`: what a device does to its own state and to the caller's buffer.
pub record BusDevice (S : Type 0) : Type 0 where
  pub read : S → ℕ → ℕ → List ℕ → S × List ℕ
  pub write : S → ℕ → ℕ → List ℕ → S

module _ (D : Type 0) where
  pub record Bus : Type 0 where
    pub devices : List (BusRange × D)

abbrev pub starts_by : {D : Type 0} → ℕ → BusRange × D → Bool
starts_by addr (r, dev) = leb r.base addr

-- `BTreeMap::insert`: of two equal keys the old one stays, with the new value, and the old value
-- is returned.
pub map_insert : {D : Type 0} → BusRange → D → List (BusRange × D) → List (BusRange × D) × Option D
map_insert r dev [] = ((r, dev) ∷ [], none)
map_insert r dev ((r', dev') ∷ rest) =
    let later = map_insert r dev rest in
    if ltb r.base r'.base
    then ((r, dev) ∷ (r', dev') ∷ rest, none)
    else if r.base == r'.base
    then ((r', dev) ∷ rest, some dev')
    else ((r', dev') ∷ later.0, later.1)

module _ {D : Type 0} where
  pub new : Bus D
  new = record { devices = [] }

  pub first_before : Bus D → ℕ → Option (BusRange × D)
  first_before bus addr = find (starts_by addr) (reverse bus.devices)

  -- The device that answers at `addr`, and the offset that it is given.
  pub get_device : Bus D → ℕ → Option (ℕ × D)
  get_device bus addr = elim (first_before bus addr) [
    | none ↦ none
    | some (r, dev) ↦
        let offset = sub64 addr r.base in if ltb offset r.len then some (offset, dev) else none
  ]

  -- The bus afterwards stands beside the result.
  pub insert : Bus D → D → ℕ → ℕ → Result (Unit {0}) Error × Bus D
  insert bus dev base len = if len == 0 then (err overlap, bus) else elim (get_device bus base) [
    | some _ ↦ (err overlap, bus)
    | none ↦
        let added = map_insert (record { base = base; len = len }) dev bus.devices in
        let stored : Result (Unit {0}) Error × Bus D = elim added.1 [
          | some _ ↦ (err overlap, record { devices = added.0 })
          | none ↦ (ok tt, record { devices = added.0 })
        ] in
        elim (first_before bus (sub64 (u64 (base + len)) 1)) [
          | some (r, _) ↦ (if leb base r.base then (err overlap, bus) else stored)
          | none ↦ stored
        ]
  ]

-- The devices' states by handle; a call locks one device and replaces its state.
abbrev pub update : {S : Type 0} → (ℕ → S) → ℕ → S → ℕ → S
update store h s k = if k == h then s else store k

module _ {S : Type 0} (device : ℕ → BusDevice S) where
  unfoldable pub read : Bus ℕ → (ℕ → S) → ℕ → ℕ → List ℕ → Bool × (ℕ → S) × List ℕ
  read bus store vcpuid addr buf = elim (get_device bus addr) [
    | none ↦ (false, store, buf)
    | some (offset, dev) ↦
        let answer = (device dev).read (store dev) vcpuid offset buf in
        (true, update store dev answer.0, answer.1)
  ]

  unfoldable pub write : Bus ℕ → (ℕ → S) → ℕ → ℕ → List ℕ → Bool × (ℕ → S)
  write bus store vcpuid addr buf = elim (get_device bus addr) [
    | none ↦ (false, store)
    | some (offset, dev) ↦
        (true, update store dev ((device dev).write (store dev) vcpuid offset buf))
  ]
