-- ===== src/Bus/Lookup.antt =====
-- Which device answers at an address: the backwards search of bus.rs against a plain reading of
-- the ranges.
use whypa.Base.{
  ℕ, ◌+◌, ◌-◌, ◌^◌, ◌≤◌, ◌<◌, ◌≡◌, refl, ◌∙◌, ap, ltb, leb, if◌then◌else◌, Bool, Option, none, some,
  Option-cases, List, [], ◌∷◌, ◌&&◌, inl, inr, find_last, find-reverse, sub64, arith,
}
use whypa.Bus.{BusRange, Bus, starts_by, first_before, get_device}

-- Ranges in ascending order from `lo` on, nonempty, disjoint, and within 64 bits.
abbrev pub IsOrdered : {D : Type 0} → ℕ → List (BusRange × D) → Type 0
IsOrdered lo [] = Unit {0}
IsOrdered lo ((r, dev) ∷ rest) =
    (lo ≤ r.base) × (0 < r.len) × (r.base + r.len ≤ 2 ^ 64) × IsOrdered (r.base + r.len) rest

abbrev pub in_range : BusRange → ℕ → Bool
in_range r addr = leb r.base addr && ltb addr (r.base + r.len)

-- The first range that holds the address.
unfoldable pub lookup : {D : Type 0} → ℕ → List (BusRange × D) → Option (ℕ × D)
lookup addr [] = none
lookup addr ((r, dev) ∷ rest) =
    if in_range r addr then some (addr - r.base, dev) else lookup addr rest

-- What `get_device` makes of the search's result.
abbrev pub answer : {D : Type 0} → ℕ → Option (BusRange × D) → Option (ℕ × D)
answer addr none = none
answer addr (some (r, dev)) =
    let offset = sub64 addr r.base in if ltb offset r.len then some (offset, dev) else none

module _ {D : Type 0} (addr : ℕ) where
  pub find_last-starts :
      (lo : ℕ) (xs : List (BusRange × D)) {y : BusRange × D}
      → IsOrdered lo xs
      → find_last (starts_by addr) xs ≡ some y
      → (lo ≤ y.0.base) × (y.0.base ≤ addr)
  unfolding find_last
  find_last-starts lo [] v e = cc
  find_last-starts lo ((r, dev) ∷ rest) {y} v e =
      elim (Option-cases (find_last (starts_by addr) rest)) [
        | inl none_later ↦ ground arith
        | inr (z, found) ↦ ground (arith, find_last-starts (r.base + r.len) rest v.3 found)
      ]

  pub answer-find_last :
      (lo : ℕ) (xs : List (BusRange × D))
      → IsOrdered lo xs
      → addr < 2 ^ 64
      → answer addr (find_last (starts_by addr) xs) ≡ lookup addr xs
  unfolding find_last lookup
  answer-find_last lo [] v h = refl
  answer-find_last lo ((r, dev) ∷ rest) v h =
      elim (Option-cases (find_last (starts_by addr) rest)) [
        | inl none_later ↦ ground (arith, answer-find_last (r.base + r.len) rest v.3 h)
        | inr (z, found) ↦ ground (
          arith,
          answer-find_last (r.base + r.len) rest v.3 h,
          find_last-starts (r.base + r.len) rest v.3 found,
        )
      ]

pub first_before-find_last :
    {D : Type 0} (bus : Bus D) (addr : ℕ)
    → first_before bus addr ≡ find_last (starts_by addr) bus.devices
unfolding first_before
first_before-find_last bus addr = find-reverse (starts_by addr) bus.devices

get_device-answer :
    {D : Type 0} (bus : Bus D) (addr : ℕ)
    → get_device bus addr ≡ answer addr (first_before bus addr)
unfolding get_device
get_device-answer bus addr = ground arith

-- On a bus whose ranges are ordered and disjoint, the device found at an address is the one whose
-- range holds it, with the distance from its base as the offset, and none is found elsewhere.
pub get_device-lookup :
    {D : Type 0} (bus : Bus D) (addr : ℕ)
    → IsOrdered 0 bus.devices
    → addr < 2 ^ 64
    → get_device bus addr ≡ lookup addr bus.devices
get_device-lookup bus addr v h =
    get_device-answer bus addr
    ∙ ap (answer addr) (first_before-find_last bus addr)
    ∙ answer-find_last addr 0 bus.devices v h
