-- ===== src/Bus/Insert.antt =====
-- Registration of a device on a bus: the two overlap checks of bus.rs against the plain condition
-- that the new range meets no old one.
use whypa.Base.{
  ℕ, ◌+◌, ◌-◌, ◌^◌, ◌≤◌, ◌<◌, ◌≡◌, refl, sym, ◌∙◌, ap, if◌then◌else◌, none, some, Option-cases,
  List, [], ◌∷◌, ◌⊎◌, ◌↔◌, inl, inr, find_last, sub64, u64, Result, ok, err, arith, dec_lt,
}
use whypa.Bus.{
  BusRange, Bus, Error, overlap, starts_by, map_insert, first_before, get_device, insert,
}
use whypa.Bus.Lookup.{
  IsOrdered, in_range, lookup, find_last-starts, first_before-find_last, get_device-lookup,
}

-- The addresses from `base` up to `last` (exclusive) lie in no range.
abbrev pub IsFree : {D : Type 0} → ℕ → ℕ → List (BusRange × D) → Type 0
IsFree base last [] = Unit {0}
IsFree base last ((r, dev) ∷ rest) =
    ((last ≤ r.base) ⊎ (r.base + r.len ≤ base)) × IsFree base last rest

abbrev range : ℕ → ℕ → BusRange
range base len = record { base = base; len = len }

module _ {D : Type 0} (base len : ℕ) (full : 0 < len) where
  -- The two checks of `insert` pass only if the range is free.
  checks-IsFree :
      (lo : ℕ) (xs : List (BusRange × D))
      → IsOrdered lo xs
      → lookup base xs ≡ none
      → ((y : BusRange × D) → find_last (starts_by (base + len - 1)) xs ≡ some y → y.0.base < base)
      → IsFree base (base + len) xs
  unfolding lookup find_last
  checks-IsFree lo [] v c1 c2 = tt
  checks-IsFree lo ((r, dev) ∷ rest) v c1 c2 =
      elim (Option-cases (find_last (starts_by (base + len - 1)) rest)) [
        | inl none_later ↦ (
          ground (arith, c2 (r, dev)),
          checks-IsFree (r.base + r.len) rest v.3 (ground arith) (λ y e. cc),
        )
        | inr (z, found) ↦ (
          ground (arith, c2 z, find_last-starts (base + len - 1) (r.base + r.len) rest v.3 found),
          checks-IsFree (r.base + r.len) rest v.3 (ground arith) (λ y e. ground (arith, c2 y)),
        )
      ]

  IsFree-lookup : (xs : List (BusRange × D)) → IsFree base (base + len) xs → lookup base xs ≡ none
  unfolding lookup
  IsFree-lookup [] f = refl
  IsFree-lookup ((r, dev) ∷ rest) f = ground (arith, IsFree-lookup rest f.1)

  IsFree-find_last :
      (lo : ℕ) (xs : List (BusRange × D)) (y : BusRange × D)
      → IsOrdered lo xs
      → IsFree base (base + len) xs
      → find_last (starts_by (base + len - 1)) xs ≡ some y
      → y.0.base < base
  unfolding find_last
  IsFree-find_last lo [] y v f e = cc
  IsFree-find_last lo ((r, dev) ∷ rest) y v f e =
      elim (Option-cases (find_last (starts_by (base + len - 1)) rest)) [
        | inl none_later ↦ ground arith
        | inr (z, found) ↦ ground (arith, IsFree-find_last (r.base + r.len) rest z v.3 f.1 found)
      ]

  module _ (dev : D) (fits : base + len ≤ 2 ^ 64) where
    -- A free range finds its place in the order, and replaces nothing.
    map_insert-IsOrdered :
        (lo : ℕ) (xs : List (BusRange × D))
        → lo ≤ base
        → IsOrdered lo xs
        → IsFree base (base + len) xs
        → IsOrdered lo (map_insert (range base len) dev xs).0
          × ((map_insert (range base len) dev xs).1 ≡ none)
    unfolding map_insert
    map_insert-IsOrdered lo [] h v f = (ground arith, refl)
    map_insert-IsOrdered lo ((r, dev') ∷ rest) h v (inl before, f) = ground arith
    map_insert-IsOrdered lo ((r, dev') ∷ rest) h v (inr after, f) =
        ground (arith, map_insert-IsOrdered (r.base + r.len) rest after v.3 f)

    map_insert-lookup :
        (lo : ℕ) (xs : List (BusRange × D)) (addr : ℕ)
        → IsOrdered lo xs
        → IsFree base (base + len) xs
        → lookup addr (map_insert (range base len) dev xs).0
          ≡ (if in_range (range base len) addr then some (addr - base, dev) else lookup addr xs)
    unfolding map_insert lookup
    map_insert-lookup lo [] addr v f = refl
    map_insert-lookup lo ((r, dev') ∷ rest) addr v (inl before, f) = ground arith
    map_insert-lookup lo ((r, dev') ∷ rest) addr v (inr after, f) =
        ground (arith, map_insert-lookup (r.base + r.len) rest addr v.3 f)

abbrev inserted : {D : Type 0} → Bus D → D → ℕ → ℕ → Bus D
inserted bus dev base len = record { devices = (map_insert (range base len) dev bus.devices).0 }

module _ {D : Type 0} (bus : Bus D) (dev : D) (base len : ℕ) (v : IsOrdered 0 bus.devices)
    (fits : base + len ≤ 2 ^ 64) where
  -- The address that the second check asks about does not wrap.
  second_check :
      0 < len → first_before bus (sub64 (u64 (base + len)) 1) ≡ first_before bus (base + len - 1)
  second_check full =
      let no_wrap : sub64 (u64 (base + len)) 1 ≡ base + len - 1 = omega arith in
      ap (first_before bus) no_wrap

  insert_passes :
      0 < len
      → get_device bus base ≡ none
      → ((y : BusRange × D) → first_before bus (base + len - 1) ≡ some y → y.0.base < base)
      → IsFree base (base + len) bus.devices
      → insert bus dev base len ≡ (ok tt, inserted bus dev base len)
  unfolding insert
  insert_passes full c1 c2 f = elim (Option-cases (first_before bus (base + len - 1))) [
    | inl nothing ↦ ground (
      arith,
      second_check full,
      map_insert-IsOrdered base len full dev fits 0 bus.devices (omega arith) v f,
    )
    | inr (y, found) ↦ ground (
      arith,
      second_check full,
      c2 y found,
      map_insert-IsOrdered base len full dev fits 0 bus.devices (omega arith) v f,
    )
  ]

  pub insert_accepts :
      0 < len
      → IsFree base (base + len) bus.devices
      → insert bus dev base len ≡ (ok tt, inserted bus dev base len)
  insert_accepts full f =
      insert_passes full
        (get_device-lookup bus base v (omega arith) ∙ IsFree-lookup base len full bus.devices f)
        (λ y e.
          IsFree-find_last base len full 0 bus.devices y v f
            (sym (first_before-find_last bus (base + len - 1)) ∙ e))
        f

  passing-IsFree :
      0 < len
      → get_device bus base ≡ none
      → ((y : BusRange × D) → first_before bus (base + len - 1) ≡ some y → y.0.base < base)
      → IsFree base (base + len) bus.devices
  passing-IsFree full c1 c2 =
      checks-IsFree base len full 0 bus.devices v
        (sym (get_device-lookup bus base v (omega arith)) ∙ c1)
        (λ y e. c2 y (first_before-find_last bus (base + len - 1) ∙ e))

  -- Any other call is refused and changes nothing.
  pub insert_cases :
      ((0 < len) × IsFree base (base + len) bus.devices)
      ⊎ (insert bus dev base len ≡ (err overlap, bus))
  insert_cases = elim (dec_lt 0 len) [
    | no empty ↦ inr (unfold insert in ground arith)
    | yes full ↦ elim (Option-cases (get_device bus base)) [
      | inr (y, found) ↦ inr (unfold insert in ground arith)
      | inl c1 ↦ elim (Option-cases (first_before bus (base + len - 1))) [
        | inl nothing ↦ inl (full, passing-IsFree full c1 (λ y e. cc))
        | inr (y, found) ↦ elim (dec_lt y.0.base base) [
          | yes before ↦ inl (full, passing-IsFree full c1 (λ z e. ground arith))
          | no after ↦ inr (unfold insert in ground (arith, second_check full))
        ]
      ]
    ]
  ]

  -- With ordered ranges, and a new range that stays within 64 bits, `insert` succeeds exactly when
  -- the new range is nonempty and meets no range of the bus.
  pub insert_iff :
      ((insert bus dev base len).0 ≡ ok tt) ↔ ((0 < len) × IsFree base (base + len) bus.devices)
  insert_iff = (
    λ accepted. elim insert_cases [ inl f ↦ f | inr e ↦ absurd (ground arith) ],
    λ f. ap (λ (r : Result (Unit {0}) Error × Bus D). r.0) (insert_accepts f.0 f.1),
  )

  -- With ordered ranges, and a new range that stays within 64 bits, the bus after `insert`,
  -- whether it succeeds or not, has ordered ranges again.
  pub insert-IsOrdered : IsOrdered 0 (insert bus dev base len).1.devices
  insert-IsOrdered = elim insert_cases [
    | inl (full, f) ↦
        rw (insert_accepts full f)
          (map_insert-IsOrdered base len full dev fits 0 bus.devices (omega arith) v f).0
    | inr e ↦ rw e v
  ]

  -- With ordered ranges, and a new range that stays within 64 bits, a successful `insert` routes
  -- the addresses of the new range to the new device and leaves all others as they were; a refused
  -- one leaves the bus as it was.
  pub insert-get_device :
      (addr : ℕ)
      → addr < 2 ^ 64
      → get_device (insert bus dev base len).1 addr ≡ (elim (insert bus dev base len).0 [
        | ok _ ↦
            (if in_range (range base len) addr
              then some (addr - base, dev)
              else get_device bus addr)
        | err _ ↦ get_device bus addr
      ])
  insert-get_device addr h = elim insert_cases [
    | inl (full, f) ↦ rw (insert_accepts full f) (
        get_device-lookup _ addr
          (map_insert-IsOrdered base len full dev fits 0 bus.devices (omega arith) v f).0 h
        ∙ map_insert-lookup base len full dev fits 0 bus.devices addr v f
        ∙ rw (get_device-lookup bus addr v h))
    | inr e ↦ rw e
  ]
