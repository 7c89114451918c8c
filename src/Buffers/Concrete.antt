-- ===== src/Buffers/Concrete.antt =====
-- Slices as pairs of an address and a length, to try the models of readers and writers on.
use whypa.Base.{ℕ, ◌+◌, ◌-◌, refl, leb, if◌then◌else◌, none, some, arith}
use whypa.Buffers.Slice.{VolatileSlice, IsVolatileSlice}

abbrev pub slices : VolatileSlice (ℕ × ℕ)
slices = record {
  with_bitmap = λ p n. (p, n);
  ptr = λ v. v.0;
  len = λ v. v.1;
  offset = λ v n. if leb n v.1 then some (v.0 + n, v.1 - n) else none;
}

pub slices-IsVolatileSlice : IsVolatileSlice slices
slices-IsVolatileSlice = record {
  ptr_new = λ p n. refl;
  len_new = λ p n. refl;
  offset_within = λ v n h. ((v.0 + n, v.1 - n), ground arith, refl, omega arith);
  offset_past = λ v n h. ground arith;
}
