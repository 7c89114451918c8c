-- ===== src/Base/Bytes.antt =====
-- Little-endian bytes of a number, and a byte memory.
use Prim.Native.Nat.{ℕ, zero, suc, ◌+◌, ◌*◌, ◌/◌, ◌%◌, ◌^◌, ◌≤◌, ◌<◌}
use native.Mathlib.Nat.{pow-suc}
use mathlib.Core.Path.{◌≡◌, refl, ap}
use mathlib.Core.Logic.{◌⊎◌, inl, inr}
use mathlib.Core.List.{List, [], ◌∷◌}
use native.Mathlib.Omega.{arith}
use whypa.Base.Tests.{◌==◌, if◌then◌else◌}
use whypa.Base.Lists.{length}

-- The `k` low bytes of `v`, lowest first, and the number that bytes stand for.
unfoldable pub to_le_bytes : ℕ → ℕ → List ℕ
to_le_bytes zero v = []
to_le_bytes (suc k) v = (v % 256) ∷ to_le_bytes k (v / 256)

unfoldable pub from_le_bytes : List ℕ → ℕ
from_le_bytes [] = 0
from_le_bytes (b ∷ bs) = b + 256 * from_le_bytes bs

pub length-to_le_bytes : (k v : ℕ) → length (to_le_bytes k v) ≡ k
unfolding to_le_bytes
length-to_le_bytes zero v = refl
length-to_le_bytes (suc k) v = ap suc (length-to_le_bytes k (v / 256))

pub from_le_bytes-to_le_bytes : (k v : ℕ) → v < 256 ^ k → from_le_bytes (to_le_bytes k v) ≡ v
unfolding to_le_bytes from_le_bytes
from_le_bytes-to_le_bytes zero v h = omega arith
from_le_bytes-to_le_bytes (suc k) v h =
    omega (arith, from_le_bytes-to_le_bytes k (v / 256) (omega (arith, pow-suc 256 k)))

-- Bytes by host address.
abbrev pub Host : Type 0
Host = ℕ → ℕ

unfoldable pub copy_in : List ℕ → ℕ → Host → Host
copy_in [] p m = m
copy_in (b ∷ bs) p m = copy_in bs (p + 1) (λ a. if a == p then b else m a)

unfoldable pub copy_out : Host → ℕ → ℕ → List ℕ
copy_out m p zero = []
copy_out m p (suc n) = m p ∷ copy_out m (p + 1) n

-- Bytes outside the copied range stay.
pub copy_in_outside :
    (bs : List ℕ) (p a : ℕ) (m : Host) → (a < p) ⊎ (p + length bs ≤ a) → copy_in bs p m a ≡ m a
unfolding copy_in
copy_in_outside [] p a m h = refl
copy_in_outside (b ∷ bs) p a m (inl h) =
    ground
      (arith, copy_in_outside bs (p + 1) a (λ c. if c == p then b else m c) (inl (omega arith)))
copy_in_outside (b ∷ bs) p a m (inr h) =
    ground
      (arith, copy_in_outside bs (p + 1) a (λ c. if c == p then b else m c) (inr (omega arith)))

-- A range that the copy does not meet reads as before.
pub copy_out-copy_in_outside :
    (bs : List ℕ) (p q n : ℕ) (m : Host)
    → (q + n ≤ p) ⊎ (p + length bs ≤ q)
    → copy_out (copy_in bs p m) q n ≡ copy_out m q n
unfolding copy_out
copy_out-copy_in_outside bs p q zero m h = refl
copy_out-copy_in_outside bs p q (suc n) m h = ground (
  arith,
  copy_in_outside bs p q m (omega arith),
  copy_out-copy_in_outside bs p (q + 1) n m (omega arith),
)

pub copy_out-copy_in :
    (bs : List ℕ) (p : ℕ) (m : Host) → copy_out (copy_in bs p m) p (length bs) ≡ bs
unfolding copy_in copy_out
copy_out-copy_in [] p m = refl
copy_out-copy_in (b ∷ bs) p m = ground (
  arith,
  copy_in_outside bs (p + 1) p (λ a. if a == p then b else m a) (inl (omega arith)),
  copy_out-copy_in bs (p + 1) (λ a. if a == p then b else m a),
)
