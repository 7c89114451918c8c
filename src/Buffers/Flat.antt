-- ===== src/Buffers/Flat.antt =====
-- The abstract view of a consumer: the host addresses of its bytes, in order. What reading and
-- writing through the slices does to it.
use whypa.Base.{
  ℕ, zero, suc, ◌+◌, ◌-◌, ◌≤◌, ◌≡◌, refl, sym, ap, ◌∙◌, ◌==◌, if◌then◌else◌, List, [], ◌∷◌, ◌++◌,
  length, length-append, take, drop, take-append, drop-min, length-take, map, map-append, min, Host,
  copy_in, copy_out, arith,
}
use whypa.Buffers.Slice.{VolatileSlice}
use whypa.Buffers.Consumer.{gather, scatter, copied}

-- `n` addresses from `p` on.
unfoldable pub span : ℕ → ℕ → List ℕ
span p zero = []
span p (suc n) = p ∷ span (p + 1) n

-- Stores of the bytes at the addresses, one after another, while there are both.
unfoldable pub put_all : List ℕ → List ℕ → Host → Host
put_all [] bytes m = m
put_all (a ∷ as') [] m = m
put_all (a ∷ as') (b ∷ bytes) m = put_all as' bytes (λ x. if x == a then b else m x)

pub length-span : (p n : ℕ) → length (span p n) ≡ n
unfolding span
length-span p zero = refl
length-span p (suc n) = omega (arith, length-span (p + 1) n)

pub copy_out-span : (m : Host) (p n : ℕ) → copy_out m p n ≡ map m (span p n)
unfolding copy_out span
copy_out-span m p zero = refl
copy_out-span m p (suc n) = ap (λ r. m p ∷ r) (copy_out-span m (p + 1) n)

pub copy_in-span :
    (bs : List ℕ) (p : ℕ) (m : Host) → copy_in bs p m ≡ put_all (span p (length bs)) bs m
unfolding copy_in span put_all
copy_in-span [] p m = refl
copy_in-span (b ∷ bs) p m = copy_in-span bs (p + 1) (λ a. if a == p then b else m a)

-- The first bytes of a range, and the others.
pub span-take : (p n k : ℕ) → take k (span p n) ≡ span p (min k n)
unfolding span
span-take p n zero = ground arith
span-take p zero (suc k) = ground arith
span-take p (suc n) (suc k) = ground (arith, span-take (p + 1) n k)

pub span-drop : (p n k : ℕ) → k ≤ n → drop k (span p n) ≡ span (p + k) (n - k)
unfolding span
span-drop p n zero h = ground arith
span-drop p zero (suc k) h = ground arith
span-drop p (suc n) (suc k) h = ground (arith, span-drop (p + 1) n k)

pub put_all-nil : (xs : List ℕ) (m : Host) → put_all xs [] m ≡ m
unfolding put_all
put_all-nil [] m = refl
put_all-nil (x ∷ xs) m = refl

-- Bytes that are stored one after another.
pub put_all-bytes :
    (xs as' bs : List ℕ) (m : Host)
    → length as' ≤ length xs
    → put_all (drop (length as') xs) bs (put_all xs as' m) ≡ put_all xs (as' ++ bs) m
unfolding put_all
put_all-bytes xs [] bs m h = ap (put_all xs bs) (put_all-nil xs m)
put_all-bytes [] (a ∷ as') bs m h = absurd (omega arith)
put_all-bytes (x ∷ xs) (a ∷ as') bs m h =
    put_all-bytes xs as' bs (λ y. if y == x then a else m y) (omega arith)

pub put_all-none : (xs bytes : List ℕ) (m : Host) → length xs ≡ 0 → put_all xs bytes m ≡ m
unfolding put_all
put_all-none [] bytes m h = refl
put_all-none (x ∷ xs) bytes m h = absurd (omega arith)

put_all-append :
    (xs ys bytes : List ℕ) (m : Host)
    → put_all (xs ++ ys) bytes m ≡ put_all ys (drop (length xs) bytes) (put_all xs bytes m)
unfolding put_all
put_all-append [] ys bytes m = refl
put_all-append (x ∷ xs) [] [] m = refl
put_all-append (x ∷ xs) (y ∷ ys) [] m = refl
put_all-append (x ∷ xs) ys (b ∷ bytes) m =
    put_all-append xs ys bytes (λ a. if a == x then b else m a)

-- Bytes past the last address are not stored.
put_all-take :
    (xs bytes : List ℕ) (m : Host) → put_all xs (take (length xs) bytes) m ≡ put_all xs bytes m
unfolding put_all
put_all-take [] bytes m = refl
put_all-take (x ∷ xs) [] m = refl
put_all-take (x ∷ xs) (b ∷ bytes) m = put_all-take xs bytes (λ a. if a == x then b else m a)

-- Addresses past the last byte are not stored to.
pub put_all-cut :
    (xs bytes : List ℕ) (m : Host) → put_all (take (length bytes) xs) bytes m ≡ put_all xs bytes m
unfolding put_all
put_all-cut [] [] m = refl
put_all-cut [] (b ∷ bytes) m = refl
put_all-cut (x ∷ xs) [] m = refl
put_all-cut (x ∷ xs) (b ∷ bytes) m = put_all-cut xs bytes (λ a. if a == x then b else m a)

put_all-min :
    (n : ℕ) (xs bytes : List ℕ) (m : Host)
    → n ≡ min (length bytes) (length xs)
    → put_all (take n xs) (take n bytes) m ≡ put_all xs bytes m
unfolding put_all
put_all-min zero [] bytes m h = refl
put_all-min zero (x ∷ xs) [] m h = refl
put_all-min zero (x ∷ xs) (b ∷ bytes) m h = absurd (omega arith)
put_all-min (suc n) [] bytes m h = absurd (omega arith)
put_all-min (suc n) (x ∷ xs) [] m h = absurd (omega arith)
put_all-min (suc n) (x ∷ xs) (b ∷ bytes) m h =
    put_all-min n xs bytes (λ a. if a == x then b else m a) (omega arith)

module _ {V : Type 0} (vs : VolatileSlice V) where
  unfoldable pub addresses : List V → List ℕ
  addresses [] = []
  addresses (v ∷ rest) = span (vs.ptr v) (vs.len v) ++ addresses rest

  -- Reading through the slices reads the first addresses, and writing writes them.
  pub gather-addresses :
      (host : Host) (rem : ℕ) (bufs : List V)
      → gather vs host rem bufs ≡ map host (take rem (addresses bufs))
  unfolding gather addresses
  gather-addresses host zero [] = refl
  gather-addresses host (suc rem) [] = refl
  gather-addresses host rem (v ∷ rest) =
      let size = length-span (vs.ptr v) (vs.len v) in
      let here : copy_out host (vs.ptr v) (min rem (vs.len v))
          ≡ map host (take rem (span (vs.ptr v) (vs.len v))) =
        copy_out-span host (vs.ptr v) (min rem (vs.len v))
        ∙ ap (map host) (sym (span-take (vs.ptr v) (vs.len v) rem)) in
      let left : rem - min rem (vs.len v) ≡ rem - length (span (vs.ptr v) (vs.len v)) =
        omega (arith, size) in
      rw
        (
          here,
          gather-addresses host (rem - min rem (vs.len v)) rest,
          left,
          take-append rem (span (vs.ptr v) (vs.len v)) (addresses rest),
        )
        (sym (map-append host (take rem (span (vs.ptr v) (vs.len v))) _))

  pub copied-addresses :
      (rem : ℕ) (bufs : List V) → copied vs rem bufs ≡ min rem (length (addresses bufs))
  unfolding copied addresses
  copied-addresses rem [] = omega arith
  copied-addresses rem (v ∷ rest) = omega (
    arith,
    copied-addresses (rem - min rem (vs.len v)) rest,
    length-append (span (vs.ptr v) (vs.len v)) (addresses rest),
    length-span (vs.ptr v) (vs.len v),
  )

  pub scatter-addresses :
      (bytes : List ℕ) (bufs : List V) (m : Host)
      → scatter vs bytes bufs m ≡ put_all (addresses bufs) bytes m
  unfolding scatter addresses
  scatter-addresses bytes [] m = unfold put_all in refl
  scatter-addresses bytes (v ∷ rest) m =
      let n = min (length bytes) (vs.len v) in
      let cells = span (vs.ptr v) (vs.len v) in
      let size = length-span (vs.ptr v) (vs.len v) in
      let shown : span (vs.ptr v) (length (take n bytes)) ≡ take n cells =
        ap (span (vs.ptr v)) (omega (arith, length-take n bytes))
        ∙ sym (span-take (vs.ptr v) (vs.len v) n) in
      let here : copy_in (take n bytes) (vs.ptr v) m ≡ put_all cells bytes m =
        copy_in-span (take n bytes) (vs.ptr v) m
        ∙ ap (λ xs. put_all xs (take n bytes) m) shown
        ∙ put_all-min n cells bytes m (omega (arith, size)) in
      let later : drop n bytes ≡ drop (length cells) bytes = rw size (drop-min (vs.len v) bytes) in
      rw here (
        scatter-addresses (drop n bytes) rest (put_all cells bytes m)
        ∙ ap (λ r. put_all (addresses rest) r (put_all cells bytes m)) later
        ∙ sym (put_all-append cells (addresses rest) bytes m))
