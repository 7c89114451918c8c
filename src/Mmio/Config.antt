-- ===== src/Mmio/Config.antt =====
-- The configuration space of the virtio devices: `read_config` of the block, network and console
-- devices, which read the bytes of a packed structure in the same way.
use whypa.Base.{
  ℕ, zero, suc, ◌+◌, ◌-◌, ◌<◌, ◌^◌, ◌≡◌, refl, sym, ap, ◌∙◌, Bool-cases, true, false, inl, inr, leb,
  ltb, if◌then◌else◌, none, some, List, [], ◌∷◌, ◌++◌, length, length-take, length-drop, get_or,
  take, drop, min, checked_add64, arith,
}

-- `write_all` into a buffer: the bytes come to its front.
unfoldable pub put_front : List ℕ → List ℕ → List ℕ
put_front bytes buf = bytes ++ drop (length bytes) buf

-- `config` is the structure as bytes; `buf` is what the buffer holds before.
unfoldable pub read_config : List ℕ → ℕ → List ℕ → List ℕ
read_config config offset buf =
    let config_len = length config in
    if leb config_len offset then buf else elim (checked_add64 offset (length buf)) [
      | none ↦ buf
      | some end ↦ put_front (take (min end config_len - offset) (drop offset config)) buf
    ]

get_or-append :
    (xs ys : List ℕ) (i : ℕ)
    → get_or (xs ++ ys) i 0
      ≡ (if ltb i (length xs) then get_or xs i 0 else get_or ys (i - length xs) 0)
get_or-append [] ys i =
    let e : ltb i 0 ≡ false = ground arith in rw e (ap (λ j. get_or ys j 0) (omega arith))
get_or-append (x ∷ xs) ys zero = let e : ltb 0 (suc (length xs)) ≡ true = ground arith in rw e refl
get_or-append (x ∷ xs) ys (suc i) = ground (arith, get_or-append xs ys i)

get_or-take : (k : ℕ) (xs : List ℕ) (i : ℕ) → i < k → get_or (take k xs) i 0 ≡ get_or xs i 0
get_or-take zero xs i h = absurd (omega arith)
get_or-take (suc k) [] i h = refl
get_or-take (suc k) (x ∷ xs) zero h = refl
get_or-take (suc k) (x ∷ xs) (suc i) h = get_or-take k xs i (omega arith)

get_or-drop : (k : ℕ) (xs : List ℕ) (i : ℕ) → get_or (drop k xs) i 0 ≡ get_or xs (k + i) 0
get_or-drop zero xs i = ap (λ j. get_or xs j 0) (omega arith)
get_or-drop (suc k) [] i = refl
get_or-drop (suc k) (x ∷ xs) i =
    let next : suc k + i ≡ suc (k + i) = omega arith in
    get_or-drop k xs i ∙ sym (ap (λ j. get_or (x ∷ xs) j 0) next)

-- After a read of the configuration space each byte of the buffer that has a place in the space is
-- the byte there, and each other byte is what it was; the read ends below 2 ^ 64.
pub read_config-get_or :
    (config buf : List ℕ) (offset i : ℕ)
    → i < length buf
    → offset + length buf < 2 ^ 64
    → get_or (read_config config offset buf) i 0
      ≡ (if ltb (offset + i) (length config) then get_or config (offset + i) 0 else get_or buf i 0)
unfolding read_config put_front
read_config-get_or config buf offset i h small =
    let bytes = take (min (offset + length buf) (length config) - offset) (drop offset config) in
    let n : length bytes ≡ min (offset + length buf) (length config) - offset = omega (
      arith,
      length-take (min (offset + length buf) (length config) - offset) (drop offset config),
      length-drop offset config,
    ) in
    let fits : checked_add64 offset (length buf) ≡ some (offset + length buf) = ground arith in
    elim (Bool-cases (leb (length config) offset)) [
      | inl past ↦
          let e : ltb (offset + i) (length config) ≡ false = ground arith in rw (past, e) refl
      | inr inside ↦ elim (Bool-cases (ltb (offset + i) (length config))) [
        | inl here ↦
            let e : ltb i (length bytes) ≡ true = ground (arith, n) in
            rw (inside, fits, here)
              (get_or-append bytes (drop (length bytes) buf) i
                ∙ rw e (
                    get_or-take (min (offset + length buf) (length config) - offset)
                      (drop offset config) i (ground (arith, n))
                    ∙ get_or-drop offset config i))
        | inr beyond ↦
            let e : ltb i (length bytes) ≡ false = ground (arith, n) in
            rw (inside, fits, beyond)
              (get_or-append bytes (drop (length bytes) buf) i
                ∙ rw e (
                    get_or-drop (length bytes) buf (i - length bytes)
                    ∙ ap (λ j. get_or buf j 0) (ground (arith, n))))
      ]
    ]
