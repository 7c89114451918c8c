-- ===== src/Buffers/Consume.antt =====
-- Reading and writing through a consumer, in terms of the addresses of its bytes.
use whypa.Base.{
  ℕ, ◌+◌, ◌-◌, ◌^◌, ◌≤◌, ◌<◌, ◌≡◌, refl, sym, ap, ◌∙◌, subst, ltb, leb, if◌then◌else◌, Bool-cases,
  inl, inr, some, List, [], ◌∷◌, ◌++◌, length, length-append, take, drop, take-append, drop-append,
  drop_all, drop_within, length-take, map, min, Host, Result, ok, done, checked_add64, arith,
}
use whypa.Buffers.Slice.{VolatileSlice, IsVolatileSlice}
use whypa.Buffers.Consumer.{
  DescriptorChainConsumer, IoError, pick, pop_consumed, settle, consume_bufs, consume, gather,
  scatter, copied, read, write,
}
use whypa.Buffers.Flat.{
  span, put_all, addresses, length-span, span-drop, put_all-cut, gather-addresses,
  scatter-addresses, copied-addresses,
}

module _ {V : Type 0} (vs : VolatileSlice V) (law : IsVolatileSlice vs) where
  -- The bytes that are left, counted.
  abbrev pub left : DescriptorChainConsumer V → ℕ
  left c = length (addresses vs c.buffers)

  pub length-addresses :
      (v : V) (rest : List V)
      → length (addresses vs (v ∷ rest)) ≡ vs.len v + length (addresses vs rest)
  unfolding addresses
  length-addresses v rest = omega (
    arith,
    length-append (span (vs.ptr v) (vs.len v)) (addresses vs rest),
    length-span (vs.ptr v) (vs.len v),
  )

  -- The slice that `offset` gives.
  pub offset-span :
      (v : V) (n : ℕ)
      → n ≤ vs.len v
      → (w : V) × (vs.offset v n ≡ some w)
        × (span (vs.ptr w) (vs.len w) ≡ drop n (span (vs.ptr v) (vs.len v)))
  offset-span v n h =
      let cut = law.offset_within v n h in
      (
        cut.0,
        cut.1,
        ap (λ p. span p (vs.len cut.0)) cut.2
            ∙ ap (span (vs.ptr v + n)) (omega (arith, cut.3))
            ∙ sym (span-drop (vs.ptr v) (vs.len v) n h),
      )

  -- `pop_front` and `push_front` leave all bytes but the first `rem`, and the `unwrap` holds.
  pub pop_consumed-addresses :
      (rem : ℕ) (bufs : List V)
      → (bufs' : List V) × (pop_consumed vs rem bufs ≡ done bufs')
        × (addresses vs bufs' ≡ drop rem (addresses vs bufs))
  unfolding pop_consumed addresses
  pop_consumed-addresses rem [] = ([], refl, sym (drop_all rem [] (omega arith)))
  pop_consumed-addresses rem (v ∷ rest) =
      let cells = span (vs.ptr v) (vs.len v) in
      let size : length cells ≡ vs.len v = length-span (vs.ptr v) (vs.len v) in
      let dropped = drop-append rem cells (addresses vs rest) in
      elim (Bool-cases (ltb rem (vs.len v))) [
        | inl e ↦
            let cut = offset-span v rem (ground arith) in
            (
              cut.0 ∷ rest,
              rw (e, cut.1) refl,
              ap (λ xs. xs ++ addresses vs rest) cut.2
                  ∙ sym (drop_within rem cells (addresses vs rest) (ground (arith, size))),
            )
        | inr e ↦
            let later = pop_consumed-addresses (rem - vs.len v) rest in
            let gone : drop rem cells ≡ [] = drop_all rem cells (ground (arith, size)) in
            (
              later.0,
              rw e later.1,
              later.2
                  ∙ ap (λ k. drop (rem - k) (addresses vs rest)) (sym size)
                  ∙ ap (λ xs. xs ++ drop (rem - length cells) (addresses vs rest)) (sym gone)
                  ∙ sym dropped,
            )
      ]

  -- The picked slices hold the first `count` bytes, if there are so many.
  pub pick-addresses :
      (buflen count : ℕ) (bufs : List V)
      → take (count - buflen) (addresses vs (pick vs buflen count bufs))
        ≡ take (count - buflen) (addresses vs bufs)
  unfolding pick addresses
  pick-addresses buflen count [] = refl
  pick-addresses buflen count (v ∷ rest) = elim (Bool-cases (leb count buflen)) [
    | inl e ↦ let enough : count - buflen ≡ 0 = ground arith in rw (e, enough) refl
    | inr e ↦
        let cells = span (vs.ptr v) (vs.len v) in
        let k = count - buflen in
        let next = if ltb k (vs.len v) then buflen + k else buflen + vs.len v in
        let size : length cells ≡ vs.len v = length-span (vs.ptr v) (vs.len v) in
        let same : k - length cells ≡ count - next = ground (arith, size) in
        rw e (
          take-append k cells (addresses vs (pick vs next count rest))
          ∙ ap (λ j. take k cells ++ take j (addresses vs (pick vs next count rest))) same
          ∙ ap (λ xs. take k cells ++ xs) (pick-addresses next count rest)
          ∙ ap (λ j. take k cells ++ take j (addresses vs rest)) (sym same)
          ∙ sym (take-append k cells (addresses vs rest)))
  ]

  -- How a consumer goes on from a closure that answers `n` and takes the picked slices for the
  -- first `count` bytes.
  unfoldable pub Consumed : DescriptorChainConsumer V → ℕ → DescriptorChainConsumer V → Type 0
  Consumed c n c' =
      (addresses vs c'.buffers ≡ drop n (addresses vs c.buffers))
      × (c'.bytes_consumed ≡ c.bytes_consumed + n)

  settle_lem :
      {S : Type 0} (c : DescriptorChainConsumer V) (n : ℕ) (s : S)
      → c.bytes_consumed + n < 2 ^ 64
      → (c' : DescriptorChainConsumer V) × (settle vs c (ok n, s) ≡ done (ok n, c', s))
        × Consumed c n c'
  unfolding settle Consumed
  settle_lem c n s h =
      let popped = pop_consumed-addresses n c.buffers in
      let fits : checked_add64 c.bytes_consumed n ≡ some (c.bytes_consumed + n) = ground arith in
      (
        record { buffers = popped.0; bytes_consumed = c.bytes_consumed + n },
        rw (settle, fits, popped.1) refl,
        (popped.2, refl),
      )

  picked_take :
      (count : ℕ) (bufs : List V)
      → take count (addresses vs (pick vs 0 count bufs)) ≡ take count (addresses vs bufs)
  picked_take count bufs =
      let all : count - 0 ≡ count = omega arith in
      subst (λ k. take k (addresses vs (pick vs 0 count bufs)) ≡ take k (addresses vs bufs)) all
        (pick-addresses 0 count bufs)

  picked_length :
      (count : ℕ) (bufs : List V)
      → min count (length (addresses vs (pick vs 0 count bufs)))
        ≡ min count (length (addresses vs bufs))
  picked_length count bufs = omega (
    arith,
    ap length (picked_take count bufs),
    length-take count (addresses vs (pick vs 0 count bufs)),
    length-take count (addresses vs bufs),
  )

  consume_bufs_lem :
      {S : Type 0} (k : List V → ℕ) (g : List V → S → S) (c : DescriptorChainConsumer V)
      (bufs : List V) (s : S)
      → k [] ≡ 0
      → g [] s ≡ s
      → c.bytes_consumed + k bufs < 2 ^ 64
      → (c' : DescriptorChainConsumer V) × (consume_bufs vs c bufs (λ bs t. (ok (k bs), g bs t)) s
          ≡ done (ok (k bufs), c', g bufs s))
        × Consumed c (k bufs) c'
  unfolding consume_bufs Consumed
  consume_bufs_lem k g c [] s none_copied kept h =
      (c, rw (none_copied, kept) refl, (rw none_copied refl, omega (arith, none_copied)))
  consume_bufs_lem k g c (b ∷ bufs) s none_copied kept h =
      settle_lem c (k (b ∷ bufs)) (g (b ∷ bufs) s) h

  answered :
      {S : Type 0} (c : DescriptorChainConsumer V) (bufs : List V)
      (f : List V → S → Result ℕ IoError × S) (s s' : S) (n : ℕ)
      → f [] s ≡ (ok 0, s)
      → f bufs s ≡ (ok n, s')
      → c.bytes_consumed + n < 2 ^ 64
      → (c' : DescriptorChainConsumer V) × (consume_bufs vs c bufs f s ≡ done (ok n, c', s'))
        × Consumed c n c'
  unfolding consume_bufs Consumed
  answered c [] f s s' n idle e h =
      let same : (ok 0, s) ≡ (ok n, s') = sym idle ∙ e in
      let zero : 0 ≡ n = ground (arith, ap (λ x. x.0) same) in
      (
        c,
        ap (λ x. done (x.0, c, x.1)) same,
        subst
            (λ k.
              (addresses vs c.buffers ≡ drop k (addresses vs c.buffers))
              × (c.bytes_consumed ≡ c.bytes_consumed + k))
            zero (refl, omega arith),
      )
  answered c (b ∷ bufs) f s s' n idle e h =
      let settled = settle_lem c n s' h in (settled.0, ap (settle vs c) e ∙ settled.1, settled.2)

  -- A closure that does nothing without slices, and that answers `n`.
  pub consume-Consumed :
      {S : Type 0} (c : DescriptorChainConsumer V) (count : ℕ)
      (f : List V → S → Result ℕ IoError × S) (s s' : S) (n : ℕ)
      → f [] s ≡ (ok 0, s)
      → f (pick vs 0 count c.buffers) s ≡ (ok n, s')
      → c.bytes_consumed + n < 2 ^ 64
      → (c' : DescriptorChainConsumer V) × (consume vs c count f s ≡ done (ok n, c', s'))
        × Consumed c n c'
  unfolding consume
  consume-Consumed c count f s s' n idle e h =
      answered c (pick vs 0 count c.buffers) f s s' n idle e h

  -- Reading gives the bytes at the first addresses of the slices, as many as there are up to the
  -- count, and takes just these addresses off the consumer, if the bytes that were consumed and those
  -- that are left are together less than 2 ^ 64.
  pub read_lem :
      (c : DescriptorChainConsumer V) (host : Host) (count : ℕ)
      → c.bytes_consumed + left c < 2 ^ 64
      → (c' : DescriptorChainConsumer V) × (read vs c host count
          ≡ done (ok (min count (left c)), c', map host (take count (addresses vs c.buffers))))
        × Consumed c (min count (left c)) c'
  unfolding read consume
  read_lem c host count h =
      let picked = pick vs 0 count c.buffers in
      let n : copied vs count picked ≡ min count (left c) =
        copied-addresses vs count picked ∙ picked_length count c.buffers in
      let bytes : gather vs host count picked ≡ map host (take count (addresses vs c.buffers)) =
        gather-addresses vs host count picked ∙ ap (map host) (picked_take count c.buffers) in
      let consumed =
        consume_bufs_lem (copied vs count) (λ bufs s. gather vs host count bufs) c picked []
          (unfold copied in refl) (unfold gather in refl) (omega (arith, n)) in
      (
        consumed.0,
        consumed.1 ∙ rw (n, bytes) refl,
        subst (λ k. Consumed c k consumed.0) n consumed.2,
      )

  -- Writing stores the bytes one after another at the addresses of the slices, as many as there are
  -- addresses for, and takes just these addresses off the consumer, if the bytes that were consumed
  -- and those that are left are together less than 2 ^ 64.
  pub write_lem :
      (c : DescriptorChainConsumer V) (buf : List ℕ) (host : Host)
      → c.bytes_consumed + left c < 2 ^ 64
      → (c' : DescriptorChainConsumer V) × (write vs c buf host
          ≡ done (ok (min (length buf) (left c)), c', put_all (addresses vs c.buffers) buf host))
        × Consumed c (min (length buf) (left c)) c'
  unfolding write consume
  write_lem c buf host h =
      let picked = pick vs 0 (length buf) c.buffers in
      let n : copied vs (length buf) picked ≡ min (length buf) (left c) =
        copied-addresses vs (length buf) picked ∙ picked_length (length buf) c.buffers in
      let stored : scatter vs buf picked host ≡ put_all (addresses vs c.buffers) buf host =
        scatter-addresses vs buf picked host
        ∙ sym (put_all-cut (addresses vs picked) buf host)
        ∙ ap (λ xs. put_all xs buf host) (picked_take (length buf) c.buffers)
        ∙ put_all-cut (addresses vs c.buffers) buf host in
      let consumed =
        consume_bufs_lem (copied vs (length buf)) (scatter vs buf) c picked host
          (unfold copied in refl) (unfold scatter in refl) (omega (arith, n)) in
      (
        consumed.0,
        consumed.1 ∙ rw (n, stored) refl,
        subst (λ k. Consumed c k consumed.0) n consumed.2,
      )
