-- ===== src/Worker/Reasons.antt =====
-- Why a pass of the workers' loop is over, and what one chain does to the queue.
use whypa.Base.{
  ℕ, ◌+◌, ◌%◌, ◌^◌, ◌==◌, ◌≤◌, ◌<◌, ◌≡◌, refl, sym, ap, ◌∙◌, ◌≢◌, ◌⊎◌, inl, inr, false, Bool-cases,
  none, some, Option-cases, Host, ok, Result-cases, Outcome, done, panic, Outcome-cases, sub16,
  arith,
}
use whypa.Memory.{MemoryManager}
use whypa.Queue.Descriptor.{DescriptorChain, checked_new, collect}
use whypa.Queue.Vring.{Queue, PopReads, actual_size, pop, len, advance_used, avail_idx}
use whypa.Queue.Pop.{ring_entry, pop-some}
use whypa.Worker.{Answer, skipped, used, unsignalled, Worker, Pass, answer, serve, take_chain}
use whypa.Worker.Moved.{Moved, Moved-step, Moved-trans, add_used-queue}

module _ {D : Type 0} (w : Worker D) (mem : MemoryManager) where
  answer-queue :
      (head : DescriptorChain) (p : Pass D) (a : Answer) (dev : D) (host : Host)
      → ((answer w mem head p (a, dev, host)).queue ≡ p.queue)
        ⊎ ((answer w mem head p (a, dev, host)).queue ≡ advance_used p.queue)
  unfolding answer
  answer-queue head p skipped dev host = inl refl
  answer-queue head p (used len) dev host =
      add_used-queue p.queue mem host head.index (len % 2 ^ 32)
  answer-queue head p (unsignalled len) dev host =
      add_used-queue p.queue mem host head.index (len % 2 ^ 32)

  pub serve-queue :
      (head : DescriptorChain) (p : Pass D) {p' : Pass D}
      → serve w mem head p ≡ done p'
      → (p'.queue ≡ p.queue) ⊎ (p'.queue ≡ advance_used p.queue)
  unfolding serve
  serve-queue head p {p'} e =
      elim (Option-cases (collect mem (λ i. p.host) (head.queue_size + 1) (some head))) [
        | inl nothing ↦ absurd (ground arith)
        | inr (descs, walked) ↦ elim (Outcome-cases (w.handle descs p.dev p.host)) [
          | inr panics ↦ absurd (ground arith)
          | inl (a, handled) ↦
              let same : answer w mem head p (a.0, a.1, a.2) ≡ p' = ground arith in
              elim (answer-queue head p a.0 a.1 a.2) [
                | inl q ↦ inl (ap (λ x. x.queue) (sym same) ∙ q)
                | inr q ↦ inr (ap (λ x. x.queue) (sym same) ∙ q)
              ]
        ]
      ]

  -- The entry of the available ring at the queue's position is no head of a chain.
  pub record Refuses (q : Queue) (host : Host) : Type 0 where
    pub index : ℕ
    pub in_ring :
        ring_entry q mem (record { at_idx = host; at_ring = host; at_desc = host }) ≡ ok index
    pub no_chain : checked_new mem host q.desc_table (actual_size q) index ≡ none

  pub take_chain-none :
      (q : Queue) (host : Host) (idx : ℕ) {q' : Queue}
      → take_chain w mem q host ≡ done (none, q')
      → avail_idx q mem host ≡ ok idx
      → (sub16 idx q.next_avail ≡ 0) ⊎ (actual_size q ≡ 0) ⊎ Refuses q host
  unfolding take_chain pop len
  take_chain-none q host idx took sees =
      let reads : PopReads = record { at_idx = host; at_ring = host; at_desc = host } in
      elim (Bool-cases (sub16 idx q.next_avail == 0)) [
        | inl over ↦ inl (ground arith)
        | inr left ↦ elim (Bool-cases (actual_size q == 0)) [
          | inl no_size ↦ inr (inl (ground arith))
          | inr sized ↦ elim (Result-cases (ring_entry q mem reads)) [
            | inr (x, failed) ↦ absurd (ground arith)
            | inl (i, entry) ↦
                elim (Option-cases (checked_new mem host q.desc_table (actual_size q) i)) [
                  | inr (c, found) ↦ absurd (ground arith)
                  | inl nothing ↦
                      inr (inr (record { index = i; in_ring = entry; no_chain = nothing }))
                ]
          ]
        ]
      ]

  -- The queue after a chain was taken and served.
  pub chain-Moved :
      (idx : ℕ) (p : Pass D) {head : DescriptorChain} {q : Queue} {p1 : Pass D}
      → take_chain w mem p.queue p.host ≡ done (some head, q)
      → serve w mem head (record p { queue = q }) ≡ done p1
      → avail_idx p.queue mem p.host ≡ ok idx
      → p.queue.next_used < 2 ^ 16
      → (m : Moved p.queue p1.queue) × (m.taken ≡ 1) × (sub16 idx p.queue.next_avail ≢ 0)
  unfolding take_chain
  chain-Moved idx p {head} {q} {p1} took served_one sees hu =
      let popped =
        pop-some p.queue mem (record { at_idx = p.host; at_ring = p.host; at_desc = p.host })
          {c = head} {q' = q} took in
      let same_idx : popped.0 ≡ idx = ground (arith, popped.1, sees) in
      let step =
        Moved-step p.queue q p1.queue popped.6 hu
          (serve-queue head (record p { queue = q }) {p' = p1} served_one) in
      (step.0, step.1, rw (← same_idx) popped.2)

  module _ (Holds : Host → Type 0) where
    -- From the queue `q`, the loop took at most `n` chains and ended at `p'` for one of these reasons: it took
    -- all of them, the device wants no more, the queue has no size, or a memory with the property
    -- has no chain at the next entry.
    pub record Over (n : ℕ) (q : Queue) (p' : Pass D) : Type 0 where
      pub moved : Moved q p'.queue
      pub bounded : moved.taken ≤ n
      pub reason :
          (moved.taken ≡ n)
          ⊎ ((dev : D) × (w.more dev ≡ (false, p'.dev)))
          ⊎ (actual_size p'.queue ≡ 0)
          ⊎ ((host : Host) × Holds host × Refuses p'.queue host)

    -- From the queue `q`, the loop came to a pass at which taking a chain, or serving the one taken, panics.
    pub record Stuck (q : Queue) : Type 0 where
      pub last : Pass D
      pub moved : Moved q last.queue
      pub holds : Holds last.host
      pub reason :
          (take_chain w mem last.queue last.host ≡ panic)
          ⊎ ((head : DescriptorChain) × (q1 : Queue) × (take_chain w mem last.queue last.host
                ≡ done (some head, q1))
              × (serve w mem head (record last { queue = q1 }) ≡ panic))

    abbrev pub Explained : ℕ → Queue → Outcome (Pass D) → Type 0
    Explained n q (done p') = Over n q p'
    Explained n q panic = Stuck q

    -- What explains the end after one more chain explains it from before that chain.
    pub Explained-step :
        (n n' : ℕ) (q q1 : Queue) (o : Outcome (Pass D)) (step : Moved q q1)
        → step.taken ≡ 1
        → n' + 1 ≡ n
        → Explained n' q1 o
        → Explained n q o
    Explained-step n n' q q1 (done p') step one closer e =
        let both = Moved-trans step e.moved in
        record {
          moved = both.0;
          bounded = omega (arith, both.1, one, closer, e.bounded);
          reason = elim e.reason [
            | inl all ↦ inl (omega (arith, both.1, one, closer, all))
            | inr other ↦ inr other
          ];
        }
    Explained-step n n' q q1 panic step one closer e = record {
      last = e.last;
      moved = (Moved-trans step e.moved).0;
      holds = e.holds;
      reason = e.reason;
    }
