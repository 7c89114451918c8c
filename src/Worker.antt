-- ===== src/Worker.antt =====
-- The loop that the workers of the virtio devices share: `process_queue`, `process_tx_queue` and the
-- receiving loops of src/devices/virtio/*/worker.rs, and the loop around it that turns the guest's
-- notifications off and on. The guest changes the memory before each look at the available ring, and
-- not while a chain is served. `none` means that the fuel is out; a panic is an `unwrap`.
pub mod Rng
pub mod Console
pub mod Net
pub mod Block
pub mod Moved
pub mod Reasons
pub mod Progress
mod Examples
use whypa.Base.{
  ℕ, zero, suc, ◌+◌, ◌%◌, ◌^◌, Bool, true, false, not, if◌then◌else◌, Option, none, some, List,
  Host, Result, ok, err, Outcome, done, panic, and_then,
}
use whypa.Memory.{MemoryManager}
use whypa.Queue.Descriptor.{DescriptorChain, collect}
use whypa.Queue.Vring.{
  Queue, PopReads, pop, add_used, needs_notification, disable_notification, enable_notification,
}

-- What becomes of a chain: nothing, so that it is never given back; it is given back with so many
-- bytes written; or it is given back and is no reason to signal the guest.
pub data Answer : Type 0 where
  skipped : Answer
  used : ℕ → Answer
  unsignalled : ℕ → Answer

-- A device's part of the loop. `more` is the loop's condition, `handle` serves the descriptors of a
-- chain, and `starved` follows when there is no chain.
pub record Worker (D : Type 0) : Type 0 where
  pub more : D → Bool × D
  pub handle : List DescriptorChain → D → Host → Outcome (Answer × D × Host)
  pub starved : D → D

pub record Pass (D : Type 0) : Type 0 where
  pub dev : D
  pub queue : Queue
  pub host : Host
  pub used_any : Bool

module _ {D : Type 0} (w : Worker D) (mem : MemoryManager) where
  -- An error of `add_used` is logged.
  give_back : DescriptorChain → ℕ → Bool → D → Host → Pass D → Pass D
  give_back head len signals dev host p =
      let returned = add_used p.queue mem host head.index (len % 2 ^ 32) in
      record { dev = dev; queue = returned.1; host = returned.2; used_any = signals }

  unfoldable pub answer : DescriptorChain → Pass D → Answer × D × Host → Pass D
  unfolding give_back
  answer head p (skipped, dev, host) = record p { dev = dev; host = host }
  answer head p (used len, dev, host) = give_back head len true dev host p
  answer head p (unsignalled len, dev, host) = give_back head len p.used_any dev host p

  unfoldable pub serve : DescriptorChain → Pass D → Outcome (Pass D)
  serve head p = elim (collect mem (λ i. p.host) (head.queue_size + 1) (some head)) [
    | none ↦ panic
    | some descs ↦ and_then (w.handle descs p.dev p.host) (λ a. done (answer head p a))
  ]

  -- `pop` at a memory that the guest leaves alone meanwhile.
  unfoldable pub take_chain : Queue → Host → Outcome (Option DescriptorChain × Queue)
  take_chain q host = pop q mem (record { at_idx = host; at_ring = host; at_desc = host })

  -- The chain that was taken, and the rest of the loop.
  unfoldable pub served :
      (Pass D → Option (Outcome (Pass D)))
      → Pass D
      → Outcome (Option DescriptorChain × Queue)
      → Option (Outcome (Pass D))
  served next p panic = some panic
  served next p (done (none, q)) = some (done (record p { dev = w.starved p.dev; queue = q }))
  served next p (done (some head, q)) = elim (serve head (record p { queue = q })) [
    | panic ↦ some panic
    | done p' ↦ next p'
  ]

  unfoldable pub drain : (ℕ → Host → Host) → ℕ → Pass D → Option (Outcome (Pass D))
  drain guest zero p = none
  drain guest (suc fuel) p =
      let ready = w.more p.dev in
      let host = guest fuel p.host in
      if ready.0
      then served (drain guest fuel) (record p { dev = ready.1; host = host })
          (take_chain p.queue host)
      else some (done (record p { dev = ready.1 }))

  -- The end of `process_queue`: whether the guest is signalled. Some workers ask the guest first.
  unfoldable pub signal : Bool → Pass D → Outcome (Bool × Pass D)
  signal asks p =
      if not p.used_any
      then done (false, p)
      else if asks
      then (let question = needs_notification p.queue mem p.host in
          elim question.0 [
            | err _ ↦ panic
            | ok needed ↦ done (needed, record p { queue = question.1 })
          ])
      else done (true, p)

  unfoldable pub process_queue :
      Bool → (ℕ → Host → Host) → ℕ → D → Queue → Host → Option (Outcome (Bool × Pass D))
  process_queue asks guest fuel dev queue host =
      elim (drain guest fuel (record { dev = dev; queue = queue; host = host; used_any = false })) [
        | none ↦ none
        | some p ↦ some (and_then p (signal asks))
      ]

  -- The end of a round of `process_virtio_queues`: it is repeated if the guest has added chains before
  -- the notifications were on. What is counted are the signals.
  unfoldable pub after_pass :
      (Pass D → Option (Outcome (ℕ × Pass D)))
      → (Host → Host)
      → Option (Outcome (Bool × Pass D))
      → Option (Outcome (ℕ × Pass D))
  after_pass next between none = none
  after_pass next between (some panic) = some panic
  after_pass next between (some (done (signalled, p))) =
      elim (enable_notification p.queue mem between p.host) [
        | err _ ↦ some panic
        | ok again ↦
            let p' = record p { host = again.1 } in
            elim (if again.0 then next p' else some (done (0, p'))) [
              | none ↦ none
              | some panic ↦ some panic
              | some (done last) ↦ some (done ((if signalled then 1 else 0) + last.0, last.1))
            ]
      ]

  unfoldable pub process_virtio_queues :
      Bool → (ℕ → Host → Host) → (Host → Host) → ℕ → ℕ → Pass D → Option (Outcome (ℕ × Pass D))
  process_virtio_queues asks guest between fuel zero p = none
  process_virtio_queues asks guest between fuel (suc rounds) p =
      elim (disable_notification p.queue mem p.host) [
        | err _ ↦ some panic
        | ok host ↦
            after_pass (process_virtio_queues asks guest between fuel rounds) between
              (process_queue asks guest fuel p.dev p.queue host)
      ]
