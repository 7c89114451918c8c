-- ===== src/Queue/Notify.antt =====
-- Notification suppression.
use whypa.Base.{
  ℕ, ◌+◌, ◌*◌, ◌^◌, ◌<◌, ◌≡◌, ◌↔◌, inl, inr, Bool, true, false, some, if◌then◌else◌, sub16, Host,
  Result-cases, ok, arith,
}
use whypa.Memory.{MemoryManager, contains, read_perm, find_region, load, store, MemoryRegion}
use whypa.Memory.Atomic.{load-store}
use whypa.Queue.Vring.{
  Queue, used_event, needs_notification, set_notification, enable_notification, avail_idx,
  set_avail_event, set_used_flags,
}

-- With event indices negotiated, the guest is to be notified exactly if one of the completions
-- added since the last question is the one that the guest's event index names, the completions
-- counting back from the last one, at 16 bits; the question resets their count.
pub needs_notification_iff :
    (q : Queue) (mem : MemoryManager) (host : Host) (event : ℕ)
    → q.event_idx_enabled ≡ true
    → used_event q mem host ≡ ok event
    → event < 2 ^ 16
    → q.next_used < 2 ^ 16
    → q.num_added < 2 ^ 16
    → (((needs_notification q mem host).0 ≡ ok true)
        ↔ ((k : ℕ) × (k < q.num_added) × (sub16 q.next_used (k + 1) ≡ event)))
      × ((needs_notification q mem host).1 ≡ record q { num_added = 0 })
unfolding needs_notification
needs_notification_iff q mem host event on loaded he hu hn =
    let back : ℕ = sub16 (sub16 q.next_used event) 1 in
    let count : sub16 q.next_used (sub16 q.next_used q.num_added) ≡ q.num_added = omega arith in
    ((λ yes'. (back, ground arith, ground arith), λ p. ground (arith, p.1, p.2)), ground arith)

abbrev Readable : MemoryManager → ℕ → Type 0
Readable mem addr =
    (r : MemoryRegion) → find_region mem addr ≡ some r → contains r.perms read_perm ≡ true

abbrev avail_event_address : Queue → ℕ
avail_event_address q = q.used_ring + (4 + 8 * q.size)

set_avail_event_loads :
    (q : Queue) (mem : MemoryManager) (host host' : Host)
    → q.next_avail < 2 ^ 16
    → Readable mem (avail_event_address q)
    → set_avail_event q mem host q.next_avail ≡ ok host'
    → load mem host' 2 (avail_event_address q) ≡ ok q.next_avail
unfolding set_avail_event
set_avail_event_loads q mem host host' small readable e =
    elim (Result-cases (store mem host 2 q.next_avail (avail_event_address q))) [
      | inl (h, stored) ↦
          let same : h ≡ host' = ground arith in
          rw (← same) (
            load-store mem host (avail_event_address q) 2 q.next_avail (omega arith) stored
              readable)
      | inr (x, failed) ↦ absurd (ground arith)
    ]

-- With event indices negotiated, a device that is told to stop looking at the ring (`false`) has
-- first put its position where the guest sees it, and found, after whatever the guest did since,
-- that the available index was still at that position: no chain made available before that second
-- look is left without a notification.
pub enable_notification_misses_none :
    (q : Queue) (mem : MemoryManager) (guest : Host → Host) (host host' : Host)
    → q.event_idx_enabled ≡ true
    → q.next_avail < 2 ^ 16
    → Readable mem (avail_event_address q)
    → enable_notification q mem guest host ≡ ok (false, host')
    → (told : Host) × (load mem told 2 (avail_event_address q) ≡ ok q.next_avail)
      × (host' ≡ guest told)
      × (avail_idx q mem host' ≡ ok q.next_avail)
unfolding enable_notification set_notification
enable_notification_misses_none q mem guest host host' on small readable e =
    elim (Result-cases (set_avail_event q mem host q.next_avail)) [
      | inr (x, failed) ↦ absurd (ground arith)
      | inl (told, set) ↦ elim (Result-cases (avail_idx q mem (guest told))) [
        | inr (x, failed) ↦ absurd (ground arith)
        | inl (idx, loaded) ↦
            let seen : guest told ≡ host' = ground arith in
            (
              told,
              set_avail_event_loads q mem host told small readable set,
              ground arith,
              rw (← seen) (ground arith),
            )
      ]
    ]

-- Without event indices, asking for notifications clears the flags of the used ring, and declining
-- them sets `VRING_USED_F_NO_NOTIFY`; with event indices, declining writes nothing.
pub set_notification_flags :
    (q : Queue) (mem : MemoryManager) (host host' : Host) (enable : Bool)
    → Readable mem q.used_ring
    → set_notification q mem host enable ≡ ok host'
    → ((q.event_idx_enabled ≡ false) → load mem host' 2 q.used_ring ≡ ok (if enable then 0 else 1))
      × ((q.event_idx_enabled ≡ true) → (enable ≡ false) → host' ≡ host)
unfolding set_notification set_used_flags
set_notification_flags q mem host host' enable readable e = (
  λ off.
      let flags : ℕ = if enable then 0 else 1 in
      elim (Result-cases (store mem host 2 flags q.used_ring)) [
        | inl (h, stored) ↦
            let same : h ≡ host' = ground arith in
            rw (← same) (load-store mem host q.used_ring 2 flags (ground arith) stored readable)
        | inr (x, failed) ↦ absurd (ground arith)
      ],
  λ on declines. ground arith,
)
