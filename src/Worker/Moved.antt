-- ===== src/Worker/Moved.antt =====
-- How the positions of a queue move while chains are taken and given back.
use whypa.Base.{
  ℕ, ◌+◌, ◌^◌, ◌≤◌, ◌<◌, ◌≡◌, refl, ap, ◌∙◌, ◌⊎◌, inl, inr, Bool-cases, Option-cases, Host,
  Result-cases, Outcome, done, panic, Each, u16, leb, checked_add64, arith,
}
use whypa.Memory.{MemoryManager, store}
use whypa.Queue.Vring.{Queue, add_used, publish_used, advance_used, used_offset, avail_idx}

publish_used-queue :
    (q : Queue) (mem : MemoryManager) (host : Host) → (publish_used q mem host).1 ≡ q
unfolding publish_used
publish_used-queue q mem host = elim (Option-cases (checked_add64 q.used_ring 2)) [
  | inl nothing ↦ ground arith
  | inr (addr, found) ↦ elim (Result-cases (store mem host 2 q.next_used addr)) [
    | inl (h, stored) ↦ ground arith
    | inr (e, failed) ↦ ground arith
  ]
]

-- `add_used` moves the queue's position in the used ring on by one, or changes nothing.
pub add_used-queue :
    (q : Queue) (mem : MemoryManager) (host : Host) (head len : ℕ)
    → ((add_used q mem host head len).1 ≡ q) ⊎ ((add_used q mem host head len).1 ≡ advance_used q)
unfolding add_used
add_used-queue q mem host head len = elim (Bool-cases (leb q.size head)) [
  | inl e ↦ inl (ground arith)
  | inr e ↦ elim (Option-cases (checked_add64 q.used_ring (used_offset q))) [
    | inl nothing ↦ inl (ground arith)
    | inr (addr, found) ↦ inr (ground (arith, publish_used-queue (advance_used q) mem))
  ]
]

-- The positions after some chains were taken and some of them given back.
pub record Moved (q q' : Queue) : Type 0 where
  pub taken : ℕ
  pub returned : ℕ
  pub no_more : returned ≤ taken
  pub avail : q'.next_avail ≡ u16 (q.next_avail + taken)
  pub used_up : q'.next_used ≡ u16 (q.next_used + returned)
  pub same_avail_ring : q'.avail_ring ≡ q.avail_ring

pub Moved-refl :
    (q : Queue) → q.next_avail < 2 ^ 16 → q.next_used < 2 ^ 16 → (m : Moved q q) × (m.taken ≡ 0)
Moved-refl q small_avail small_used = (
  record {
    taken = 0;
    returned = 0;
    no_more = omega arith;
    avail = omega arith;
    used_up = omega arith;
    same_avail_ring = refl;
  },
  refl,
)

-- A chain was taken, and given back or not.
pub Moved-step :
    (q q' q'' : Queue)
    → q' ≡ record q { next_avail = u16 (q.next_avail + 1) }
    → q.next_used < 2 ^ 16
    → (q'' ≡ q') ⊎ (q'' ≡ advance_used q')
    → (m : Moved q q'') × (m.taken ≡ 1)
Moved-step q q' q'' e small (inl same) = (
  record {
    taken = 1;
    returned = 0;
    no_more = omega arith;
    avail = ap (λ x. x.next_avail) (same ∙ e);
    used_up = ap (λ x. x.next_used) (same ∙ e) ∙ omega arith;
    same_avail_ring = ap (λ x. x.avail_ring) (same ∙ e);
  },
  refl,
)
Moved-step q q' q'' e small (inr moved) = (
  record {
    taken = 1;
    returned = 1;
    no_more = omega arith;
    avail = ap (λ x. x.next_avail) (moved ∙ ap advance_used e);
    used_up = ap (λ x. x.next_used) (moved ∙ ap advance_used e);
    same_avail_ring = ap (λ x. x.avail_ring) (moved ∙ ap advance_used e);
  },
  refl,
)

pub Moved-trans :
    {q q' q'' : Queue} (a : Moved q q') (b : Moved q' q'')
    → (m : Moved q q'') × (m.taken ≡ a.taken + b.taken)
Moved-trans a b = (
  record {
    taken = a.taken + b.taken;
    returned = a.returned + b.returned;
    no_more = omega (arith, a.no_more, b.no_more);
    avail = omega (arith, a.avail, b.avail);
    used_up = omega (arith, a.used_up, b.used_up);
    same_avail_ring = b.same_avail_ring ∙ a.same_avail_ring;
  },
  refl,
)

pub avail_idx-same :
    (q q' : Queue) (mem : MemoryManager) (host : Host)
    → q'.avail_ring ≡ q.avail_ring
    → avail_idx q' mem host ≡ avail_idx q mem host
unfolding avail_idx
avail_idx-same q q' mem host e = rw e refl

pub Each-map :
    {A : Type 0} (P Q : A → Type 0) (o : Outcome A) → ((a : A) → P a → Q a) → Each P o → Each Q o
Each-map P Q (done a) f h = f a h
Each-map P Q panic f h = refl
