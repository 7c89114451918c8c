-- ===== src/Worker/Progress.antt =====
-- That the loop of the workers ends, and what it does to the positions in the two rings.
use whypa.Base.{ℕ, ◌≡◌, Option, some, Host, Outcome, sub16}
use whypa.Memory.{MemoryManager}
use whypa.Queue.Vring.{Queue}
use whypa.Worker.{Worker, Pass}
use whypa.Worker.Reasons.{Explained}

module _ {D : Type 0} (w : Worker D) (mem : MemoryManager) (Holds : Host → Type 0) where
  -- The loop ends at `p`'s queue for a reason.
  Ends : (Pass D → Option (Outcome (Pass D))) → ℕ → Pass D → Type 0
  Ends loop idx p =
      (o : Outcome (Pass D)) × (loop p ≡ some o)
      × Explained w mem Holds (sub16 idx p.queue.next_avail) p.queue o
