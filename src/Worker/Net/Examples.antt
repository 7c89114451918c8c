-- ===== src/Worker/Net/Examples.antt =====
-- A stream of two frames.
use whypa.Base.{ℕ, ◌≡◌, List, [], ◌∷◌, ◌++◌, length, leb, some, arith}
use whypa.Worker.Net.Batches.{rx_reader_loop, framed, rx_reader_loop_lem}

abbrev frames : List (List ℕ)
frames = (1 ∷ 2 ∷ []) ∷ (3 ∷ []) ∷ []

rx_reader_loop_lem_example :
    rx_reader_loop
      (λ rest n. leb 3 (length rest))
      3
      (record { stream = framed frames; pending = []; announced = 0 })
    ≡ some (record { stream = []; pending = [] ++ frames; announced = length ([] ++ frames) })
rx_reader_loop_lem_example =
    rx_reader_loop_lem (λ rest n. leb 3 (length rest)) 3 frames []
      ((omega arith, omega arith, ((omega arith, omega arith, tt)))) (omega arith)
