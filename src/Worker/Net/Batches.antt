-- ===== src/Worker/Net/Batches.antt =====
-- The thread that reads the frames of gvproxy: `rx_reader_loop` of src/devices/virtio/net/worker.rs.
-- Whether `PeekNamedPipe` finds more bytes is any function of what is left of the stream and of the
-- frames in the batch.
use whypa.Base.{
  ℕ, zero, suc, ◌+◌, ◌<◌, ◌≤◌, ◌≡◌, refl, ap, ◌∙◌, Bool, Bool-cases, inl, inr, true, false, not,
  ◌||◌, leb, if◌then◌else◌, Option, none, some, List, [], ◌∷◌, ◌++◌, append_assoc, append-nil,
  length, length-append, ltb, to_le_bytes, Result, ok, err, arith,
}
use whypa.Buffers.Consumer.{IoError, unexpected_eof}
use whypa.Worker.Net.Framing.{read_frame, read_body, read_frame-header, take-length, drop-length}

-- The frames that wait for the worker, and how many of them its event has been signalled for.
pub record Received : Type 0 where
  pub stream : List ℕ
  pub pending : List (List ℕ)
  pub announced : ℕ

abbrev pub batch_size : ℕ
batch_size = 32

abbrev pub is_eof : IoError → Bool
is_eof unexpected_eof = true
is_eof _ = false

unfoldable pub push_back : List ℕ → List ℕ → Received → Received
push_back frame rest s = record s { stream = rest; pending = s.pending ++ frame ∷ [] }

unfoldable pub announce : Received → Received
announce s = record s { announced = length s.pending }

-- What is done with a frame, at the end of the stream, and after another error.
unfoldable pub after_read :
    (List ℕ → List ℕ → Option Received)
    → (List ℕ → Option Received)
    → (List ℕ → Option Received)
    → Result (List ℕ) IoError × List ℕ
    → Option Received
after_read frame_read at_end skip (ok frame, rest) = frame_read frame rest
after_read frame_read at_end skip (err e, rest) = if is_eof e then at_end rest else skip rest

-- After a batch the worker is told, and the loop goes on.
unfoldable pub after_batch : Option Received → (Received → Option Received) → Option Received
after_batch none again = none
after_batch (some s) again = again (announce s)

module _ (peek : List ℕ → ℕ → Bool) where
  -- The frames of a batch after the first; `none` is the end of the fuel.
  unfoldable pub batch : ℕ → ℕ → Received → Option Received
  unfolding after_read push_back
  batch zero n s = none
  batch (suc fuel) n s =
      let next =
        after_read (λ frame rest. batch fuel (n + 1) (push_back frame rest s))
          (λ rest. some (record s { stream = rest }))
          (λ rest. batch fuel n (record s { stream = rest })) (read_frame s.stream) in
      if not (peek s.stream n) || leb batch_size n then some s else next

  unfoldable pub rx_reader_loop : ℕ → Received → Option Received
  unfolding after_read
  rx_reader_loop zero s = none
  rx_reader_loop (suc fuel) s =
      after_read
        (λ frame rest.
          after_batch (batch (suc fuel) 1 (push_back frame rest s)) (rx_reader_loop fuel))
        (λ rest. some (record s { stream = rest }))
        (λ rest. rx_reader_loop fuel (record s { stream = rest })) (read_frame s.stream)

-- A stream of these frames, each with its length before it.
unfoldable pub framed : List (List ℕ) → List ℕ
framed [] = []
framed (frame ∷ frames) = to_le_bytes 2 (length frame) ++ (frame ++ framed frames)

abbrev pub AreFrames : List (List ℕ) → Type 0
AreFrames [] = Unit {0}
AreFrames (frame ∷ frames) = (0 < length frame) × (length frame ≤ 1514) × AreFrames frames

read_frame-framed :
    (frame : List ℕ) (frames : List (List ℕ))
    → 0 < length frame
    → length frame ≤ 1514
    → read_frame (framed (frame ∷ frames)) ≡ (ok frame, framed frames)
unfolding framed read_body
read_frame-framed frame frames some_bytes small =
    read_frame-header (length frame) (frame ++ framed frames) some_bytes small
    ∙ (let long_enough : ltb (length (frame ++ framed frames)) (length frame) ≡ false =
          ground (arith, length-append frame (framed frames)) in
        rw
          (
            read_body,
            long_enough,
            take-length frame (framed frames),
            drop-length frame (framed frames),
          )
          refl)

framed-nil : framed [] ≡ []
unfolding framed
framed-nil = refl

read_frame-end : read_frame (framed []) ≡ (err unexpected_eof, framed [])
unfolding framed read_frame
read_frame-end = refl

abbrev at : List (List ℕ) → List (List ℕ) → ℕ → Received
at frames taken announced = record {
  stream = framed frames;
  pending = taken;
  announced = announced;
}

-- Where a batch ends: it has taken the first frames, in their order.
batch_lem :
    (peek : List ℕ → ℕ → Bool) (fuel n : ℕ) (frames taken : List (List ℕ)) (announced : ℕ)
    → AreFrames frames
    → length frames < fuel
    → (front back : List (List ℕ)) × (batch peek fuel n (at frames taken announced)
        ≡ some (at back (taken ++ front) announced))
      × (front ++ back ≡ frames)
      × AreFrames back
unfolding batch push_back
batch_lem peek zero n frames taken announced good enough = absurd (omega arith)
batch_lem peek (suc fuel) n [] taken announced good enough =
    elim (Bool-cases (not (peek (framed []) n) || leb batch_size n)) [
      | inl stop ↦ ([], [], rw (batch, stop, append-nil taken) refl, refl, tt)
      | inr go ↦ ([], [], rw (batch, go, read_frame-end, append-nil taken) refl, refl, tt)
    ]
batch_lem peek (suc fuel) n (frame ∷ frames) taken announced good enough =
    elim (Bool-cases (not (peek (framed (frame ∷ frames)) n) || leb batch_size n)) [
      | inl stop ↦ ([], frame ∷ frames, rw (batch, stop, append-nil taken) refl, refl, good)
      | inr go ↦
          let rest =
            batch_lem peek fuel (n + 1) frames (taken ++ frame ∷ []) announced good.2
              (omega arith) in
          let read = read_frame-framed frame frames good.0 good.1 in
          (
            frame ∷ rest.0,
            rest.1,
            rw (batch, go, read)
                (rest.2
                  ∙ ap (λ t. some (at rest.1 t announced))
                      (append_assoc taken (frame ∷ []) rest.0)),
            ap (λ fs. frame ∷ fs) rest.3,
            rest.4,
          )
    ]

-- The stream holds frames of 1 to 1514 bytes and then ends. Whatever `PeekNamedPipe` answers, the loop
-- ends within one round more than there are frames, all frames wait for the worker in their order, and
-- its event has been signalled for all of them.
pub rx_reader_loop_lem :
    (peek : List ℕ → ℕ → Bool) (fuel : ℕ) (frames taken : List (List ℕ))
    → AreFrames frames
    → length frames < fuel
    → rx_reader_loop peek fuel
        (record { stream = framed frames; pending = taken; announced = length taken })
      ≡ some
          (record { stream = []; pending = taken ++ frames; announced = length (taken ++ frames) })
unfolding rx_reader_loop after_read after_batch push_back announce
rx_reader_loop_lem peek zero frames taken good enough = absurd (omega arith)
rx_reader_loop_lem peek (suc fuel) [] taken good enough =
    rw (rx_reader_loop, read_frame-end, append-nil taken)
      (ap (λ r. some (record { stream = r; pending = taken; announced = length taken })) framed-nil)
rx_reader_loop_lem peek (suc fuel) (frame ∷ frames) taken good enough =
    let read = read_frame-framed frame frames good.0 good.1 in
    let first = taken ++ frame ∷ [] in
    let b = batch_lem peek (suc fuel) 1 frames first (length taken) good.2 (omega arith) in
    let fewer : length b.1 ≤ length frames = omega (arith, ap length b.3, length-append b.0 b.1) in
    let rest = rx_reader_loop_lem peek fuel b.1 (first ++ b.0) b.4 (omega (arith, fewer)) in
    let whole : (first ++ b.0) ++ b.1 ≡ taken ++ frame ∷ frames =
      append_assoc first b.0 b.1
      ∙ ap (λ fs. first ++ fs) b.3
      ∙ append_assoc taken (frame ∷ []) frames in
    let taken_all : batch peek (suc fuel) 1 (
          push_back frame (framed frames) (record {
            stream = framed (frame ∷ frames);
            pending = taken;
            announced = length taken;
          }))
        ≡ some (at b.1 (first ++ b.0) (length taken)) =
      b.2 in
    rw (rx_reader_loop, read)
      (ap (λ r. after_batch r (rx_reader_loop peek fuel)) taken_all
        ∙ rest
        ∙ ap
            (λ (fs : List (List ℕ)).
              some (record { stream = []; pending = fs; announced = length fs }))
            whole)
