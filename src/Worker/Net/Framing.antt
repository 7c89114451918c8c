-- ===== src/Worker/Net/Framing.antt =====
-- The framing of the stream between the network device and gvproxy: `read_frame` and the sending
-- part of `process_tx_queue` in src/devices/virtio/net/worker.rs. The stream from gvproxy is a list of
-- bytes that ends where the process closes it.
use whypa.Base.{
  ℕ, ◌%◌, ◌<◌, ◌≤◌, ◌^◌, ◌≡◌, refl, sym, ap, ◌∙◌, true, false, ◌==◌, ltb, if◌then◌else◌, List, [],
  ◌∷◌, ◌++◌, append_assoc, length, length-append, take, drop, to_le_bytes, from_le_bytes,
  from_le_bytes-to_le_bytes, length-to_le_bytes, Result, ok, err, arith,
}
use whypa.Buffers.Consumer.{IoError, invalid_data, unexpected_eof}
use whypa.Worker.Net.{Pipe, max_frame_size, send_frame}

-- The rest of the stream stands beside the answer; `read_exact` takes all of a stream that is too
-- short.
unfoldable pub read_body : ℕ → List ℕ → Result (List ℕ) IoError × List ℕ
read_body len stream =
    if ltb (length stream) len
    then (err unexpected_eof, [])
    else (ok (take len stream), drop len stream)

unfoldable pub read_frame : List ℕ → Result (List ℕ) IoError × List ℕ
read_frame stream =
    if ltb (length stream) 2
    then (err unexpected_eof, [])
    else (let len = from_le_bytes (take 2 stream) in
        let rest = drop 2 stream in
        if len == 0
        then (err invalid_data, rest)
        else if ltb max_frame_size len
        then (err invalid_data, rest)
        else read_body len rest)

-- A pipe that keeps what is written to it.
abbrev pub recorder : Pipe (List ℕ)
recorder = record { write_all = λ p bs. (true, p ++ bs); flush = λ p. (true, p) }

pub take-length : (xs ys : List ℕ) → take (length xs) (xs ++ ys) ≡ xs
take-length [] ys = refl
take-length (x ∷ xs) ys = ap (λ r. x ∷ r) (take-length xs ys)

pub drop-length : (xs ys : List ℕ) → drop (length xs) (xs ++ ys) ≡ ys
drop-length [] ys = refl
drop-length (x ∷ xs) ys = drop-length xs ys

pub read_frame-header :
    (len : ℕ) (rest : List ℕ)
    → 0 < len
    → len ≤ max_frame_size
    → read_frame (to_le_bytes 2 len ++ rest) ≡ read_body len rest
unfolding read_frame
read_frame-header len rest pos small =
    let value : from_le_bytes (to_le_bytes 2 len) ≡ len =
      from_le_bytes-to_le_bytes 2 len (omega arith) in
    let some_left : (len == 0) ≡ false = ground arith in
    let fits : ltb max_frame_size len ≡ false = ground arith in
    let hdr = to_le_bytes 2 len in
    let size : length hdr ≡ 2 = length-to_le_bytes 2 len in
    let long : ltb (length (hdr ++ rest)) 2 ≡ false =
      ground (arith, length-append hdr rest, size) in
    let front : take 2 (hdr ++ rest) ≡ hdr =
      ap (λ k. take k (hdr ++ rest)) (sym size) ∙ take-length hdr rest in
    let back : drop 2 (hdr ++ rest) ≡ rest =
      ap (λ k. drop k (hdr ++ rest)) (sym size) ∙ drop-length hdr rest in
    rw (long, front, back, value, some_left, fits) refl

-- What is sent for a frame of 1 to 1514 bytes, over a pipe that takes all, is read as that frame, and
-- what follows it in the stream stays.
pub read_frame-send_frame :
    (frame rest : List ℕ)
    → 0 < length frame
    → length frame ≤ max_frame_size
    → read_frame (send_frame recorder [] frame ++ rest) ≡ (ok frame, rest)
unfolding send_frame
read_frame-send_frame frame rest pos small =
    let n = length frame in
    let prefix : n % 2 ^ 16 ≡ n = omega arith in
    let long_enough : ltb (length (frame ++ rest)) n ≡ false =
      ground (arith, length-append frame rest) in
    ap (λ k. read_frame ((to_le_bytes 2 k ++ frame) ++ rest)) prefix
    ∙ ap read_frame (append_assoc (to_le_bytes 2 n) frame rest)
    ∙ read_frame-header n (frame ++ rest) pos small
    ∙ unfold read_body in rw (long_enough, take-length frame rest, drop-length frame rest) refl
