-- ===== src/Terminal.antt =====
-- The host's terminal as the guest's input: `spawn_stdin_reader` and `strip_cpr_responses` of
-- src/terminal.rs. What the reads of the standard input answer is a list.
pub mod Strip
pub mod Reader
mod Examples
use whypa.Base.{
  ℕ, zero, suc, ◌+◌, ◌==◌, ◌||◌, ◌&&◌, not, ltb, leb, if◌then◌else◌, Bool, true, false, Option,
  none, some, List, [], ◌∷◌, ◌++◌, length, take_while, skip_while, any,
}

abbrev pub escape_key : ℕ
escape_key = 0x1d

-- A digit or a semicolon.
abbrev pub is_param : ℕ → Bool
is_param b = (leb b'0' b && leb b b'9') || b == b';'

-- What follows `params R`, where there are params.
unfoldable pub after_params : List ℕ → Option (List ℕ)
after_params [] = none
after_params (b ∷ rest) = if not (is_param b) then none else elim (skip_while is_param rest) [
  | [] ↦ none
  | r ∷ tl ↦ (if r == b'R' then some tl else none)
]

-- What follows a response whose first byte has been read.
unfoldable pub after_response : List ℕ → Option (List ℕ)
unfolding after_params
after_response [] = none
after_response (b ∷ rest) = if b == b'[' then after_params rest else none

-- The loop over the bytes, which takes one at least in each round.
unfoldable pub strip : ℕ → List ℕ → List ℕ
strip zero bytes = []
strip (suc fuel) [] = []
strip (suc fuel) (b ∷ rest) = elim (if b == 0x1b then after_response rest else none) [
  | some tl ↦ strip fuel tl
  | none ↦ b ∷ strip fuel rest
]

unfoldable pub strip_cpr_responses : List ℕ → List ℕ
unfolding strip
strip_cpr_responses bytes = strip (length bytes) bytes

-- The buffer that the console device shares, how often its event was signalled, and whether the
-- machine was told to stop.
pub record Input : Type 0 where
  pub buffer : List ℕ
  pub signals : ℕ
  pub shutdown : Bool

unfoldable pub strip_response_and_signal : List ℕ → Input → Input
strip_response_and_signal bytes s =
    let filtered = strip_cpr_responses bytes in
    if length filtered == 0
    then s
    else record s { buffer = s.buffer ++ filtered; signals = s.signals + 1 }

-- A read gives bytes, none at the end of the input, or fails.
pub data Read : Type 0 where
  bytes : List ℕ → Read
  failed : Read

unfoldable pub read_stdin : List Read → Input → Input
unfolding strip_response_and_signal
read_stdin [] s = s
read_stdin (failed ∷ reads) s = s
read_stdin (bytes chunk ∷ reads) s =
    let before = take_while (λ b. not (b == escape_key)) chunk in
    let forwarded = if length before == 0 then s else strip_response_and_signal before s in
    let rest = read_stdin reads (strip_response_and_signal chunk s) in
    if length chunk == 0
    then s
    else if any (λ b. b == escape_key) chunk
    then record forwarded { shutdown = true }
    else rest
