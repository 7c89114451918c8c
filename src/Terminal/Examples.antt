-- ===== src/Terminal/Examples.antt =====
-- Typed text around a response of the terminal, and text with the escape key.
use whypa.Base.{ℕ, ◌≡◌, refl, List, [], ◌∷◌, ◌++◌, false, any, arith}
use whypa.Terminal.{Input, read_stdin, strip_cpr_responses}
use whypa.Terminal.Strip.{
  IsPlain, AreResponses, with_responses, texts, strip_cpr_responses-with_responses,
}
use whypa.Terminal.Reader.{ArePlain, as_reads, before_escape, is_escape, concat, read_stdin_lem}

-- `ls`, the response `ESC [ 1 2 ; 4 R`, and a new line.
abbrev pieces : List (ℕ × List ℕ × List ℕ)
pieces = (b'1', b'2' ∷ b';' ∷ b'4' ∷ [], 10 ∷ []) ∷ []

ls-IsPlain : IsPlain (b'l' ∷ b's' ∷ [])
ls-IsPlain = ((λ e. omega arith), ((λ e. omega arith), tt))

pieces-AreResponses : AreResponses pieces
pieces-AreResponses = (refl, (refl, (refl, (refl, tt))), ((λ e. omega arith), tt), tt)

strip_cpr_responses-with_responses_example :
    strip_cpr_responses (with_responses (b'l' ∷ b's' ∷ []) pieces) ≡ texts (b'l' ∷ b's' ∷ []) pieces
strip_cpr_responses-with_responses_example =
    strip_cpr_responses-with_responses (b'l' ∷ b's' ∷ []) pieces ls-IsPlain pieces-AreResponses

-- The second read has the escape key behind its first byte.
abbrev chunks : List (List ℕ)
chunks = (b'l' ∷ b's' ∷ []) ∷ (10 ∷ 0x1d ∷ b'x' ∷ []) ∷ []

chunks-ArePlain : ArePlain chunks
chunks-ArePlain = (
  omega arith,
  ((λ e. omega arith), ((λ e. omega arith), tt)),
  (omega arith, ((λ e. omega arith), ((λ e. omega arith), ((λ e. omega arith), tt))), tt),
)

abbrev empty : Input
empty = record { buffer = []; signals = 0; shutdown = false }

read_stdin_lem_example :
    ((read_stdin (as_reads chunks) empty).buffer ≡ [] ++ before_escape (concat chunks))
    × ((read_stdin (as_reads chunks) empty).shutdown ≡ any is_escape (concat chunks))
read_stdin_lem_example = read_stdin_lem chunks empty chunks-ArePlain refl
