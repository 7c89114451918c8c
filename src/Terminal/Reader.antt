-- ===== src/Terminal/Reader.antt =====
-- What the guest gets of the host's input: `spawn_stdin_reader` of src/terminal.rs.
use whypa.Base.{
  ℕ, suc, ◌-◌, ◌<◌, ◌≡◌, refl, ap, ◌∙◌, sym, inl, inr, Bool, Bool-cases, false, ◌==◌, ◌||◌, not,
  if◌then◌else◌, List, [], ◌∷◌, ◌++◌, length, append-nil, append_assoc, take_while, any, arith,
}
use whypa.Terminal.{
  escape_key, Input, Read, bytes, strip, strip_cpr_responses, strip_response_and_signal, read_stdin,
}
use whypa.Terminal.Strip.{IsPlain, strip-plain, strip-nil}

-- Reads of some bytes each, none of which begins a response of the terminal.
abbrev pub ArePlain : List (List ℕ) → Type 0
ArePlain [] = Unit {0}
ArePlain (chunk ∷ chunks) = (0 < length chunk) × IsPlain chunk × ArePlain chunks

abbrev pub concat : List (List ℕ) → List ℕ
concat [] = []
concat (chunk ∷ chunks) = chunk ++ concat chunks

abbrev pub as_reads : List (List ℕ) → List Read
as_reads [] = []
as_reads (chunk ∷ chunks) = bytes chunk ∷ as_reads chunks

abbrev pub is_escape : ℕ → Bool
is_escape b = b == escape_key

abbrev pub before_escape : List ℕ → List ℕ
before_escape bs = take_while (λ b. not (is_escape b)) bs

strip_cpr_responses-plain : (xs : List ℕ) → IsPlain xs → strip_cpr_responses xs ≡ xs
unfolding strip_cpr_responses
strip_cpr_responses-plain xs plain =
    ap (strip (length xs)) (sym (append-nil xs))
    ∙ strip-plain (length xs) xs [] plain (omega arith)
    ∙ ap (λ r. xs ++ r) (strip-nil (length xs - length xs))
    ∙ append-nil xs

before-IsPlain : (xs : List ℕ) → IsPlain xs → IsPlain (before_escape xs)
before-IsPlain [] plain = tt
before-IsPlain (x ∷ xs) plain = elim (Bool-cases (is_escape x)) [
  | inl key ↦ rw key tt
  | inr other ↦ rw other (plain.0, before-IsPlain xs plain.1)
]

before-append :
    (xs ys : List ℕ)
    → before_escape (xs ++ ys)
      ≡ (if any is_escape xs then before_escape xs else xs ++ before_escape ys)
before-append [] ys = refl
before-append (x ∷ xs) ys = ground (arith, before-append xs ys)

any-append : (xs ys : List ℕ) → any is_escape (xs ++ ys) ≡ (any is_escape xs || any is_escape ys)
any-append [] ys = refl
any-append (x ∷ xs) ys = ground (arith, any-append xs ys)

-- Plain bytes reach the buffer as they are.
signal-plain :
    (xs : List ℕ) (s : Input)
    → IsPlain xs
    → (strip_response_and_signal xs s).buffer ≡ s.buffer ++ xs
unfolding strip_response_and_signal
signal-plain [] s plain =
    rw (strip_response_and_signal, strip_cpr_responses-plain [] tt) (sym (append-nil s.buffer))
signal-plain (x ∷ xs) s plain =
    let full : (suc (length xs) == 0) ≡ false = ground arith in
    rw (strip_response_and_signal, strip_cpr_responses-plain (x ∷ xs) plain, full) refl

signal-shutdown : (xs : List ℕ) (s : Input) → (strip_response_and_signal xs s).shutdown ≡ s.shutdown
unfolding strip_response_and_signal
signal-shutdown xs s = elim (Bool-cases (length (strip_cpr_responses xs) == 0)) [
  | inl none_left ↦ rw (strip_response_and_signal, none_left) refl
  | inr some_left ↦ rw (strip_response_and_signal, some_left) refl
]

-- What stands before the key, if anything does.
forward-plain :
    (xs : List ℕ) (s : Input)
    → IsPlain xs
    → (if length xs == 0 then s else strip_response_and_signal xs s).buffer ≡ s.buffer ++ xs
forward-plain [] s plain = sym (append-nil s.buffer)
forward-plain (x ∷ xs) s plain =
    let full : (suc (length xs) == 0) ≡ false = ground arith in
    rw full (signal-plain (x ∷ xs) s plain)

-- Of an input without escape sequences the guest gets what comes before the escape key, however the
-- reads cut it up, and all of it if the key is not pressed; the machine is told to stop exactly if
-- the key is pressed.
pub read_stdin_lem :
    (chunks : List (List ℕ)) (s : Input)
    → ArePlain chunks
    → s.shutdown ≡ false
    → ((read_stdin (as_reads chunks) s).buffer ≡ s.buffer ++ before_escape (concat chunks))
      × ((read_stdin (as_reads chunks) s).shutdown ≡ any is_escape (concat chunks))
unfolding read_stdin
read_stdin_lem [] s plain running = (sym (append-nil s.buffer), running)
read_stdin_lem (chunk ∷ chunks) s plain running =
    let some_bytes : (length chunk == 0) ≡ false = ground (arith, plain.0) in
    let cut = before-append chunk (concat chunks) in
    let keys = any-append chunk (concat chunks) in
    elim (Bool-cases (any is_escape chunk)) [
      | inl key ↦
          rw (read_stdin, some_bytes, key, cut, keys, key)
            (forward-plain (before_escape chunk) s (before-IsPlain chunk plain.1), refl)
      | inr no_key ↦
          let s' = strip_response_and_signal chunk s in
          let rest = read_stdin_lem chunks s' plain.2 (signal-shutdown chunk s ∙ running) in
          rw (read_stdin, some_bytes, no_key, cut, keys, no_key)
            (
              rest.0
                  ∙ ap (λ b. b ++ before_escape (concat chunks)) (signal-plain chunk s plain.1)
                  ∙ append_assoc s.buffer chunk (before_escape (concat chunks)),
              rest.1,
            )
    ]
