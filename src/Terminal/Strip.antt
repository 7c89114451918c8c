-- ===== src/Terminal/Strip.antt =====
-- What `strip_cpr_responses` of src/terminal.rs keeps.
use whypa.Base.{
  ℕ, zero, suc, ◌-◌, ◌≤◌, ◌≡◌, ◌≢◌, refl, ap, ◌∙◌, sym, true, false, ◌==◌, some, List, [], ◌∷◌,
  ◌++◌, length, length-append, skip_while, append_assoc, append-nil, arith,
}
use whypa.Terminal.{is_param, after_params, after_response, strip, strip_cpr_responses}

-- No byte begins a response.
abbrev pub IsPlain : List ℕ → Type 0
IsPlain [] = Unit {0}
IsPlain (x ∷ xs) = (x ≢ 0x1b) × IsPlain xs

abbrev pub AreParams : List ℕ → Type 0
AreParams [] = Unit {0}
AreParams (p ∷ ps) = (is_param p ≡ true) × AreParams ps

-- The response of a terminal with these parameters.
abbrev pub response : ℕ → List ℕ → List ℕ
response p ps = 0x1b ∷ b'[' ∷ p ∷ (ps ++ b'R' ∷ [])

pub strip-nil : (fuel : ℕ) → strip fuel [] ≡ []
unfolding strip
strip-nil zero = refl
strip-nil (suc fuel) = refl

pub strip-plain :
    (fuel : ℕ) (xs ys : List ℕ)
    → IsPlain xs
    → length xs ≤ fuel
    → strip fuel (xs ++ ys) ≡ xs ++ strip (fuel - length xs) ys
unfolding strip
strip-plain fuel [] ys plain enough = ap (λ n. strip n ys) (omega arith)
strip-plain zero (x ∷ xs) ys plain enough = absurd (omega arith)
strip-plain (suc fuel) (x ∷ xs) ys plain enough =
    let other : (x == 0x1b) ≡ false = ground (arith, plain.0) in
    let left : suc fuel - suc (length xs) ≡ fuel - length xs = omega arith in
    rw (strip, other, left) (ap (λ r. x ∷ r) (strip-plain fuel xs ys plain.1 (omega arith)))

skip_params : (ps ys : List ℕ) → AreParams ps → skip_while is_param (ps ++ b'R' ∷ ys) ≡ b'R' ∷ ys
skip_params [] ys params = refl
skip_params (p ∷ ps) ys params = rw params.0 (skip_params ps ys params.1)

after-response :
    (p : ℕ) (ps ys : List ℕ)
    → is_param p ≡ true
    → AreParams ps
    → after_response (b'[' ∷ p ∷ (ps ++ b'R' ∷ ys)) ≡ some ys
unfolding after_response after_params
after-response p ps ys first params = rw (first, skip_params ps ys params) refl

strip-response :
    (fuel p : ℕ) (ps ys : List ℕ)
    → is_param p ≡ true
    → AreParams ps
    → strip (suc fuel) (response p ps ++ ys) ≡ strip fuel ys
unfolding strip
strip-response fuel p ps ys first params =
    let flat : (ps ++ b'R' ∷ []) ++ ys ≡ ps ++ b'R' ∷ ys = append_assoc ps (b'R' ∷ []) ys in
    rw (flat, strip, after-response p ps ys first params) refl

-- Pieces of text with a response, its first parameter and the others, before each but the first.
unfoldable pub with_responses : List ℕ → List (ℕ × List ℕ × List ℕ) → List ℕ
with_responses first [] = first
with_responses first ((p, ps, text) ∷ pieces) =
    first ++ (response p ps ++ with_responses text pieces)

abbrev pub texts : List ℕ → List (ℕ × List ℕ × List ℕ) → List ℕ
texts first [] = first
texts first ((p, ps, text) ∷ pieces) = first ++ texts text pieces

abbrev pub AreResponses : List (ℕ × List ℕ × List ℕ) → Type 0
AreResponses [] = Unit {0}
AreResponses ((p, ps, text) ∷ pieces) =
    (is_param p ≡ true) × AreParams ps × IsPlain text × AreResponses pieces

strip-with_responses :
    (fuel : ℕ) (first : List ℕ) (pieces : List (ℕ × List ℕ × List ℕ))
    → IsPlain first
    → AreResponses pieces
    → length (with_responses first pieces) ≤ fuel
    → strip fuel (with_responses first pieces) ≡ texts first pieces
unfolding with_responses
strip-with_responses fuel first [] plain responses enough =
    ap (strip fuel) (sym (append-nil first))
    ∙ strip-plain fuel first [] plain enough
    ∙ ap (λ r. first ++ r) (strip-nil (fuel - length first))
    ∙ append-nil first
strip-with_responses fuel first ((p, ps, text) ∷ pieces) plain responses enough =
    let rest = with_responses text pieces in
    let len = length-append first (response p ps ++ rest) in
    let len' = length-append (response p ps) rest in
    let left : fuel - length first ≡ suc (fuel - length first - 1) = omega (arith, len, len') in
    strip-plain fuel first (response p ps ++ rest) plain (omega (arith, len))
    ∙ ap (λ n. first ++ strip n (response p ps ++ rest)) left
    ∙ ap (λ r. first ++ r)
        (strip-response (fuel - length first - 1) p ps rest responses.0 responses.1)
    ∙ ap (λ r. first ++ r)
        (strip-with_responses (fuel - length first - 1) text pieces responses.2 responses.3
          (omega (arith, len, len')))

-- Responses between pieces of text without escapes are taken out, and the text is kept as it is.
pub strip_cpr_responses-with_responses :
    (first : List ℕ) (pieces : List (ℕ × List ℕ × List ℕ))
    → IsPlain first
    → AreResponses pieces
    → strip_cpr_responses (with_responses first pieces) ≡ texts first pieces
unfolding strip_cpr_responses
strip_cpr_responses-with_responses first pieces plain responses =
    strip-with_responses (length (with_responses first pieces)) first pieces plain responses
      (omega arith)
