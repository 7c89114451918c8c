-- ===== src/Worker/Console/Filter.antt =====
-- `filter_dsr_and_respond` of src/devices/virtio/console/worker.rs: which bytes it keeps.
use whypa.Base.{
  ℕ, ◌≡◌, refl, sym, ap, ◌∙◌, ◌≢◌, Bool, true, false, ◌==◌, if◌then◌else◌, List, [], ◌∷◌, ◌++◌,
  append-nil, arith,
}
use whypa.Worker.Console.{dsr, cpr, starts_with, filter_dsr, filter_dsr_and_respond, Console}

-- No byte is the escape that a query begins with.
unfoldable pub HasNoEscape : List ℕ → Type 0
HasNoEscape [] = Unit {0}
HasNoEscape (x ∷ xs) = (x ≢ 27) × HasNoEscape xs

-- Pieces of text with a query before each of them but the first.
unfoldable pub with_queries : List ℕ → List (List ℕ) → List ℕ
with_queries first [] = first
with_queries first (piece ∷ pieces) = first ++ (dsr ++ with_queries piece pieces)

abbrev pub concat : List ℕ → List (List ℕ) → List ℕ
concat first [] = first
concat first (piece ∷ pieces) = first ++ concat piece pieces

unfoldable pub AllPlain : List (List ℕ) → Type 0
AllPlain [] = Unit {0}
AllPlain (piece ∷ pieces) = HasNoEscape piece × AllPlain pieces

abbrev pub has_queries : List (List ℕ) → Bool
has_queries [] = false
has_queries (piece ∷ pieces) = true

-- Text without an escape is kept, and what comes after it is filtered by itself.
filter_dsr-append :
    (xs ys : List ℕ)
    → HasNoEscape xs
    → filter_dsr 0 (xs ++ ys) ≡ (xs ++ (filter_dsr 0 ys).0, (filter_dsr 0 ys).1)
unfolding filter_dsr starts_with HasNoEscape
filter_dsr-append [] ys plain = refl
filter_dsr-append (x ∷ xs) ys plain =
    let other : (x == 27) ≡ false = ground (arith, plain.0) in
    rw (other, filter_dsr-append xs ys plain.1) refl

filter_dsr-dsr : (ys : List ℕ) → filter_dsr 0 (dsr ++ ys) ≡ ((filter_dsr 0 ys).0, true)
unfolding filter_dsr starts_with
filter_dsr-dsr ys = refl

filter_dsr-with_queries :
    (first : List ℕ) (pieces : List (List ℕ))
    → HasNoEscape first
    → AllPlain pieces
    → filter_dsr 0 (with_queries first pieces) ≡ (concat first pieces, has_queries pieces)
unfolding with_queries AllPlain
filter_dsr-with_queries first [] plain rest =
    ap (filter_dsr 0) (sym (append-nil first))
    ∙ filter_dsr-append first [] plain
    ∙ unfold filter_dsr in ap (λ r. (r, false)) (append-nil first)
filter_dsr-with_queries first (piece ∷ pieces) plain rest =
    filter_dsr-append first (dsr ++ with_queries piece pieces) plain
    ∙ ap (λ r. (first ++ r.0, r.1)) (filter_dsr-dsr (with_queries piece pieces))
    ∙ ap (λ r. (first ++ r.0, true)) (filter_dsr-with_queries piece pieces rest.0 rest.1)

-- Cursor queries between pieces of text without escapes are taken out, and the text is kept as it
-- is. If there was a query, one position report is put behind the input, and the input's event is
-- signalled; otherwise the console stays as it was.
pub filter_dsr_and_respond-with_queries :
    (first : List ℕ) (pieces : List (List ℕ)) (con : Console)
    → HasNoEscape first
    → AllPlain pieces
    → filter_dsr_and_respond (with_queries first pieces) con ≡ (
      concat first pieces,
      if has_queries pieces
          then record con { input_buffer = con.input_buffer ++ cpr; input_event = true }
          else con,
    )
unfolding filter_dsr_and_respond
filter_dsr_and_respond-with_queries first pieces con plain rest =
    ap
      (λ r. (
        r.0,
        if r.1
            then record con { input_buffer = con.input_buffer ++ cpr; input_event = true }
            else con,
      ))
      (filter_dsr-with_queries first pieces plain rest)
