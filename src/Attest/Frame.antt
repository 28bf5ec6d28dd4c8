-- ===== src/Attest/Frame.antt =====
-- crates/pask-attest/src/verifier.rs: `parse_frame`.
use pask_workspace.Prelude.{
  ℕ, ◌+◌, ◌-◌, ◌≤◌, ◌<◌, ◌≡◌, refl, ◌↔◌, arith, Bool, true, false, not, List, [], ◌∷◌, ◌++◌, Text,
  ascii, ltb, is_empty, bytes_eq, bytes_eq→eq, length, take, drop, length-append, length-drop,
  take-append-drop, take-append, drop-append, drop-drop, Result, ok, err, sym, ◌∙◌, ap, ap₂, subst,
}
use pask_workspace.Attest.Error.{AttestationError}

abbrev pub frame_version : List ℕ
frame_version = 97 ∷ 0 ∷ 0 ∷ 0 ∷ 0 ∷ 0 ∷ 0 ∷ 1 ∷ []

abbrev pub max_quote_size : ℕ
max_quote_size = 1048576

abbrev frame_error :
    {A : Type 0} → Bool → Text → Result AttestationError A → Result AttestationError A
frame_error true message rest = err (AttestationError.malformed_quote message)
frame_error false message rest = rest

-- The signed bytes and the signature, whose conversion from the last 64 bytes cannot fail.
unfoldable pub split_frame : List ℕ → Result AttestationError (List ℕ × List ℕ)
split_frame quote =
    let jcs = take (length quote - 64 - 8) (drop 8 quote) in
    frame_error (is_empty jcs) (ascii "quote payload is empty")
      (ok (jcs, drop (length quote - 64) quote))

unfoldable pub parse_frame : List ℕ → Result AttestationError (List ℕ × List ℕ)
parse_frame quote = frame_error (ltb max_quote_size (length quote)) (ascii "quote exceeds 1 MiB") (
    frame_error (ltb (length quote) 73) (ascii "quote frame is truncated") (
      frame_error (not (bytes_eq (take 8 quote) frame_version))
        (ascii "unsupported quote frame version") (split_frame quote)))

-- What a quote frame holds.
abbrev pub IsFrame : List ℕ → List ℕ → List ℕ → Type 0
IsFrame quote jcs signature =
    (quote ≡ frame_version ++ (jcs ++ signature))
    × (length signature ≡ 64)
    × (0 < length jcs)
    × (length quote ≤ max_quote_size)

frame_parts :
    (quote : List ℕ)
    → 73 ≤ length quote
    → quote
      ≡ take 8 quote
        ++ (take (length quote - 64 - 8) (drop 8 quote) ++ drop (length quote - 64) quote)
frame_parts quote h =
    let k = length quote - 64 - 8 in
    let e : 8 + k ≡ length quote - 64 = omega arith in
    let last : drop k (drop 8 quote) ≡ drop (length quote - 64) quote =
      drop-drop k 8 (length quote - 64) quote e in
    let rest : take k (drop 8 quote) ++ drop (length quote - 64) quote ≡ drop 8 quote =
      ap (λ t. take k (drop 8 quote) ++ t) (sym last) ∙ take-append-drop k (drop 8 quote) in
    sym (ap (λ t. take 8 quote ++ t) rest ∙ take-append-drop 8 quote)

frame_error-ok :
    {A : Type 0} (b : Bool) (message : Text) (rest : Result AttestationError A) {a : A}
    → frame_error b message rest ≡ ok a
    → (b ≡ false) × (rest ≡ ok a)
frame_error-ok true message rest e = cc
frame_error-ok false message rest e = (refl, e)

frame_error-false :
    {A : Type 0} (b : Bool) (message : Text) (rest : Result AttestationError A)
    → b ≡ false
    → frame_error b message rest ≡ rest
frame_error-false true message rest e = cc
frame_error-false false message rest e = refl

length-is_empty : (xs : List ℕ) → is_empty xs ≡ false → 0 < length xs
length-is_empty [] e = cc
length-is_empty (x ∷ xs) e = omega arith

is_empty-false : (xs : List ℕ) → 0 < length xs → is_empty xs ≡ false
is_empty-false [] h = absurd (omega arith)
is_empty-false (x ∷ xs) h = refl

parse_frame-IsFrame :
    (quote jcs signature : List ℕ)
    → parse_frame quote ≡ ok (jcs, signature)
    → IsFrame quote jcs signature
unfolding parse_frame split_frame
parse_frame-IsFrame quote jcs signature h =
    let (size, h1) = frame_error-ok (ltb max_quote_size (length quote)) _ _ h in
    let (long, h2) = frame_error-ok (ltb (length quote) 73) _ _ h1 in
    let (version, h3) = frame_error-ok (not (bytes_eq (take 8 quote) frame_version)) _ _ h2 in
    let (full, h4) =
      frame_error-ok (is_empty (take (length quote - 64 - 8) (drop 8 quote))) _ _ h3 in
    let v : take 8 quote ≡ frame_version =
      bytes_eq→eq (take 8 quote) frame_version (ground arith) in
    let j : take (length quote - 64 - 8) (drop 8 quote) ≡ jcs = cc in
    let s : drop (length quote - 64) quote ≡ signature = cc in
    let parts = frame_parts quote (ground arith) in
    (
      parts ∙ ap₂ (λ x y. x ++ y) v (ap₂ (λ x y. x ++ y) j s),
      ap length (sym s) ∙ length-drop (length quote - 64) quote ∙ ground arith,
      subst (λ xs. 0 < length xs) j (length-is_empty _ full),
      ground arith,
    )

IsFrame-parse_frame :
    (quote jcs signature : List ℕ)
    → IsFrame quote jcs signature
    → parse_frame quote ≡ ok (jcs, signature)
unfolding parse_frame split_frame
IsFrame-parse_frame quote jcs signature (e, l, p, m) =
    let size : length quote ≡ 8 + (length jcs + 64) =
      ap length e ∙ omega (arith, length-append jcs signature) in
    let v : take 8 quote ≡ frame_version = ap (take 8) e in
    let r : drop 8 quote ≡ jcs ++ signature = ap (drop 8) e in
    let j : take (length quote - 64 - 8) (drop 8 quote) ≡ jcs =
      ap (take (length quote - 64 - 8)) r
      ∙ take-append (length quote - 64 - 8) jcs signature (omega arith) in
    let s : drop (length quote - 64) quote ≡ signature =
      sym (drop-drop (length jcs) 8 (length quote - 64) quote (omega arith))
      ∙ ap (drop (length jcs)) r
      ∙ drop-append (length jcs) jcs signature refl in
    frame_error-false (ltb max_quote_size (length quote)) _ _ (ground arith)
    ∙ frame_error-false (ltb (length quote) 73) _ _ (ground arith)
    ∙ frame_error-false (not (bytes_eq (take 8 quote) frame_version)) _ _
        (ap not (ap (λ t. bytes_eq t frame_version) v))
    ∙ frame_error-false (is_empty (take (length quote - 64 - 8) (drop 8 quote))) _ _
        (is_empty-false _ (subst (λ xs. 0 < length xs) (sym j) p))
    ∙ ap ok (ap₂ (λ x y. (x, y)) j s)

-- A quote is split into signed bytes and signature exactly if it is the version, then the signed
-- bytes, at least one, then a signature of 64 bytes, within 1 MiB.
pub parse_frame_iff :
    (quote jcs signature : List ℕ)
    → (parse_frame quote ≡ ok (jcs, signature)) ↔ IsFrame quote jcs signature
parse_frame_iff quote jcs signature =
    (parse_frame-IsFrame quote jcs signature, IsFrame-parse_frame quote jcs signature)
