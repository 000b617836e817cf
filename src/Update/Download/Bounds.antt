-- ===== src/Update/Download/Bounds.antt =====
-- A download is the whole body, and never more than the limit.
use mathlib.Core.List.{append-nil, append_assoc}
use dookie.Base.{
  ℕ, ◌+◌, ◌≤◌, ◌≡◌, refl, ◌∙◌, ap, inl, inr, ◌↔◌, false, List, [], ◌∷◌, ◌++◌, ltb, length,
  length-append, arith, Bool-cases,
}
use dookie.Base.Result.{Result, ok, err}
use dookie.Update.{UpdateError}
use dookie.Update.Download.{Response, error_for_status, exceeds, read_chunks, read_response}

-- The body of a response whose chunks all arrive.
abbrev pub chunks_of : List (List ℕ) → List (Result UpdateError (List ℕ))
chunks_of [] = []
chunks_of (c ∷ cs) = ok c ∷ chunks_of cs

abbrev pub body : List (List ℕ) → List ℕ
body [] = []
body (c ∷ cs) = c ++ body cs

read_chunks_sound :
    (limit : ℕ) (bytes : List ℕ) (rs : List (Result UpdateError (List ℕ))) (out : List ℕ)
    → length bytes ≤ limit
    → read_chunks limit bytes rs ≡ ok out
    → (cs : List (List ℕ)) × (rs ≡ chunks_of cs) × (out ≡ bytes ++ body cs) × (length out ≤ limit)
unfolding read_chunks
read_chunks_sound limit bytes [] out b h = ([], refl, rw append-nil (ground arith), ground arith)
read_chunks_sound limit bytes (err e ∷ rest) out b h = absurd (ground arith)
read_chunks_sound limit bytes (ok chunk ∷ rest) out b h =
    elim (Bool-cases (ltb limit (length bytes + length chunk))) [
      | inl over ↦ absurd (ground arith)
      | inr fits ↦
          let (cs, e, f, g) =
            read_chunks_sound limit (bytes ++ chunk) rest out
              (ground (arith, length-append bytes chunk)) (ground arith) in
          (chunk ∷ cs, ap (λ r. ok chunk ∷ r) e, f ∙ append_assoc bytes chunk (body cs), g)
    ]

read_chunks_complete :
    (limit : ℕ) (bytes : List ℕ) (cs : List (List ℕ))
    → length (bytes ++ body cs) ≤ limit
    → read_chunks limit bytes (chunks_of cs) ≡ ok (bytes ++ body cs)
unfolding read_chunks
read_chunks_complete limit bytes [] h = rw append-nil
read_chunks_complete limit bytes (c ∷ cs) h = ground (
  arith,
  read_chunks_complete limit (bytes ++ c) cs (rw append_assoc h),
  append_assoc bytes c (body cs),
  length-append bytes (c ++ body cs),
  length-append c (body cs),
)

module _ (r : Response) (limit : ℕ) (out : List ℕ) where
  -- A download succeeds exactly if the status is no error, the stated length, if there is one, is
  -- within the limit, every chunk arrives, and what arrives is within the limit; it then is the
  -- chunks in their order.
  pub read_response_exact : (read_response r limit ≡ ok out) ↔ (
      (error_for_status r.status ≡ ok tt)
      × (exceeds r.content_length limit ≡ false)
      × ((cs : List (List ℕ)) × (r.chunks ≡ chunks_of cs) × (out ≡ body cs) × (length out ≤ limit)))
  unfolding read_response
  read_response_exact = (
    λ h.
        let arrived : read_chunks limit [] r.chunks ≡ ok out = ground arith in
        (ground arith, ground arith, read_chunks_sound limit [] r.chunks out (omega arith) arrived),
    λ t.
        let within : length (body t.2.0) ≤ limit = rw (← t.2.2) t.2.3 in
        ground (arith, t.0, t.1, t.2.1, t.2.2, read_chunks_complete limit [] t.2.0 within),
  )
