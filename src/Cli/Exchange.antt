-- ===== src/Cli/Exchange.antt =====
-- What the user of the CLI client is told.
use dookie.Base.{
  ℕ, ◌≤◌, ◌<◌, suc, zero, String, ◌<>◌, ◌≡◌, refl, ap, ◌∙◌, Option, none, some, List, [], ◌∷◌,
  length, take, arith,
}
use dookie.Base.Result.{Result, ok, err}
use dookie.Media.{show}
use dookie.MoveJob.{
  IncomingMessage, start, status_request, OutgoingMessage, time_until_next_scan, in_progress,
  failed, into_envelope,
}
use dookie.Cli.{
  Wire, Command, status, move, request_of, replied, handle, serve, sent_back, report, exchange,
}

-- The message that a command stands for, and the line for each answer to it.
abbrev pub asked : Option Command → IncomingMessage
asked none = status_request
asked (some status) = status_request
asked (some move) = start

abbrev pub told : OutgoingMessage → Result String String
told (time_until_next_scan seconds) =
    ok ("Move job is idle; next run in " <> show seconds <> " seconds.")
told in_progress = ok "Move job is already running; no new move started."
told OutgoingMessage.ok = ok "Move job started. Check server logs for the outcome."
told failed = err "Failed to start move job; check the server logs"

-- What the exchange asks of the protocol's bytes: requests come back, are not empty and fit the
-- listener's buffer; responses come back.
pub record IsFaithful (wire : Wire) : Type 0 where
  pub requests :
      (c : Option Command) → wire.decode (wire.encode (request_of c)) ≡ some (request_of c)
  pub not_empty : (c : Option Command) → 0 < length (wire.encode (request_of c))
  pub fits : (c : Option Command) → length (wire.encode (request_of c)) ≤ 1024
  pub responses :
      (o : OutgoingMessage) → wire.decode (wire.encode (into_envelope o)) ≡ some (into_envelope o)

take_whole : (n : ℕ) (xs : List ℕ) → length xs ≤ n → take n xs ≡ xs
take_whole n [] h = take_nil n
  where
    take_nil : (n : ℕ) → take {A = ℕ} n [] ≡ []
    take_nil zero = refl
    take_nil (suc n) = refl
take_whole zero (x ∷ xs) h = absurd (omega (arith, h))
take_whole (suc n) (x ∷ xs) h = ap (λ (l : List ℕ). x ∷ l) (take_whole n xs (omega (arith, h)))

serve_whole :
    (wire : Wire) (desk : IncomingMessage → Option OutgoingMessage) (bytes : List ℕ)
    → 0 < length bytes
    → length bytes ≤ 1024
    → serve wire desk bytes ≡ handle desk (wire.decode bytes)
unfolding serve
serve_whole wire desk [] p l = absurd (omega (arith, p))
serve_whole wire desk (byte ∷ bytes) p l =
    ap (λ (x : List ℕ). handle desk (wire.decode x)) (take_whole 1024 (byte ∷ bytes) l)

handle_request :
    (desk : IncomingMessage → Option OutgoingMessage) (c : Option Command) (o : OutgoingMessage)
    → desk (asked c) ≡ some o
    → handle desk (some (request_of c)) ≡ replied (into_envelope o)
unfolding handle request_of
handle_request desk none o h = ground arith
handle_request desk (some status) o h = ground arith
handle_request desk (some move) o h = ground arith

report_told : (o : OutgoingMessage) → report (some (into_envelope o)) ≡ told o
unfolding report into_envelope
report_told (time_until_next_scan seconds) = refl
report_told in_progress = refl
report_told OutgoingMessage.ok = refl
report_told failed = refl

-- The client prints the line that belongs to the front desk's answer to its command, or fails where
-- the job has failed to start: if the front desk answers, and the protocol's bytes of requests and
-- responses come back as they were, the requests not empty and within 1024 bytes.
pub exchange_tells :
    (wire : Wire) (desk : IncomingMessage → Option OutgoingMessage) (c : Option Command)
    (o : OutgoingMessage)
    → IsFaithful wire
    → desk (asked c) ≡ some o
    → exchange wire desk c ≡ told o
unfolding exchange
exchange_tells wire desk c o f h =
    let served = serve_whole wire desk (wire.encode (request_of c)) (f.not_empty c) (f.fits c) in
    let handled = handle_request desk c o h in
    let back : serve wire desk (wire.encode (request_of c)) ≡ replied (into_envelope o) =
      served ∙ ap (λ x. handle desk x) (f.requests c) ∙ handled in
    ap (λ x. report (wire.decode (sent_back wire x))) back
    ∙ ap (λ x. report x) (f.responses o)
    ∙ report_told o
