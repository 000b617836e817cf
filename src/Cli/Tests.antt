-- ===== src/Cli/Tests.antt =====
-- An exchange over concrete bytes.
use dookie.Base.{
  ℕ, ◌≡◌, refl, Option, none, some, List, [], ◌∷◌, ◌==◌, arith, if◌then◌else◌, length,
}
use dookie.Base.Result.{ok}
use dookie.MoveJob.{
  OutgoingMessage, time_until_next_scan, in_progress, failed, Data, move_job_request,
  move_job_response, Envelope, into_envelope,
}
use dookie.Cli.{Wire, Command, status, move, request_of, exchange}
use dookie.Cli.Exchange.{IsFaithful, exchange_tells}

-- The tag of the message, the number in it, and the seconds if there are any.
abbrev seconds : Option ℕ → List ℕ
seconds none = []
seconds (some n) = n ∷ []

abbrev number : Option ℕ → ℕ
number none = 9
number (some n) = n

abbrev first : List ℕ → Option ℕ
first [] = none
first (n ∷ _) = some n

abbrev encode_data : Option Data → List ℕ
encode_data (some (move_job_request n)) = 18 ∷ n ∷ []
encode_data (some (move_job_response r)) = 26 ∷ number r.status ∷ seconds r.time_to_next_run
encode_data _ = []

abbrev decode : List ℕ → Option Envelope
decode (tag ∷ n ∷ rest) =
    if tag == 18
    then some (record { data_type = 0; data_of = some (move_job_request n) })
    else some (record {
      data_type = 1;
      data_of =
          some (move_job_response (record { status = some n; time_to_next_run = first rest }));
    })
decode _ = none

abbrev wire : Wire
wire = record { encode = λ e. encode_data e.data_of; decode = decode }

requests_back :
    (c : Option Command) → decode (encode_data (request_of c).data_of) ≡ some (request_of c)
unfolding request_of
requests_back none = refl
requests_back (some status) = refl
requests_back (some move) = refl

requests_short : (c : Option Command) → length (encode_data (request_of c).data_of) ≡ 2
unfolding request_of
requests_short none = refl
requests_short (some status) = refl
requests_short (some move) = refl

responses_back :
    (o : OutgoingMessage) → decode (encode_data (into_envelope o).data_of) ≡ some (into_envelope o)
unfolding into_envelope
responses_back (time_until_next_scan n) = refl
responses_back in_progress = refl
responses_back OutgoingMessage.ok = refl
responses_back failed = refl

wire-IsFaithful : IsFaithful wire
wire-IsFaithful = record {
  requests = requests_back;
  not_empty = λ c. omega (arith, requests_short c);
  fits = λ c. omega (arith, requests_short c);
  responses = responses_back;
}

exchange_tells_example :
    exchange wire (λ m. some in_progress) (some move)
    ≡ ok "Move job is already running; no new move started."
exchange_tells_example =
    exchange_tells wire (λ m. some in_progress) (some move) in_progress wire-IsFaithful refl
