-- ===== src/Cli.antt =====
-- server/src/listener.rs and cli_client/src/main.rs: one exchange of the CLI client with the listener.
-- The bytes of the protocol are a parameter, the code that is generated for it; the front desk is an
-- answer to a message, or none where it is gone.
pub mod Exchange
mod Tests
use dookie.Base.{
  ℕ, String, ◌<>◌, Bool, true, false, not, ◌&&◌, Option, none, some, List, [], ◌∷◌, leb, ◌==◌,
  length, take, if◌then◌else◌,
}
use dookie.Base.Result.{Result, ok, err}
use dookie.Media.{show}
use dookie.MoveJob.{
  IncomingMessage, start, status_request, OutgoingMessage, MoveJobResponse, Data, move_job_request,
  move_job_response, Envelope, into_envelope,
}

pub record Wire : Type 0 where
  pub encode : Envelope → List ℕ
  pub decode : List ℕ → Option Envelope

pub data Command : Type 0 where
  status move : Command

-- The request of the client; no command is `status`.
unfoldable pub request_of : Option Command → Envelope
request_of none = record { data_type = 0; data_of = some (move_job_request 0) }
request_of (some status) = record { data_type = 0; data_of = some (move_job_request 0) }
request_of (some move) = record { data_type = 0; data_of = some (move_job_request 1) }

-- `Envelope::data_type`: a number that is none of the others counts as the first.
abbrev pub is_move_request : ℕ → Bool
is_move_request n = not (leb 1 n && leb n 13)

-- `MoveJobRequest::command`, likewise
abbrev pub message_of : ℕ → IncomingMessage
message_of command = if command == 1 then start else status_request

-- What the listener does with a connection: it replies, goes on without a reply, or ends.
pub data Handled : Type 0 where
  replied : Envelope → Handled
  skipped ended : Handled

abbrev pub default_envelope : Envelope
default_envelope = record { data_type = 0; data_of = none }

abbrev pub reply_with : Option OutgoingMessage → Handled
reply_with none = ended
reply_with (some message) = replied (into_envelope message)

abbrev pub handle_data : (IncomingMessage → Option OutgoingMessage) → Option Data → Handled
handle_data desk none = ended
handle_data desk (some (move_job_request command)) = reply_with (desk (message_of command))
handle_data desk (some _) = skipped

unfoldable pub handle : (IncomingMessage → Option OutgoingMessage) → Option Envelope → Handled
handle desk none = ended
handle desk (some envelope) =
    if is_move_request envelope.data_type
    then handle_data desk envelope.data_of
    else replied default_envelope

-- One round of the loop, with the bytes that the first read finds; its buffer has 1024.
unfoldable pub serve : Wire → (IncomingMessage → Option OutgoingMessage) → List ℕ → Handled
serve wire desk [] = skipped
serve wire desk (byte ∷ bytes) = handle desk (wire.decode (take 1024 (byte ∷ bytes)))

-- What the client reads until the listener closes the connection.
abbrev pub sent_back : Wire → Handled → List ℕ
sent_back wire (replied envelope) = wire.encode envelope
sent_back wire skipped = []
sent_back wire ended = []

abbrev pub idle_line : Option ℕ → Result String String
idle_line none = err "Missing next run time"
idle_line (some seconds) = ok ("Move job is idle; next run in " <> show seconds <> " seconds.")

abbrev pub report_response : MoveJobResponse → Result String String
report_response response = elim response.status [
  | none ↦ err "Missing or unknown move job status"
  | some n ↦
      if n == 0
      then idle_line response.time_to_next_run
      else if n == 1
      then ok "Move job is already running; no new move started."
      else if n == 2
      then ok "Move job started. Check server logs for the outcome."
      else if n == 3
      then err "Failed to start move job; check the server logs"
      else err "Missing or unknown move job status"
]

-- The line that the client prints, or its error.
unfoldable pub report : Option Envelope → Result String String
report none = err "failed to decode"
report (some envelope) = elim envelope.data_of [
  | some (move_job_response response) ↦ report_response response
  | _ ↦ err "Unexpected response from server"
]

unfoldable pub exchange :
    Wire → (IncomingMessage → Option OutgoingMessage) → Option Command → Result String String
exchange wire desk command =
    report (wire.decode (sent_back wire (serve wire desk (wire.encode (request_of command)))))
