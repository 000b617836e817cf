-- ===== src/Discord/Webhook.antt =====
-- server/src/discord_bot/discord_bot.rs: the webhook by which Plex tells of what is played. The text
-- of JSON and what `serde` derives are parameters.
pub mod Envelope
pub mod Laws
mod Tests
use dookie.Base.{
  String, ◌<>◌, Bool, true, false, Option, none, some, List, [], ◌∷◌, str_eq, if◌then◌else◌,
}
use dookie.Base.Result.{Result, ok, err, ok_or, ◌>>=◌}

-- `serde_json::Value`; the keys of an object are different.
mutual
  pub data Value : Type 0 where
    null : Value
    boolean : Bool → Value
    number : String → Value
    text : String → Value
    array : Values → Value
    object : Fields → Value

  pub data Values : Type 0 where
    nil : Values
    cons : Value → Values → Values

  pub data Fields : Type 0 where
    end : Fields
    field : String → Value → Fields → Fields

abbrev pub get_field : String → Fields → Option Value
get_field key end = none
get_field key (field k v rest) = if str_eq k key then some v else get_field key rest

-- `Value::get`
abbrev pub get : String → Value → Option Value
get key (object fields) = get_field key fields
get key _ = none

-- `Value::as_str`
abbrev pub as_str : Value → Option String
as_str (text s) = some s
as_str _ = none

pub data MediaType : Type 0 where
  movie show episode : MediaType

abbrev pub show_media_type : MediaType → String
show_media_type movie = "movie"
show_media_type show = "show"
show_media_type episode = "episode"

abbrev pub media_type_named : String → Option MediaType
media_type_named s =
    if str_eq s "movie"
    then some movie
    else if str_eq s "show"
    then some show
    else if str_eq s "episode"
    then some episode
    else none

pub data EventType : Type 0 where
  resume play stop pause new : EventType

abbrev pub event_named : String → Option EventType
event_named s =
    if str_eq s "media.resume"
    then some resume
    else if str_eq s "media.play"
    then some play
    else if str_eq s "media.stop"
    then some stop
    else if str_eq s "media.pause"
    then some pause
    else if str_eq s "library.new"
    then some new
    else none

pub record WebhookEnvelope : Type 0 where
  pub account : String
  pub event : EventType
  pub media_type : MediaType
  pub title : String

-- What is derived: the title of an account, and the name of the variant that a value stands for.
pub record Serde : Type 0 where
  pub from_str : String → Option Value
  pub account : Value → Option String
  pub variant : Value → Option String

pub data ParseError : Type 0 where
  missing_field : String → ParseError
  custom : ParseError

abbrev pub or_else {ℓ} : {A : Type ℓ} → Option A → Option A → Option A
or_else (some a) o = some a
or_else none o = o

abbrev pub and_then {ℓ κ} : {A : Type ℓ} {B : Type κ} → Option A → (A → Option B) → Option B
and_then (some a) f = f a
and_then none f = none

abbrev pub title_value : MediaType → Value → Option Value
title_value movie metadata = get "title" metadata
title_value show metadata = get "title" metadata
title_value episode metadata =
    or_else (or_else (get "grandparentTitle" metadata) (get "grandparentSlug" metadata))
      (get "title" metadata)

module _ (serde : Serde) where
  -- `Deserialize for WebhookEnvelope`
  unfoldable pub deserialize : Value → Result ParseError WebhookEnvelope
  deserialize value = do
    account_value ← ok_or (get "Account" value) (missing_field "account")
    account ← ok_or (serde.account account_value) custom
    event_value ← ok_or (get "event" value) (missing_field "event")
    event ← ok_or (and_then (serde.variant event_value) event_named) custom
    metadata ← ok_or (get "Metadata" value) (missing_field "Metadata")
    type_value ←
        ok_or (or_else (get "type" metadata) (get "librarySectionType" metadata))
          (missing_field "type")
    media_type ← ok_or (and_then (serde.variant type_value) media_type_named) custom
    title ← ok_or (and_then (title_value media_type metadata) as_str) (missing_field "title")
    ok (record { account = account; event = event; media_type = media_type; title = title })

  -- `serde_json::from_str::<WebhookEnvelope>`
  unfoldable pub read_envelope : String → Result ParseError WebhookEnvelope
  read_envelope json_str = do value ← ok_or (serde.from_str json_str) custom; deserialize value

unfoldable pub webhook_message : WebhookEnvelope → String
webhook_message e = elim e.event [
  | play ↦ e.account <> " started playing " <> e.title
  | pause ↦ e.account <> " paused " <> e.title
  | resume ↦ e.account <> " resumed " <> e.title
  | stop ↦ e.account <> " stopped " <> e.title
  | new ↦ "New " <> show_media_type e.media_type <> " added to Plex: " <> e.title
]

-- A field of the form: its name, and its text if it can be read.
pub record Part : Type 0 where
  pub name : Option String
  pub content : Option String

pub data StatusCode : Type 0 where
  success bad_gateway bad_request : StatusCode

abbrev pub is_payload : Option String → Bool
is_payload none = false
is_payload (some name) = str_eq name "payload"

-- The message is said in the channel of the administrators, which `say` may fail to do.
abbrev pub said : Bool → StatusCode
said true = success
said false = bad_gateway

abbrev pub notify : (String → Bool) → Result ParseError WebhookEnvelope → StatusCode × Option String
notify say (ok e) = (said (say (webhook_message e)), some (webhook_message e))
notify say (err _) = (bad_request, none)

-- The answer to the fields up to the end of the form or the first that fails, and the message that
-- was tried.
unfoldable pub handle_webhook : Serde → (String → Bool) → List Part → StatusCode × Option String
handle_webhook serde say [] = (bad_request, none)
handle_webhook serde say (part ∷ rest) =
    let next = handle_webhook serde say rest in
    if is_payload part.name
    then elim part.content [ some s ↦ notify say (read_envelope serde s) | none ↦ next ]
    else next
