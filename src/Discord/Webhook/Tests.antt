-- ===== src/Discord/Webhook/Tests.antt =====
-- An episode that is resumed, of which the administrators are told.
use dookie.Base.{String, ◌≡◌, refl, true, none, some, List, [], ◌∷◌, inl, str_eq, if◌then◌else◌}
use dookie.Discord.Webhook.{
  Value, text, object, end, field, get, as_str, WebhookEnvelope, episode, resume, Serde, Part,
  success, bad_request, webhook_message, handle_webhook,
}
use dookie.Discord.Webhook.Laws.{Tells, webhook_answers}

abbrev metadata : Value
metadata = object (
    field "librarySectionType" (text "show") (
      field "type" (text "episode") (
        field "title" (text "The Quantum Ring")
          (field "grandparentTitle" (text "Solar Opposites") end))))

abbrev body : Value
body = object (
    field "event" (text "media.resume")
      (field "Account" (object (field "title" (text "user") end)) (field "Metadata" metadata end)))

abbrev serde : Serde
serde = record {
  from_str = λ s. if str_eq s "body" then some body else none;
  account = λ v. elim (get "title" v) [ some t ↦ as_str t | none ↦ none ];
  variant = as_str;
}

abbrev parts : List Part
parts =
    record { name = some "thumb"; content = none }
    ∷ record { name = some "payload"; content = some "body" }
    ∷ []

abbrev resumed : WebhookEnvelope
resumed = record {
  account = "user";
  event = resume;
  media_type = episode;
  title = "Solar Opposites";
}

tells : Tells serde parts resumed
tells = (
  "body",
  body,
  refl,
  refl,
  record {
    account_value = object (field "title" (text "user") end);
    account_given = refl;
    account = refl;
    event_value = text "media.resume";
    event_given = refl;
    event = refl;
    metadata = metadata;
    metadata_given = refl;
    type_value = text "episode";
    type_given = inl refl;
    media_type = refl;
    title = inl refl;
  },
)

message_text : webhook_message resumed ≡ "user resumed Solar Opposites"
unfolding webhook_message
message_text = refl

webhook_answers_example :
    ((e : WebhookEnvelope)
      → Tells serde parts e
      → handle_webhook serde (λ m. true) parts ≡ (success, some (webhook_message e)))
    × ((m : String)
        → (handle_webhook serde (λ m. true) parts).1 ≡ some m
        → (e : WebhookEnvelope) × Tells serde parts e × (m ≡ webhook_message e))
    × ((handle_webhook serde (λ m. true) parts).1 ≡ none
        → (handle_webhook serde (λ m. true) parts).0 ≡ bad_request)
webhook_answers_example = webhook_answers serde (λ m. true) parts

answered : handle_webhook serde (λ m. true) parts ≡ (success, some (webhook_message resumed))
answered = (webhook_answers serde (λ m. true) parts).0 resumed tells
