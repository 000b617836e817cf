-- ===== src/Discord/Webhook/Laws.antt =====
-- Which answer a webhook has.
use mathlib.Core.Option.{some-injective}
use dookie.Base.{
  String, ◌≡◌, refl, sym, ap, ◌∙◌, Bool, Option, none, some, List, [], ◌∷◌, find_map, arith,
  if◌then◌else◌,
}
use dookie.Base.Result.{Result, ok, err}
use dookie.Discord.Webhook.{
  Value, WebhookEnvelope, Serde, ParseError, read_envelope, webhook_message, Part, StatusCode,
  bad_request, is_payload, said, notify, handle_webhook,
}
use dookie.Discord.Webhook.Envelope.{IsEnvelope, read_sound, read_complete}

module _ (serde : Serde) where
  -- The text of the first part named `payload` whose text can be read.
  abbrev pub first_payload : List Part → Option String
  first_payload = find_map (λ part. if is_payload part.name then part.content else none)

  abbrev answer_to : (String → Bool) → Option String → StatusCode × Option String
  answer_to say none = (bad_request, none)
  answer_to say (some s) = notify say (read_envelope serde s)

  handle_webhook_lem :
      (say : String → Bool) (parts : List Part)
      → handle_webhook serde say parts ≡ answer_to say (first_payload parts)
  unfolding handle_webhook
  handle_webhook_lem say [] = refl
  handle_webhook_lem say (part ∷ rest) = ground (arith, handle_webhook_lem say rest)

  -- The form has a payload that tells of the event `e`.
  abbrev pub Tells : List Part → WebhookEnvelope → Type 0
  Tells parts e =
      (s : String) × (value : Value) × (first_payload parts ≡ some s)
      × (serde.from_str s ≡ some value)
      × IsEnvelope serde value e

  told :
      (say : String → Bool) (r : Result ParseError WebhookEnvelope) (m : String)
      → (notify say r).1 ≡ some m
      → (e : WebhookEnvelope) × (r ≡ ok e)
        × (m ≡ webhook_message e)
        × (notify say r ≡ (said (say m), some m))
  told say (ok e) m h =
      let same = some-injective _ _ h in (e, refl, sym same, ap (λ x. (said (say x), some x)) same)
  told say (err x) m h = absurd (ground arith)

  -- A webhook is answered by OK if its first payload that can be read is a text of JSON with an
  -- account, an event and the title of a movie, a show or an episode's show, and the message that
  -- tells of them is said to the administrators; by BAD_GATEWAY if that message could not be said;
  -- in every other case by BAD_REQUEST, and nothing is said.
  pub webhook_answers :
      (say : String → Bool) (parts : List Part)
      → ((e : WebhookEnvelope)
          → Tells parts e
          → handle_webhook serde say parts
            ≡ (said (say (webhook_message e)), some (webhook_message e)))
        × ((m : String)
            → (handle_webhook serde say parts).1 ≡ some m
            → (e : WebhookEnvelope) × Tells parts e × (m ≡ webhook_message e))
        × ((handle_webhook serde say parts).1 ≡ none
            → (handle_webhook serde say parts).0 ≡ bad_request)
  webhook_answers say parts =
      rw (handle_webhook_lem say parts)
        (complete, sound (first_payload parts) refl, refused (first_payload parts))
    where
      complete :
          (e : WebhookEnvelope)
          → Tells parts e
          → answer_to say (first_payload parts)
            ≡ (said (say (webhook_message e)), some (webhook_message e))
      complete e (s, value, f, p, i) =
          ap (λ o. answer_to say o) f ∙ ap (λ r. notify say r) (read_complete serde s value e p i)

      sound :
          (o : Option String)
          → first_payload parts ≡ o
          → (m : String) → (answer_to say o).1 ≡ some m
          → (e : WebhookEnvelope) × Tells parts e × (m ≡ webhook_message e)
      sound none f m h = absurd (ground arith)
      sound (some s) f m h =
          let (e, r, k, _) = told say (read_envelope serde s) m h in
          let (value, p, i) = read_sound serde s e r in (e, (s, value, f, p, i), k)

      refused : (o : Option String) → (answer_to say o).1 ≡ none → (answer_to say o).0 ≡ bad_request
      refused none h = refl
      refused (some s) h = by_result (read_envelope serde s) h
        where
          by_result :
              (r : Result ParseError WebhookEnvelope)
              → (notify say r).1 ≡ none
              → (notify say r).0 ≡ bad_request
          by_result (ok e) k = absurd (ground arith)
          by_result (err x) k = refl
