-- ===== src/Discord/Webhook/Envelope.antt =====
-- Which texts are read as an event of the webhook.
use mathlib.Core.Path.{subst}
use dookie.Base.{String, ◌≡◌, ◌⊎◌, inl, inr, refl, ap, Option, none, some, arith}
use dookie.Base.Result.{ok, ok_or-bind, ok-injective}
use dookie.Discord.Webhook.{
  Value, null, boolean, number, text, array, object, get, as_str, MediaType, movie, show, episode,
  media_type_named, event_named, WebhookEnvelope, Serde, or_else, and_then, title_value,
  deserialize, read_envelope,
}

-- The title is that of the movie or the show; an episode goes by its show's title, else its slug,
-- else its own title.
abbrev pub HasTitle : MediaType → Value → String → Type 0
HasTitle movie metadata t = get "title" metadata ≡ some (text t)
HasTitle show metadata t = get "title" metadata ≡ some (text t)
HasTitle episode metadata t =
    (get "grandparentTitle" metadata ≡ some (text t))
    ⊎ ((get "grandparentTitle" metadata ≡ none) × (get "grandparentSlug" metadata ≡ some (text t)))
    ⊎ ((get "grandparentTitle" metadata ≡ none)
        × (get "grandparentSlug" metadata ≡ none)
        × (get "title" metadata ≡ some (text t)))

abbrev pub HasType : Value → Value → Type 0
HasType metadata v =
    (get "type" metadata ≡ some v)
    ⊎ ((get "type" metadata ≡ none) × (get "librarySectionType" metadata ≡ some v))

pub record IsEnvelope (serde : Serde) (value : Value) (e : WebhookEnvelope) : Type 0 where
  pub account_value : Value
  pub account_given : get "Account" value ≡ some account_value
  pub account : serde.account account_value ≡ some e.account
  pub event_value : Value
  pub event_given : get "event" value ≡ some event_value
  pub event : and_then (serde.variant event_value) event_named ≡ some e.event
  pub metadata : Value
  pub metadata_given : get "Metadata" value ≡ some metadata
  pub type_value : Value
  pub type_given : HasType metadata type_value
  pub media_type : and_then (serde.variant type_value) media_type_named ≡ some e.media_type
  pub title : HasTitle e.media_type metadata e.title

str_of : (o : Option Value) (t : String) → and_then o as_str ≡ some t → o ≡ some (text t)
str_of none t h = absurd (ground arith)
str_of (some null) t h = absurd (ground arith)
str_of (some (boolean b)) t h = absurd (ground arith)
str_of (some (number n)) t h = absurd (ground arith)
str_of (some (text s)) t h = ap (λ o. text_if o) h
  where
    text_if : Option String → Option Value
    text_if none = none
    text_if (some x) = some (text x)
str_of (some (array l)) t h = absurd (ground arith)
str_of (some (object f)) t h = absurd (ground arith)

title_sound :
    (media_type : MediaType) (metadata : Value) (t : String)
    → and_then (title_value media_type metadata) as_str ≡ some t
    → HasTitle media_type metadata t
title_sound movie metadata t h = str_of (get "title" metadata) t h
title_sound show metadata t h = str_of (get "title" metadata) t h
title_sound episode metadata t h =
    by_key (get "grandparentTitle" metadata) (get "grandparentSlug" metadata) (get "title" metadata)
      (str_of (title_value episode metadata) t h)
  where
    by_key :
        (a b c : Option Value)
        → or_else (or_else a b) c ≡ some (text t)
        → (a ≡ some (text t))
          ⊎ ((a ≡ none) × (b ≡ some (text t)))
          ⊎ ((a ≡ none) × (b ≡ none) × (c ≡ some (text t)))
    by_key (some a) b c k = inl k
    by_key none (some b) c k = inr (inl (refl, k))
    by_key none none c k = inr (inr (refl, refl, k))

title_complete :
    (media_type : MediaType) (metadata : Value) (t : String)
    → HasTitle media_type metadata t
    → and_then (title_value media_type metadata) as_str ≡ some t
title_complete movie metadata t h = rw h
title_complete show metadata t h = rw h
title_complete episode metadata t (inl h) = rw h
title_complete episode metadata t (inr (inl (n, h))) = rw n (rw h)
title_complete episode metadata t (inr (inr (n, m, h))) = rw n (rw m (rw h))

type_sound :
    (a b : Option Value) (v : Value)
    → or_else a b ≡ some v
    → (a ≡ some v) ⊎ ((a ≡ none) × (b ≡ some v))
type_sound (some a) b v h = inl h
type_sound none b v h = inr (refl, h)

type_complete :
    (a b : Option Value) (v : Value)
    → (a ≡ some v) ⊎ ((a ≡ none) × (b ≡ some v))
    → or_else a b ≡ some v
type_complete a b v (inl h) = rw h
type_complete a b v (inr (n, h)) = rw n h

module _ (serde : Serde) where
  deserialize_sound :
      (value : Value) (e : WebhookEnvelope)
      → deserialize serde value ≡ ok e
      → IsEnvelope serde value e
  unfolding deserialize
  deserialize_sound value e h =
      let (account_value, g₁, h₁) = ok_or-bind _ _ _ h in
      let (account, g₂, h₂) = ok_or-bind _ _ _ h₁ in
      let (event_value, g₃, h₃) = ok_or-bind _ _ _ h₂ in
      let (event, g₄, h₄) = ok_or-bind _ _ _ h₃ in
      let (metadata, g₅, h₅) = ok_or-bind _ _ _ h₄ in
      let (type_value, g₆, h₆) = ok_or-bind _ _ _ h₅ in
      let (media_type, g₇, h₇) = ok_or-bind _ _ _ h₆ in
      let (title, g₈, h₈) = ok_or-bind _ _ _ h₇ in
      let same = ok-injective h₈ in
      subst (λ (x : WebhookEnvelope). IsEnvelope serde value x) same
        (record {
          account_value = account_value;
          account_given = g₁;
          account = g₂;
          event_value = event_value;
          event_given = g₃;
          event = g₄;
          metadata = metadata;
          metadata_given = g₅;
          type_value = type_value;
          type_given =
              type_sound (get "type" metadata) (get "librarySectionType" metadata) type_value g₆;
          media_type = g₇;
          title = title_sound media_type metadata title g₈;
        })

  deserialize_complete :
      (value : Value) (e : WebhookEnvelope)
      → IsEnvelope serde value e
      → deserialize serde value ≡ ok e
  unfolding deserialize
  deserialize_complete value e i = rw i.account_given (
      rw i.account (
        rw i.event_given (
          rw i.event (
            rw i.metadata_given (
              rw
                (type_complete (get "type" i.metadata) (get "librarySectionType" i.metadata)
                  i.type_value i.type_given)
                (rw i.media_type (rw (title_complete e.media_type i.metadata e.title i.title))))))))

  pub read_sound :
      (s : String) (e : WebhookEnvelope)
      → read_envelope serde s ≡ ok e
      → (value : Value) × (serde.from_str s ≡ some value) × IsEnvelope serde value e
  unfolding read_envelope
  read_sound s e h =
      let (value, p, q) = ok_or-bind _ _ _ h in (value, p, deserialize_sound value e q)

  pub read_complete :
      (s : String) (value : Value) (e : WebhookEnvelope)
      → serde.from_str s ≡ some value
      → IsEnvelope serde value e
      → read_envelope serde s ≡ ok e
  unfolding read_envelope
  read_complete s value e p i = rw p (deserialize_complete value e i)
