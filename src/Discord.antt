-- ===== src/Discord.antt =====
-- server/src/discord_bot/: the slash commands of the Discord bot. Discord's types and the text of the
-- other crates' errors are parameters or plain records; a process is an answer to a command line.
pub mod Text
pub mod System
pub mod Torrents
pub mod Medium
pub mod Keeps
pub mod Guards
pub mod Handler
pub mod Webhook
pub mod Ready
mod Tests
use dookie.Base.{
  ℕ, String, ◌<>◌, Bool, Option, none, some, List, [], ◌∷◌, ◌++◌, find_map, str_eq, if◌then◌else◌,
}
use dookie.Base.Result.{Result, ok, err}
use dookie.Disk.{Disk}
use dookie.Media.{BundleError, Request, Net}

-- `ResolvedValue`; `negative n` is the integer `-1 - n`.
pub data OptionValue : Type 0 where
  text : String → OptionValue
  integer : ℕ → OptionValue
  negative : ℕ → OptionValue
  other : OptionValue

pub record ResolvedOption : Type 0 where
  pub name : String
  pub value : OptionValue

pub record Embed : Type 0 where
  pub title : String
  pub url : String
  pub description : Option String
  pub thumbnail : Option String
  pub fields : List (String × String)
  pub footer : Option String

-- `EditInteractionResponse`
pub record Reply : Type 0 where
  pub content : String
  pub attachment : Option (String × String)
  pub embeds : List Embed

abbrev pub content : String → Reply
content s = record { content = s; attachment = none; embeds = [] }

-- The `CommandError`s, by the texts that they show.
pub data CommandError : Type 0 where
  missing_option : String → CommandError
  request_failed : String → CommandError
  missing_hash invalid_hash : CommandError
  system_error : String → CommandError
  email_malformed : CommandError
  access_failed : String → CommandError

unfoldable pub show_error : CommandError → String
show_error (missing_option name) = "Missing option `" <> name <> "`"
show_error (request_failed why) = "Request failed: " <> why
show_error missing_hash = "Missing torrent hash"
show_error invalid_hash = "Provide a valid 40-character torrent hash"
show_error (system_error error) = error
show_error email_malformed = "GrantAccessError"
show_error (access_failed why) = "GrantAccessError"

pub record Output : Type 0 where
  pub code : Option ℕ
  pub stdout : String
  pub stderr : String

abbrev pub CommandLine : Type 0
CommandLine = String × List String

-- What the bot changes: the disk, the requests sent, the command lines run, the last first.
pub record World : Type 0 where
  pub disk : Disk
  pub sent : List Request
  pub run : List CommandLine

abbrev pub Cmd : Type 0 → Type 0
Cmd A = World → Result CommandError A × World

infixl 5 ◌>>=◌ ◌>>◌
unfoldable pub ◌>>=◌ : {A B : Type 0} → Cmd A → (A → Cmd B) → Cmd B
◌>>=◌ m f w = let (r, w') = m w in elim r [ ok a ↦ f a w' | err e ↦ (err e, w') ]

abbrev pub ◌>>◌ : {A B : Type 0} → Cmd A → Cmd B → Cmd B
m >> k = m >>= λ _. k

abbrev pub lift : {A : Type 0} → Result CommandError A → Cmd A
lift r w = (r, w)

-- A call of the media bundle, whose error is shown to the user.
abbrev pub request : {A : Type 0} → (BundleError → String) → Net A → Cmd A
request display m w =
    let (r, sent) = m w.sent in
    elim r [
      | ok a ↦ (ok a, record w { sent = sent })
      | err e ↦ (err (request_failed (display e)), record w { sent = sent })
    ]

-- `find_map` over the options for a text option of this name
abbrev pub text_of : String → ResolvedOption → Option String
text_of name option = elim option.value [
  | text value ↦ if str_eq option.name name then some value else none
  | _ ↦ none
]

abbrev pub text_option : String → List ResolvedOption → Option String
text_option name = find_map (text_of name)

-- `u64::try_from` refuses what is negative.
abbrev pub id_of : String → ResolvedOption → Option ℕ
id_of name option = elim option.value [
  | integer id ↦ if str_eq option.name name then some id else none
  | _ ↦ none
]

abbrev pub id_option : String → List ResolvedOption → Option ℕ
id_option name = find_map (id_of name)
