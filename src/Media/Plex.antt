-- ===== src/Media/Plex.antt =====
-- server/src/media_bundle/plex.rs: the calls of Plex.
use dookie.Base.{ℕ, String, ◌<>◌, Bool, true, false, not, none, some, List, [], ◌∷◌}
use dookie.Base.Result.{Result, ok}
use dookie.Media.{
  BundleError, message, Request, post, Server, Net, send, ◌>>=◌, ◌>>◌, lift, guard, is_empty, show,
}
use dookie.Media.Client.{BundleClient, client_get}

pub record PlexAccessSettings : Type 0 where
  pub allow_sync : Bool
  pub allow_channels : Bool
  pub allow_subtitle_admin : Bool
  pub allow_tuners : ℕ
  pub filter_movies : String
  pub filter_music : String
  pub filter_photos : String
  pub filter_television : String

pub record PlexAccessMainBody : Type 0 where
  pub invited_email : String
  pub settings : PlexAccessSettings
  pub skip_friendship : Bool
  pub library_section_ids : List ℕ
  pub machine_identifier : String

-- Reading a session history, which is then dropped, and `serde_json::to_string`.
pub record PlexCodec : Type 0 where
  pub history : List ℕ → Result BundleError (Unit {0})
  pub to_json : PlexAccessMainBody → String

pub data PlexInput : Type 0 where
  get_session_history : ℕ → PlexInput
  refresh_library : ℕ → PlexInput
  grant_lib_access : PlexAccessMainBody → PlexInput

unfoldable pub grant_access : String → String → PlexInput
grant_access email machine_id = grant_lib_access (record {
  invited_email = email;
  settings = record {
    allow_sync = true;
    allow_channels = false;
    allow_subtitle_admin = false;
    allow_tuners = 0;
    filter_movies = "";
    filter_music = "";
    filter_photos = "";
    filter_television = "";
  };
  skip_friendship = true;
  library_section_ids = 120858782 ∷ 120858764 ∷ [];
  machine_identifier = machine_id;
})

pub data PlexOutput : Type 0 where
  session_history : PlexOutput
  status_code : ℕ → PlexOutput

pub record Plex : Type 0 where
  pub client : BundleClient
  pub machine_id : String
  pub client_id : String
  pub plex_token : String

-- The request to Plex's own server, which does not go through the bundle's client.
abbrev pub grant_request : Plex → String → Request
grant_request plex body = record {
  method = post;
  url =
      "https://clients.plex.tv/api/v2/shared_servers?X-Plex-Client-Identifier=" <> plex.client_id
      <> "&X-Plex-Token=" <> plex.plex_token <> "&X-Plex-Language=en";
  token = ("", "");
  content_type = some "application/json";
  cookie = none;
  body = body;
}

module _ (server : Server) (codec : PlexCodec) (plex : Plex) where
  unfoldable pub make_call : PlexInput → Net PlexOutput
  make_call (get_session_history id) = do
    response ← client_get server plex.client "/status/sessions/history/all"
    body ← lift response.body
    lift (codec.history body)
    lift (ok session_history)
  make_call (refresh_library id) = do
    response ← client_get server plex.client ("/library/sections/" <> show id <> "/refresh")
    lift (ok (status_code response.status))
  make_call (grant_lib_access body) = do
    guard (not (is_empty plex.machine_id)) (message "Missing machine id")
    guard (not (is_empty plex.client_id)) (message "Missing client id")
    guard (not (is_empty plex.plex_token)) (message "Missing plex token")
    response ← send server (grant_request plex (codec.to_json body))
    lift (ok (status_code response.status))
