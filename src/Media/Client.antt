-- ===== src/Media/Client.antt =====
-- server/src/client.rs: `BundleClient`, the headers and the port of every request.
use dookie.Base.{ℕ, String, ◌<>◌, ◌||◌, Option, none, some, if◌then◌else◌}
use dookie.Media.{
  Response, Request, get, post, delete, Server, Net, send, ends_with, is_empty, show,
}

pub record BundleClient : Type 0 where
  pub port : ℕ
  pub token : String × String
  pub cookie : String

abbrev pub from_port : ℕ → BundleClient
from_port port = record { port = port; token = ("", ""); cookie = "" }

abbrev pub set_port : ℕ → BundleClient → BundleClient
set_port port client = record client { port = port }

abbrev pub set_token : String × String → BundleClient → BundleClient
set_token token client = record client { token = token }

abbrev pub set_cookie : String → BundleClient → BundleClient
set_cookie cookie client = record client { cookie = cookie }

abbrev pub address : BundleClient → String → String
address client url = "http://localhost:" <> show client.port <> url

-- The cookie goes with a request if it is set.
abbrev pub cookie_header : BundleClient → Option String
cookie_header client = if is_empty client.cookie then none else some client.cookie

-- The form encoding for the two calls of qBittorrent, JSON for all others.
unfoldable pub content_type : String → String
content_type url =
    if ends_with url "/api/v2/torrents/delete" || ends_with url "/api/v2/auth/login"
    then "application/x-www-form-urlencoded"
    else "application/json"

module _ (server : Server) (client : BundleClient) where
  abbrev pub get_request : String → Request
  get_request url = record {
    method = get;
    url = address client url;
    token = client.token;
    content_type = some "application/json";
    cookie = cookie_header client;
    body = "";
  }

  abbrev pub post_request : String → String → Request
  post_request url body = record {
    method = post;
    url = address client url;
    token = client.token;
    content_type = some (content_type (address client url));
    cookie = cookie_header client;
    body = body;
  }

  -- The cookie does not go with it.
  abbrev pub delete_request : String → Request
  delete_request url = record {
    method = delete;
    url = address client url;
    token = client.token;
    content_type = none;
    cookie = none;
    body = "";
  }

  abbrev pub client_get : String → Net Response
  client_get url = send server (get_request url)

  abbrev pub client_post : String → String → Net Response
  client_post url body = send server (post_request url body)

  abbrev pub client_delete : String → Net Response
  client_delete url = send server (delete_request url)
