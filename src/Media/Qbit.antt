-- ===== src/Media/Qbit.antt =====
-- server/src/media_bundle/qbit.rs: the login and the two calls of qBittorrent.
pub mod Laws
use Prim.Native.Char.{Char, code}
use dookie.Base.{
  ℕ, ◌+◌, ◌-◌, ◌*◌, ◌/◌, ◌%◌, String, ◌<>◌, Bool, true, false, not, ◌&&◌, ◌||◌, Option, none, some,
  List, [], ◌∷◌, is_some, ltb, leb, ◌==◌, if◌then◌else◌,
}
use dookie.Base.Result.{Result, ok, err, ok_or}
use dookie.Media.{
  BundleError, message, bad_status, Response, Server, Net, ◌>>=◌, ◌>>◌, lift, guard, is_success,
  digit,
}
use dookie.Media.Client.{BundleClient, set_cookie, client_get, client_post}

-- `progress` is an `f64`, which is only printed.
pub record TorrentInfo (F64 : Type 0) : Type 0 where
  pub hash : String
  pub name : String
  pub progress : F64
  pub dlspeed : ℕ
  pub upspeed : ℕ

pub data QbitInput : Type 0 where
  list_active : QbitInput
  delete_torrent : String → QbitInput

pub data QbitOutput (F64 : Type 0) : Type 0 where
  torrents : List (TorrentInfo F64) → QbitOutput F64
  deleted_torrent : QbitOutput F64

pub record Qbit : Type 0 where
  pub client : BundleClient
  pub username : String
  pub password : String

-- The bytes of a character in UTF-8.
unfoldable pub bytes_of : Char → List ℕ
bytes_of ch =
    let c = code ch in
    if ltb c 0x80
    then c ∷ []
    else if ltb c 0x800
    then (0xc0 + c / 64) ∷ (0x80 + c % 64) ∷ []
    else if ltb c 0x10000
    then (0xe0 + c / 4096) ∷ (0x80 + c / 64 % 64) ∷ (0x80 + c % 64) ∷ []
    else (0xf0 + c / 262144) ∷ (0x80 + c / 4096 % 64) ∷ (0x80 + c / 64 % 64) ∷ (0x80 + c % 64) ∷ []

unfoldable pub hex_digit : ℕ → String
hex_digit n =
    if ltb n 10
    then digit n
    else if n == 10
    then "A"
    else if n == 11
    then "B"
    else if n == 12
    then "C"
    else if n == 13
    then "D"
    else if n == 14
    then "E"
    else "F"

-- `format!("%{byte:02X}")`
abbrev pub percent : ℕ → String
percent byte = "%" <> hex_digit (byte / 16) <> hex_digit (byte % 16)

abbrev pub percents : List ℕ → String
percents [] = ""
percents (byte ∷ bytes) = percent byte <> percents bytes

-- `byte.is_ascii_alphanumeric() || matches!(byte, b'-' | b'.' | b'_' | b'~')`
unfoldable pub is_unreserved : ℕ → Bool
is_unreserved c =
    (leb 48 c && leb c 57)
    || (leb 65 c && leb c 90)
    || (leb 97 c && leb c 122)
    || c == 45
    || c == 46
    || c == 95
    || c == 126

-- Byte by byte; the bytes of a character that is not ASCII are none of those kept.
unfoldable pub urlencoded : String → String
urlencoded String.[] = ""
urlencoded (String.◌∷◌ c s) =
    let rest = urlencoded s in
    let kept = String.◌∷◌ c String.[] in
    (if is_unreserved (code c) then kept else percents (bytes_of c)) <> rest

abbrev pub login_body : Qbit → String
login_body qbit =
    "username=" <> urlencoded qbit.username <> "&password=" <> urlencoded qbit.password

-- After the test the cookie is there, and the program may expect it.
abbrev with_cookie : BundleClient → Option String → Result BundleError BundleClient
with_cookie client none = err (message "checked above")
with_cookie client (some cookie) = ok (set_cookie cookie client)

unfoldable pub logged_in : Qbit → ℕ → List ℕ → Option String → Result BundleError BundleClient
logged_in qbit status body cookie =
    if is_success status && is_some cookie
    then with_cookie qbit.client cookie
    else err (bad_status "/api/v2/auth/login" status body)

module _ {F64 : Type 0} (server : Server)
    (parse : List ℕ → Result BundleError (List (TorrentInfo F64))) (qbit : Qbit) where
  -- The client with the session's cookie.
  unfoldable pub login : Net BundleClient
  login = do
    response ← client_post server qbit.client "/api/v2/auth/login" (login_body qbit)
    body ← lift response.body
    lift (logged_in qbit response.status body response.cookie)

  unfoldable pub make_call : QbitInput → Net (QbitOutput F64)
  make_call list_active = do
    client ← login
    response ← client_get server client "/api/v2/torrents/info?filter=active"
    body ← lift response.body
    guard (is_success response.status) (bad_status "" response.status [])
    found ← lift (parse body)
    lift (ok (torrents found))
  make_call (delete_torrent hash) = do
    client ← login
    response ←
        client_post server client "/api/v2/torrents/delete"
          ("hashes=" <> hash <> "&deleteFiles=true")
    body ← lift response.body
    guard (is_success response.status) (bad_status "" response.status body)
    lift (ok deleted_torrent)
