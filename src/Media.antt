-- ===== src/Media.antt =====
-- server/src/media_bundle/ and server/src/client.rs: the clients of Radarr, Sonarr, qBittorrent and
-- Plex. A server answers a request from the requests before it; what the program does is a list
-- of requests, the last first. HTTP and JSON are other crates' and parameters.
pub mod Sends
pub mod Client
pub mod Arr
pub mod Radarr
pub mod Sonarr
pub mod Qbit
pub mod Plex
pub mod Bundle
pub mod Calls
pub mod Tests
use dookie.Base.{
  ℕ, zero, suc, ◌/◌, ◌%◌, String, ◌<>◌, Bool, true, false, ◌&&◌, ◌||◌, Option, none, some, List, [],
  ◌∷◌, leb, ltb, ◌==◌, str_eq, if◌then◌else◌,
}
use dookie.Base.Result.{Result, ok, err}
use dookie.Disk.{IoError}

-- `Box<dyn Error + Send + Sync>`, as far as its text is put together here.
pub data BundleError : Type 0 where
  message : String → BundleError
  bad_status : String → ℕ → List ℕ → BundleError
  transport decode : BundleError
  io : IoError → BundleError

-- `BundleResponse`
pub record Response : Type 0 where
  pub status : ℕ
  pub cookie : Option String
  pub body : Result BundleError (List ℕ)

pub data Method : Type 0 where
  get post delete : Method

pub record Request : Type 0 where
  pub method : Method
  pub url : String
  pub token : String × String
  pub content_type : Option String
  pub cookie : Option String
  pub body : String

abbrev pub Server : Type 0
Server = List Request → Request → Result BundleError Response

-- Steps that send requests and may fail.
abbrev pub Net : Type 0 → Type 0
Net A = List Request → Result BundleError A × List Request

pub send : Server → Request → Net Response
send server request sent = (server sent request, request ∷ sent)

pub lift : {A : Type 0} → Result BundleError A → Net A
lift r sent = (r, sent)

pub guard : Bool → BundleError → Net (Unit {0})
guard b e sent = if b then (ok tt, sent) else (err e, sent)

infixl 5 ◌>>=◌ ◌>>◌
-- Opening this opens the three steps above too.
unfoldable pub ◌>>=◌ : {A B : Type 0} → Net A → (A → Net B) → Net B
unfolding send lift guard
◌>>=◌ m f sent = let (r, sent') = m sent in elim r [ ok a ↦ f a sent' | err e ↦ (err e, sent') ]

abbrev pub ◌>>◌ : {A B : Type 0} → Net A → Net B → Net B
m >> k = m >>= λ _. k

-- `(200..300).contains(&status)`
abbrev pub is_success : ℕ → Bool
is_success status = leb 200 status && ltb status 300

abbrev pub ends_with : String → String → Bool
ends_with String.[] suffix = str_eq String.[] suffix
ends_with (String.◌∷◌ c s) suffix = str_eq (String.◌∷◌ c s) suffix || ends_with s suffix

abbrev pub is_empty : String → Bool
is_empty s = str_eq s ""

-- The `Display` of a `u64`, which has twenty digits at most.
abbrev pub digit : ℕ → String
digit n =
    if n == 0
    then "0"
    else if n == 1
    then "1"
    else if n == 2
    then "2"
    else if n == 3
    then "3"
    else if n == 4
    then "4"
    else if n == 5
    then "5"
    else if n == 6
    then "6"
    else if n == 7
    then "7"
    else if n == 8
    then "8"
    else "9"

abbrev pub digits : ℕ → ℕ → String
digits zero n = ""
digits (suc fuel) n =
    let above = digits fuel (n / 10) in
    (if n == 0 then "" else above) <> (if n == 0 then "" else digit (n % 10))

unfoldable pub show : ℕ → String
show n = if n == 0 then "0" else digits 20 n
