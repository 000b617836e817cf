-- ===== src/Media/Arr.antt =====
-- server/src/media_bundle/mod.rs: what Radarr and Sonarr share, `arr_util` and the data of a lookup.
pub mod Laws
use dookie.Base.{
  ℕ, String, ◌<>◌, Bool, true, false, not, Option, none, some, List, [], ◌∷◌, ◌++◌, find, str_eq,
  ◌==◌, if◌then◌else◌,
}
use dookie.Base.Result.{Result, ok, err, ok_or}
use dookie.Media.{
  BundleError, message, bad_status, Response, Server, Net, ◌>>=◌, ◌>>◌, lift, guard, is_success,
  show,
}
use dookie.Media.Client.{BundleClient, client_get, client_post, client_delete}

-- `MediaLookup`
pub record MediaLookup : Type 0 where
  pub id : ℕ
  pub title : String
  pub year : ℕ
  pub overview : Option String
  pub poster_url : Option String
  pub tracked : Bool

pub data Quality : Type 0 where
  hd1080p ultra_hd : Quality

abbrev pub profile_name : Quality → String
profile_name hd1080p = "HD-1080p"
profile_name ultra_hd = "Ultra-HD"

pub data AddOutcome : Type 0 where
  added already_tracked : MediaLookup → AddOutcome

pub record ArrImage : Type 0 where
  pub cover_type : String
  pub remote_url : Option String

-- The JSON values that the program builds, and any other.
pub data Scalar : Type 0 where
  number : ℕ → Scalar
  text : String → Scalar
  flag : Bool → Scalar

pub data Value : Type 0 where
  scalar : Scalar → Value
  object : List (String × Scalar) → Value
  other : String → Value

-- `Map::extend`: a key that is there gets the new value.
abbrev pub insert : String → Value → List (String × Value) → List (String × Value)
insert key value [] = (key, value) ∷ []
insert key value ((k, v) ∷ rest) =
    let more = insert key value rest in if str_eq k key then (key, value) ∷ rest else (k, v) ∷ more

abbrev pub extend : List (String × Value) → List (String × Value) → List (String × Value)
extend values [] = values
extend values ((key, value) ∷ more) = extend (insert key value values) more

unfoldable pub poster_url : List ArrImage → Option String
poster_url images = elim (find (λ image. str_eq image.cover_type "poster") images) [
  | none ↦ none
  | some image ↦ image.remote_url
]

pub record AddTarget : Type 0 where
  pub quality_profile_id : ℕ
  pub root_folder_path : String

pub record QualityProfile : Type 0 where
  pub id : ℕ
  pub name : String

pub record RootFolder : Type 0 where
  pub path : String

-- `serde_json` and the URL type of `reqwest`.
pub record ArrCodec : Type 0 where
  pub with_query : String → String → String → Result BundleError String
  pub profiles : List ℕ → Result BundleError (List QualityProfile)
  pub folders : List ℕ → Result BundleError (List RootFolder)

unfoldable pub parse_response :
    {T : Type 0} → (List ℕ → Result BundleError T) → String → ℕ → List ℕ → Result BundleError T
parse_response parse url status body =
    if is_success status then parse body else err (bad_status url status body)

module _ (server : Server) (client : BundleClient) where
  unfoldable pub get_json : {T : Type 0} → (List ℕ → Result BundleError T) → String → Net T
  get_json parse url = do
    response ← client_get server client url
    body ← lift response.body
    lift (parse_response parse url response.status body)

  unfoldable pub post_json :
      {T : Type 0} → (List ℕ → Result BundleError T) → String → String → Net T
  post_json parse url json = do
    response ← client_post server client url json
    body ← lift response.body
    lift (parse_response parse url response.status body)

  unfoldable pub arr_delete : String → Net (Unit {0})
  arr_delete url = do
    response ← client_delete server client url
    guard (is_success response.status) (bad_status url response.status [])

  abbrev pub first : List RootFolder → Option RootFolder
  first [] = none
  first (folder ∷ _) = some folder

  unfoldable pub add_target : ArrCodec → Quality → Net AddTarget
  add_target codec quality = do
    profiles ← get_json codec.profiles "/api/v3/qualityprofile"
    folders ← get_json codec.folders "/api/v3/rootfolder"
    profile ← lift (
        ok_or (find (λ profile. str_eq profile.name (profile_name quality)) profiles)
          (message ("No " <> profile_name quality <> " quality profile configured")))
    folder ← lift (ok_or (first folders) (message "No root folder configured"))
    lift (ok (record { quality_profile_id = profile.id; root_folder_path = folder.path }))
