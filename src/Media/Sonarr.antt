-- ===== src/Media/Sonarr.antt =====
-- server/src/media_bundle/sonarr.rs: searching, adding and removing shows through Sonarr.
pub mod Laws
use dookie.Base.{
  ℕ, String, ◌<>◌, Bool, true, false, not, Option, none, some, List, [], ◌∷◌, find, ◌==◌,
  if◌then◌else◌,
}
use dookie.Base.Result.{Result, ok, err, ok_or}
use dookie.Media.{BundleError, message, Server, Net, ◌>>=◌, ◌>>◌, lift, show}
use dookie.Media.Arr.{
  MediaLookup, Quality, AddOutcome, added, already_tracked, ArrImage, Value, scalar, object, number,
  text, flag, extend, poster_url, AddTarget, ArrCodec, get_json, post_json, arr_delete, add_target,
}
use dookie.Media.Client.{BundleClient}

pub record Series : Type 0 where
  pub title : String
  pub year : ℕ
  pub overview : Option String
  pub tvdb_id : ℕ
  -- Sonarr's own id, not zero only for a series in the library.
  pub id : ℕ
  pub path : Option String
  pub images : List ArrImage
  pub rest : List (String × Value)

unfoldable pub lookup_of : Series → MediaLookup
lookup_of series = record {
  id = series.tvdb_id;
  title = series.title;
  year = series.year;
  overview = series.overview;
  poster_url = poster_url series.images;
  tracked = not (series.id == 0);
}

pub data SonarrInput : Type 0 where
  lookup : String → SonarrInput
  add : ℕ → Quality → SonarrInput
  remove : ℕ → SonarrInput

pub data SonarrOutput : Type 0 where
  shows : List Series → SonarrOutput
  add_result : AddOutcome → SonarrOutput
  removed not_tracked : Series → SonarrOutput

-- `serde_json` on shows.
pub record SeriesCodec : Type 0 where
  pub arr : ArrCodec
  pub parse_list : List ℕ → Result BundleError (List Series)
  pub parse_one : List ℕ → Result BundleError Series
  pub to_json : Series → String

abbrev pub lookup_url : ℕ → String
lookup_url tvdb_id = "/api/v3/series/lookup?term=tvdb:" <> show tvdb_id

abbrev pub with_target : AddTarget → Series → Series
with_target target series = record series {
  rest = extend series.rest (
      ("qualityProfileId", scalar (number target.quality_profile_id))
      ∷ ("rootFolderPath", scalar (text target.root_folder_path))
      ∷ ("monitored", scalar (flag true))
      ∷ ("seasonFolder", scalar (flag true))
      ∷ (
        "addOptions",
        object (("monitor", text "all") ∷ ("searchForMissingEpisodes", flag true) ∷ []),
      )
      ∷ []);
}

module _ (server : Server) (client : BundleClient) (codec : SeriesCodec) where
  -- The series with the id among what the lookup by id returns.
  unfoldable pub find_series : ℕ → Net Series
  find_series tvdb_id = do
    found ← get_json server client codec.parse_list (lookup_url tvdb_id)
    lift (
        ok_or (find (λ series. series.tvdb_id == tvdb_id) found)
          (message ("No show found with tvdb id " <> show tvdb_id)))

  unfoldable pub add_untracked : Quality → Series → Net SonarrOutput
  add_untracked quality series = do
    target ← add_target server client codec.arr quality
    series' ←
        post_json server client codec.parse_one "/api/v3/series"
          (codec.to_json (with_target target series))
    lift (ok (add_result (added (lookup_of series'))))

  unfoldable pub remove_tracked : Series → Net SonarrOutput
  remove_tracked found = do
    series ← get_json server client codec.parse_one ("/api/v3/series/" <> show found.id)
    arr_delete server client ("/api/v3/series/" <> show series.id <> "?deleteFiles=false")
    lift (ok (removed series))

  unfoldable pub make_call : SonarrInput → Net SonarrOutput
  make_call (lookup term) = do
    url ← lift (codec.arr.with_query "/api/v3/series/lookup" "term" term)
    found ← get_json server client codec.parse_list url
    lift (ok (shows found))
  make_call (add tvdb_id quality) = do
    series ← find_series tvdb_id
    if not (series.id == 0)
        then lift (ok (add_result (already_tracked (lookup_of series))))
        else add_untracked quality series
  make_call (remove tvdb_id) = do
    found ← find_series tvdb_id
    if found.id == 0 then lift (ok (not_tracked found)) else remove_tracked found
