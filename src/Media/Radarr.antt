-- ===== src/Media/Radarr.antt =====
-- server/src/media_bundle/radarr.rs: searching, adding and removing movies through Radarr.
pub mod Laws
use dookie.Base.{
  ℕ, String, ◌<>◌, Bool, true, false, not, Option, none, some, List, [], ◌∷◌, find, ◌==◌,
  if◌then◌else◌,
}
use dookie.Base.Result.{Result, ok, err, ok_or}
use dookie.Media.{BundleError, message, Server, Net, ◌>>=◌, ◌>>◌, lift, show}
use dookie.Media.Arr.{
  MediaLookup, Quality, AddOutcome, added, already_tracked, ArrImage, Value, scalar, object, number,
  text, flag, extend, poster_url, AddTarget, ArrCodec, get_json, post_json, arr_delete, add_target,
}
use dookie.Media.Client.{BundleClient}

pub record Movie : Type 0 where
  pub title : String
  pub year : ℕ
  pub overview : Option String
  pub tmdb_id : ℕ
  -- Radarr's own id, not zero only for a movie in the library.
  pub id : ℕ
  pub path : Option String
  pub images : List ArrImage
  pub rest : List (String × Value)

unfoldable pub lookup_of : Movie → MediaLookup
lookup_of movie = record {
  id = movie.tmdb_id;
  title = movie.title;
  year = movie.year;
  overview = movie.overview;
  poster_url = poster_url movie.images;
  tracked = not (movie.id == 0);
}

pub data RadarrInput : Type 0 where
  lookup : String → RadarrInput
  add : ℕ → Quality → RadarrInput
  remove : ℕ → RadarrInput

pub data RadarrOutput : Type 0 where
  movies : List Movie → RadarrOutput
  add_result : AddOutcome → RadarrOutput
  removed not_tracked : Movie → RadarrOutput

-- `serde_json` on movies.
pub record MovieCodec : Type 0 where
  pub arr : ArrCodec
  pub parse_list : List ℕ → Result BundleError (List Movie)
  pub parse_one : List ℕ → Result BundleError Movie
  pub to_json : Movie → String

abbrev pub lookup_url : ℕ → String
lookup_url tmdb_id = "/api/v3/movie/lookup?term=tmdb:" <> show tmdb_id

abbrev pub with_target : AddTarget → Movie → Movie
with_target target movie = record movie {
  rest = extend movie.rest (
      ("qualityProfileId", scalar (number target.quality_profile_id))
      ∷ ("rootFolderPath", scalar (text target.root_folder_path))
      ∷ ("monitored", scalar (flag true))
      ∷ ("minimumAvailability", scalar (text "released"))
      ∷ ("addOptions", object (("searchForMovie", flag true) ∷ []))
      ∷ []);
}

module _ (server : Server) (client : BundleClient) (codec : MovieCodec) where
  -- The movie with the id among what the lookup by id returns.
  unfoldable pub find_movie : ℕ → Net Movie
  find_movie tmdb_id = do
    found ← get_json server client codec.parse_list (lookup_url tmdb_id)
    lift (
        ok_or (find (λ movie. movie.tmdb_id == tmdb_id) found)
          (message ("No movie found with tmdb id " <> show tmdb_id)))

  unfoldable pub add_untracked : Quality → Movie → Net RadarrOutput
  add_untracked quality movie = do
    target ← add_target server client codec.arr quality
    movie' ←
        post_json server client codec.parse_one "/api/v3/movie"
          (codec.to_json (with_target target movie))
    lift (ok (add_result (added (lookup_of movie'))))

  unfoldable pub remove_tracked : Movie → Net RadarrOutput
  remove_tracked found = do
    movie ← get_json server client codec.parse_one ("/api/v3/movie/" <> show found.id)
    arr_delete server client ("/api/v3/movie/" <> show movie.id <> "?deleteFiles=false")
    lift (ok (removed movie))

  unfoldable pub make_call : RadarrInput → Net RadarrOutput
  make_call (lookup term) = do
    url ← lift (codec.arr.with_query "/api/v3/movie/lookup" "term" term)
    found ← get_json server client codec.parse_list url
    lift (ok (movies found))
  make_call (add tmdb_id quality) = do
    movie ← find_movie tmdb_id
    if not (movie.id == 0)
        then lift (ok (add_result (already_tracked (lookup_of movie))))
        else add_untracked quality movie
  make_call (remove tmdb_id) = do
    found ← find_movie tmdb_id
    if found.id == 0 then lift (ok (not_tracked found)) else remove_tracked found
