-- ===== src/Media/Bundle.antt =====
-- server/src/media_bundle/mod.rs: `MediaBundle`, the calls of the servers put together, and the removal
-- of a medium's files from the local drive and the cold storage.
pub mod Removal
pub mod Order
use Prim.Native.Char.{Char, code}
use dookie.Base.{
  ℕ, String, ◌<>◌, Bool, true, false, Option, none, some, List, [], ◌∷◌, ◌++◌, map, ◌&&◌, leb, ltb,
  ◌==◌, str_eq, if◌then◌else◌,
}
use dookie.Base.Result.{Result, ok, err, map_err}
use dookie.Disk.{
  FilePath, IoError, not_found, Node, dir, Disk, Io, symlink_metadata, remove_file, remove_dir_all,
}
use dookie.Disk.Paths.{strip_prefix}
use dookie.Media.{BundleError, message, io, Request, Server, Net, ◌>>=◌, ◌>>◌, lift, is_empty}
use dookie.Media.Arr.{MediaLookup, Quality, AddOutcome}
use dookie.Media.Client.{BundleClient}
use dookie.Media.Plex.{
  Plex, PlexInput, refresh_library, grant_access, PlexCodec, PlexOutput, status_code,
  session_history,
}
use dookie.Media.Plex
use dookie.Media.Qbit.{TorrentInfo, Qbit, list_active, delete_torrent, torrents, deleted_torrent}
use dookie.Media.Qbit
use dookie.Media.Radarr.{MovieCodec}
use dookie.Media.Radarr
use dookie.Media.Sonarr.{SeriesCodec}
use dookie.Media.Sonarr

pub data RemoveOutcome : Type 0 where
  removed not_tracked : MediaLookup → RemoveOutcome

-- The components of an absolute path: empty ones and `.` do not count.
abbrev pub is_component : String → Bool
is_component word = if str_eq word "" then false else if str_eq word "." then false else true

abbrev pub with_component : String → FilePath → FilePath
with_component word rest = if is_component word then word ∷ rest else rest

unfoldable pub components_from : String → String → FilePath
components_from word String.[] = with_component word []
components_from word (String.◌∷◌ c s) =
    let next = components_from "" s in
    let more = components_from (word <> String.◌∷◌ c String.[]) s in
    if code c == 47 then with_component word next else more

-- `remove_path`
pub after_metadata : FilePath → Result IoError Node → Io (Unit {0})
after_metadata path (ok dir) d = remove_dir_all path d
after_metadata path (ok _) d = remove_file path d
after_metadata path (err not_found) d = (ok tt, d)
after_metadata path (err error) d = (err error, d)

unfoldable pub remove_path : FilePath → Io (Unit {0})
unfolding after_metadata
remove_path path d = let (found, d') = symlink_metadata path d in after_metadata path found d'

-- The places of an indexed path on the other drive, for each pair of roots that it lies below.
abbrev pub counterpart : FilePath → FilePath → Option FilePath → List FilePath → List FilePath
counterpart root path none rest = rest
counterpart root path (some []) rest = rest
counterpart root path (some relative) rest = (root ++ relative) ∷ rest

unfoldable pub counterparts : FilePath → List (FilePath × FilePath) → List FilePath
counterparts path [] = []
counterparts path ((local_root, das_root) ∷ move_map) =
    let rest = counterparts path move_map in
    elim (strip_prefix local_root path) [
      | some relative ↦ counterpart das_root path (some relative) rest
      | none ↦ counterpart local_root path (strip_prefix das_root path) rest
    ]

unfoldable pub remove_paths : List FilePath → Io (Unit {0})
remove_paths [] d = (ok tt, d)
remove_paths (path ∷ paths) d =
    let (r, d') = remove_path path d in
    elim r [ ok _ ↦ remove_paths paths d' | err error ↦ (err error, d') ]

unfoldable pub remove_media_files : List (FilePath × FilePath) → Option String → Io (Unit {0})
remove_media_files move_map none d = (ok tt, d)
remove_media_files move_map (some indexed_path) d =
    let path = components_from "" indexed_path in
    if is_empty indexed_path then (ok tt, d) else remove_paths (path ∷ counterparts path move_map) d

pub record MediaBundle : Type 0 where
  pub plex_client : Plex
  pub radarr_client : BundleClient
  pub sonarr_client : BundleClient
  pub qbit_client : Qbit
  pub move_map : List (FilePath × FilePath)

pub record Codecs (F64 : Type 0) : Type 0 where
  pub movie : MovieCodec
  pub series : SeriesCodec
  pub torrents : List ℕ → Result BundleError (List (TorrentInfo F64))
  pub plex : PlexCodec

-- Requests, then the removal of files.
abbrev pub World : Type 0 → Type 0
World A = Disk → List Request → Result BundleError A × Disk × List Request

abbrev pub then_remove :
    List (FilePath × FilePath) → Option String → MediaLookup → World RemoveOutcome
then_remove move_map path lookup d sent =
    let (r, d') = remove_media_files move_map path d in
    elim r [ ok _ ↦ (ok (removed lookup), d', sent) | err error ↦ (err (io error), d', sent) ]

abbrev unexpected : BundleError
unexpected = message "Unexpected output"

module _ {F64 : Type 0} (server : Server) (codecs : Codecs F64) (bundle : MediaBundle) where
  abbrev pub movie_call : Radarr.RadarrInput → Net Radarr.RadarrOutput
  movie_call = Radarr.make_call server bundle.radarr_client codecs.movie

  abbrev pub series_call : Sonarr.SonarrInput → Net Sonarr.SonarrOutput
  series_call = Sonarr.make_call server bundle.sonarr_client codecs.series

  unfoldable pub search_movies : String → Net (List MediaLookup)
  search_movies term = do
    output ← movie_call (Radarr.lookup term)
    lift
        (elim output [ Radarr.movies found ↦ ok (map Radarr.lookup_of found) | _ ↦ err unexpected ])

  unfoldable pub add_movie : ℕ → Quality → Net AddOutcome
  add_movie tmdb_id quality = do
    output ← movie_call (Radarr.add tmdb_id quality)
    lift (elim output [ Radarr.add_result outcome ↦ ok outcome | _ ↦ err unexpected ])

  unfoldable pub search_shows : String → Net (List MediaLookup)
  search_shows term = do
    output ← series_call (Sonarr.lookup term)
    lift (elim output [ Sonarr.shows found ↦ ok (map Sonarr.lookup_of found) | _ ↦ err unexpected ])

  unfoldable pub add_show : ℕ → Quality → Net AddOutcome
  add_show tvdb_id quality = do
    output ← series_call (Sonarr.add tvdb_id quality)
    lift (elim output [ Sonarr.add_result outcome ↦ ok outcome | _ ↦ err unexpected ])

  pub movie_removed : Result BundleError Radarr.RadarrOutput → World RemoveOutcome
  movie_removed (err error) d sent = (err error, d, sent)
  movie_removed (ok (Radarr.removed movie)) d sent =
      then_remove bundle.move_map movie.path (Radarr.lookup_of movie) d sent
  movie_removed (ok (Radarr.not_tracked movie)) d sent =
      (ok (not_tracked (Radarr.lookup_of movie)), d, sent)
  movie_removed (ok _) d sent = (err unexpected, d, sent)

  unfoldable pub remove_movie : ℕ → World RemoveOutcome
  unfolding movie_removed
  remove_movie tmdb_id d sent =
      let (output, sent') = movie_call (Radarr.remove tmdb_id) sent in movie_removed output d sent'

  pub show_removed : Result BundleError Sonarr.SonarrOutput → World RemoveOutcome
  show_removed (err error) d sent = (err error, d, sent)
  show_removed (ok (Sonarr.removed series)) d sent =
      then_remove bundle.move_map series.path (Sonarr.lookup_of series) d sent
  show_removed (ok (Sonarr.not_tracked series)) d sent =
      (ok (not_tracked (Sonarr.lookup_of series)), d, sent)
  show_removed (ok _) d sent = (err unexpected, d, sent)

  unfoldable pub remove_show : ℕ → World RemoveOutcome
  unfolding show_removed
  remove_show tvdb_id d sent =
      let (output, sent') = series_call (Sonarr.remove tvdb_id) sent in show_removed output d sent'

  unfoldable pub list_active_torrents : Net (List (TorrentInfo F64))
  list_active_torrents = do
    output ← Qbit.make_call server codecs.torrents bundle.qbit_client list_active
    lift (elim output [
      | torrents found ↦ ok found
      | deleted_torrent ↦ err (message "Unexpected qBittorrent response")
    ])

  unfoldable pub delete_qbit_torrent : String → Net (Unit {0})
  delete_qbit_torrent hash = do
    output ← Qbit.make_call server codecs.torrents bundle.qbit_client (delete_torrent hash)
    lift (elim output [
      | deleted_torrent ↦ ok tt
      | torrents _ ↦ err (message "Unexpected qBittorrent response")
    ])

  -- `StatusCode::from_u16` takes the codes of three digits.
  abbrev pub from_u16 : ℕ → Result BundleError ℕ
  from_u16 code =
      if leb 100 code && ltb code 1000 then ok code else err (message "invalid status code")

  unfoldable pub refresh_libraries : ℕ → Net ℕ
  refresh_libraries id = do
    output ← Plex.make_call server codecs.plex bundle.plex_client (refresh_library id)
    lift (elim output [ status_code code ↦ from_u16 code | _ ↦ err unexpected ])

  unfoldable pub grant_library_access : String → Net ℕ
  grant_library_access email = do
    output ←
        Plex.make_call server codecs.plex bundle.plex_client
          (grant_access email bundle.plex_client.machine_id)
    lift (elim output [ status_code code ↦ from_u16 code | _ ↦ err unexpected ])
