-- ===== src/Media/Tests.antt =====
-- Calls at a concrete server and the removal of a film's files, and the theorems at them.
use mathlib.Core.Option.{some-injective}
use mathlib.Core.Path.{subst}
use dookie.Base.{
  ℕ, String, ◌<>◌, ◌≡◌, refl, ◌⊎◌, false, none, some, List, [], ◌∷◌, All, arith, eq_iff,
}
use dookie.Base.Result.{Result, ok}
use dookie.Disk.{
  FilePath, dir, symlink, Fs, put, Disk, symlink_metadata, remove_file, remove_dir_all,
}
use dookie.Disk.Paths.{strip_prefix}
use dookie.Media.{BundleError, Server, ◌>>=◌}
use dookie.Media.Arr.{hd1080p, ArrCodec, get_json, arr_delete, parse_response}
use dookie.Media.Bundle.{
  MediaBundle, Codecs, remove_movie, remove_show, components_from, counterparts, remove_media_files,
  remove_paths, remove_path,
}
use dookie.Media.Bundle.Order.{remove_order}
use dookie.Media.Calls.{service_requests, arr_removed}
use dookie.Media.Bundle.Removal.{
  Gone, IsCounterpart, remove_media_files_confined, remove_media_files_done,
}
use dookie.Media.Client.{BundleClient}
use dookie.Media.Qbit.{TorrentInfo, Qbit, delete_torrent}
use dookie.Media.Qbit
use dookie.Media.Qbit.Laws as QbitLaws
use dookie.Media.Radarr.{Movie, MovieCodec, find_movie, remove_tracked}
use dookie.Media.Radarr
use dookie.Media.Radarr.Laws as RadarrLaws
use dookie.Media.Sends.{Adds}
use dookie.Media.Sonarr.{Series, SeriesCodec, find_series}
use dookie.Media.Sonarr
use dookie.Media.Sonarr.Laws as SonarrLaws

abbrev client : BundleClient
client = record { port = 7878; token = ("X-Api-Key", "k"); cookie = "" }

-- Every request is answered with a success and a cookie.
abbrev pub server : Server
server sent r = ok (record { status = 200; cookie = some "SID=1"; body = ok [] })

abbrev arr : ArrCodec
arr = record {
  with_query = λ path key value. ok (path <> "?" <> key <> "=" <> value);
  profiles = λ bytes. ok (record { id = 4; name = "HD-1080p" } ∷ []);
  folders = λ bytes. ok (record { path = "/local/movies" } ∷ []);
}

abbrev film : Movie
film = record {
  title = "Film";
  year = 1999;
  overview = none;
  tmdb_id = 42;
  id = 7;
  path = some "/local/film";
  images = [];
  rest = [];
}

abbrev series : Series
series = record {
  title = "Show";
  year = 2001;
  overview = none;
  tvdb_id = 42;
  id = 7;
  path = some "/local/show";
  images = [];
  rest = [];
}

abbrev movies : MovieCodec
movies = record {
  arr = arr;
  parse_list = λ bytes. ok (film ∷ []);
  parse_one = λ bytes. ok film;
  to_json = λ movie. movie.title;
}

abbrev shows : SeriesCodec
shows = record {
  arr = arr;
  parse_list = λ bytes. ok (series ∷ []);
  parse_one = λ bytes. ok series;
  to_json = λ s. s.title;
}

abbrev roots : List (FilePath × FilePath)
roots = ("local" ∷ [], "das" ∷ []) ∷ []

-- The film's link on the local drive and its directory on the cold storage.
abbrev files : Fs
files p =
    put (put (λ q. none) ("das" ∷ "film" ∷ []) (some dir)) ("local" ∷ "film" ∷ [])
      (some (symlink ("das" ∷ "film" ∷ []))) p

abbrev disk : Disk
disk = record { fs = files; fails = λ n. false; calls = 0 }

abbrev qbit : Qbit
qbit = record { client = client; username = "u"; password = "p&q" }

abbrev pub codecs : Codecs (Unit {0})
codecs = record {
  movie = movies;
  series = shows;
  torrents = λ bytes. ok [];
  plex = record { history = λ bytes. ok tt; to_json = λ body. body.invited_email };
}

abbrev pub bundle : MediaBundle
bundle = record {
  plex_client = record { client = client; machine_id = "m"; client_id = "c"; plex_token = "t" };
  radarr_client = client;
  sonarr_client = client;
  qbit_client = qbit;
  move_map = roots;
}

movie_is_removed :
    (Radarr.make_call server client movies (Radarr.remove 42) []).0 ≡ ok (Radarr.removed film)
unfolding Radarr.make_call find_movie remove_tracked get_json arr_delete parse_response ◌>>=◌
movie_is_removed = refl

show_is_removed :
    (Sonarr.make_call server client shows (Sonarr.remove 42) []).0 ≡ ok (Sonarr.removed series)
unfolding Sonarr.make_call find_series Sonarr.remove_tracked get_json arr_delete parse_response
    ◌>>=◌
show_is_removed = refl

files_removed : (remove_media_files roots (some "/local/film") disk).0 ≡ ok tt
unfolding remove_media_files counterparts components_from remove_paths remove_path symlink_metadata
    remove_file remove_dir_all
files_removed = refl

remove_media_files_done_example :
    All
      (Gone (remove_media_files roots (some "/local/film") disk).1)
      (components_from "" "/local/film" ∷ counterparts (components_from "" "/local/film") roots)
    × All
        (IsCounterpart roots (components_from "" "/local/film"))
        (counterparts (components_from "" "/local/film") roots)
remove_media_files_done_example =
    remove_media_files_done roots "/local/film" disk (ground (arith, eq_iff "/local/film" ""))
      files_removed

outside_film :
    (path : String)
    → some "/local/film" ≡ some path
    → All
        (λ p. strip_prefix p ("local" ∷ "other" ∷ []) ≡ none)
        (components_from "" path ∷ counterparts (components_from "" path) roots)
unfolding counterparts components_from
outside_film path e =
    subst
      (λ (s : String).
        All (λ p. strip_prefix p ("local" ∷ "other" ∷ []) ≡ none)
          (components_from "" s ∷ counterparts (components_from "" s) roots))
      (some-injective _ _ e) (refl, (refl, tt))

remove_media_files_confined_example :
    (remove_media_files roots (some "/local/film") disk).1.fs ("local" ∷ "other" ∷ []) ≡ none
remove_media_files_confined_example =
    remove_media_files_confined roots (some "/local/film") ("local" ∷ "other" ∷ []) disk
      outside_film

arr_removed_example :
    RadarrLaws.IsDeleted server client movies film
      (Radarr.make_call server client movies (Radarr.remove 42) []).1
    × SonarrLaws.IsDeleted server client shows series
        (Sonarr.make_call server client shows (Sonarr.remove 42) []).1
arr_removed_example =
    arr_removed server client client movies shows 42 42 film series [] [] movie_is_removed
      show_is_removed

remove_order_example :
    (((remove_movie server codecs bundle 42 disk []).1 ≡ disk)
      ⊎ ((movie : Movie) × RadarrLaws.IsDeleted server client movies movie
            (remove_movie server codecs bundle 42 disk []).2
          × ((remove_movie server codecs bundle 42 disk []).1
              ≡ (remove_media_files roots movie.path disk).1)))
    × (((remove_show server codecs bundle 42 disk []).1 ≡ disk)
        ⊎ ((s : Series) × SonarrLaws.IsDeleted server client shows s
              (remove_show server codecs bundle 42 disk []).2
            × ((remove_show server codecs bundle 42 disk []).1
                ≡ (remove_media_files roots s.path disk).1)))
remove_order_example = remove_order server codecs bundle 42 42 disk []

abbrev no_torrents : List ℕ → Result BundleError (List (TorrentInfo (Unit {0})))
no_torrents bytes = ok []

service_requests_example :
    Adds
      (RadarrLaws.IsAllowed server client movies (Radarr.add 42 hd1080p))
      []
      (Radarr.make_call server client movies (Radarr.add 42 hd1080p) []).1
    × Adds
        (SonarrLaws.IsAllowed server client shows (Sonarr.remove 42))
        []
        (Sonarr.make_call server client shows (Sonarr.remove 42) []).1
    × Adds
        (QbitLaws.IsAllowed server no_torrents qbit (delete_torrent "abc"))
        []
        (Qbit.make_call server no_torrents qbit (delete_torrent "abc") []).1
service_requests_example =
    service_requests server client client qbit movies shows no_torrents (Radarr.add 42 hd1080p)
      (Sonarr.remove 42) (delete_torrent "abc") []
