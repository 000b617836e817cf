-- ===== src/Media/Calls.antt =====
-- The services beside each other: which requests their calls send, what a removal has done.
use dookie.Base.{ℕ, ◌≡◌, List}
use dookie.Base.Result.{Result, ok}
use dookie.Media.{BundleError, Request, Server}
use dookie.Media.Client.{BundleClient}
use dookie.Media.Qbit
use dookie.Media.Qbit.Laws.{qbit_requests}
use dookie.Media.Qbit.Laws as QbitLaws
use dookie.Media.Radarr
use dookie.Media.Radarr.Laws.{radarr_requests, radarr_removed}
use dookie.Media.Radarr.Laws as RadarrLaws
use dookie.Media.Sends.{Adds}
use dookie.Media.Sonarr
use dookie.Media.Sonarr.Laws.{sonarr_requests, sonarr_removed}
use dookie.Media.Sonarr.Laws as SonarrLaws

module _ {F64 : Type 0} (server : Server) (radarr sonarr : BundleClient) (qbit : Qbit.Qbit)
    (movies : Radarr.MovieCodec) (shows : Sonarr.SeriesCodec)
    (torrents : List ℕ → Result BundleError (List (Qbit.TorrentInfo F64))) where
  -- A call sends, whatever is answered, only these requests. To Radarr or Sonarr, GET requests, and, for
  -- an input that adds, the addition of the movie or show that the lookup of that number finds, where
  -- it is not tracked yet; for an input that removes, the deletion that keeps the files of the one
  -- that is answered when it is asked for the tracked one which the lookup of that number finds. To
  -- qBittorrent, its login and, with the cookie of a login that was answered with a success, the
  -- request that its input stands for.
  pub service_requests :
      (movie_input : Radarr.RadarrInput) (show_input : Sonarr.SonarrInput)
      (torrent_input : Qbit.QbitInput) (h : List Request)
      → Adds
          (RadarrLaws.IsAllowed server radarr movies movie_input)
          h
          (Radarr.make_call server radarr movies movie_input h).1
        × Adds
            (SonarrLaws.IsAllowed server sonarr shows show_input)
            h
            (Sonarr.make_call server sonarr shows show_input h).1
        × Adds
            (QbitLaws.IsAllowed server torrents qbit torrent_input)
            h
            (Qbit.make_call server torrents qbit torrent_input h).1
  service_requests movie_input show_input torrent_input h = (
    radarr_requests server radarr movies movie_input h,
    sonarr_requests server sonarr shows show_input h,
    qbit_requests server torrents qbit torrent_input h,
  )

module _ (server : Server) (radarr sonarr : BundleClient) (movies : Radarr.MovieCodec)
    (shows : Sonarr.SeriesCodec) where
  -- Removals that return `Removed` have deleted that movie and that show: the deletion was the last
  -- request of each, and was answered with a success.
  pub arr_removed :
      (tmdb_id tvdb_id : ℕ) (movie : Radarr.Movie) (series : Sonarr.Series) (h h' : List Request)
      → (Radarr.make_call server radarr movies (Radarr.remove tmdb_id) h).0
        ≡ ok (Radarr.removed movie)
      → (Sonarr.make_call server sonarr shows (Sonarr.remove tvdb_id) h').0
        ≡ ok (Sonarr.removed series)
      → RadarrLaws.IsDeleted server radarr movies movie
          (Radarr.make_call server radarr movies (Radarr.remove tmdb_id) h).1
        × SonarrLaws.IsDeleted server sonarr shows series
            (Sonarr.make_call server sonarr shows (Sonarr.remove tvdb_id) h').1
  arr_removed tmdb_id tvdb_id movie series h h' e e' = (
    radarr_removed server radarr movies tmdb_id movie h e,
    sonarr_removed server sonarr shows tvdb_id series h' e',
  )
