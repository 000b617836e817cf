-- ===== src/Media/Bundle/Order.antt =====
-- A movie's files are removed only once Radarr has deleted the movie, a show's once Sonarr has.
use mathlib.Core.Path.{subst}
use dookie.Base.{ℕ, String, ◌≡◌, refl, sym, ◌⊎◌, inl, inr, Option, List, arith}
use dookie.Base.Result.{Result, ok, err}
use dookie.Disk.{Disk, FilePath}
use dookie.Media.{BundleError, Request, Server}
use dookie.Media.Arr.{MediaLookup}
use dookie.Media.Bundle.{
  MediaBundle, Codecs, movie_call, series_call, movie_removed, show_removed, remove_movie,
  remove_show, remove_media_files, then_remove,
}
use dookie.Media.Radarr
use dookie.Media.Radarr.Laws.{radarr_removed}
use dookie.Media.Radarr.Laws as RadarrLaws
use dookie.Media.Sonarr
use dookie.Media.Sonarr.Laws.{sonarr_removed}
use dookie.Media.Sonarr.Laws as SonarrLaws

then_remove_disk :
    (move_map : List (FilePath × FilePath)) (path : Option String) (lookup : MediaLookup) (d : Disk)
    (h : List Request)
    → ((then_remove move_map path lookup d h).1 ≡ (remove_media_files move_map path d).1)
      × ((then_remove move_map path lookup d h).2 ≡ h)
then_remove_disk move_map path lookup d h = (ground arith, ground arith)

module _ {F64 : Type 0} (server : Server) (codecs : Codecs F64) (bundle : MediaBundle) where
  -- Removing a movie, whatever fails, either leaves the disk as it was, or Radarr has deleted a movie
  -- and exactly the removal of that movie's files has run.
  remove_movie_order :
      (tmdb_id : ℕ) (d : Disk) (h : List Request)
      → ((remove_movie server codecs bundle tmdb_id d h).1 ≡ d)
        ⊎ ((movie : Radarr.Movie) × RadarrLaws.IsDeleted server bundle.radarr_client codecs.movie
              movie
              (remove_movie server codecs bundle tmdb_id d h).2
            × ((remove_movie server codecs bundle tmdb_id d h).1
                ≡ (remove_media_files bundle.move_map movie.path d).1))
  unfolding remove_movie
  remove_movie_order tmdb_id d h =
      let call = movie_call server codecs bundle (Radarr.remove tmdb_id) h in
      by_output call.0 call.1
        (λ movie e. radarr_removed server bundle.radarr_client codecs.movie tmdb_id movie h e)
    where
      by_output :
          (r : Result BundleError Radarr.RadarrOutput) (sent : List Request)
          → ((movie : Radarr.Movie)
              → r ≡ ok (Radarr.removed movie)
              → RadarrLaws.IsDeleted server bundle.radarr_client codecs.movie movie sent)
          → ((movie_removed server codecs bundle r d sent).1 ≡ d)
            ⊎ ((movie : Radarr.Movie) × RadarrLaws.IsDeleted server bundle.radarr_client
                  codecs.movie movie
                  (movie_removed server codecs bundle r d sent).2
                × ((movie_removed server codecs bundle r d sent).1
                    ≡ (remove_media_files bundle.move_map movie.path d).1))
      by_output (err e) sent k = inl refl
      by_output (ok (Radarr.not_tracked movie)) sent k = inl refl
      by_output (ok (Radarr.movies found)) sent k = inl refl
      by_output (ok (Radarr.add_result outcome)) sent k = inl refl
      by_output (ok (Radarr.removed movie)) sent k =
          let (e, f) =
            then_remove_disk bundle.move_map movie.path (Radarr.lookup_of movie) d sent in
          inr (
            movie,
            subst (RadarrLaws.IsDeleted server bundle.radarr_client codecs.movie movie) (sym f)
                (k movie refl),
            e,
          )

  -- Removing a show, whatever fails, either leaves the disk as it was, or Sonarr has deleted a show
  -- and exactly the removal of that show's files has run.
  remove_show_order :
      (tvdb_id : ℕ) (d : Disk) (h : List Request)
      → ((remove_show server codecs bundle tvdb_id d h).1 ≡ d)
        ⊎ ((series : Sonarr.Series) × SonarrLaws.IsDeleted server bundle.sonarr_client codecs.series
              series
              (remove_show server codecs bundle tvdb_id d h).2
            × ((remove_show server codecs bundle tvdb_id d h).1
                ≡ (remove_media_files bundle.move_map series.path d).1))
  unfolding remove_show
  remove_show_order tvdb_id d h =
      let call = series_call server codecs bundle (Sonarr.remove tvdb_id) h in
      by_output call.0 call.1
        (λ series e. sonarr_removed server bundle.sonarr_client codecs.series tvdb_id series h e)
    where
      by_output :
          (r : Result BundleError Sonarr.SonarrOutput) (sent : List Request)
          → ((series : Sonarr.Series)
              → r ≡ ok (Sonarr.removed series)
              → SonarrLaws.IsDeleted server bundle.sonarr_client codecs.series series sent)
          → ((show_removed server codecs bundle r d sent).1 ≡ d)
            ⊎ ((series : Sonarr.Series) × SonarrLaws.IsDeleted server bundle.sonarr_client
                  codecs.series series
                  (show_removed server codecs bundle r d sent).2
                × ((show_removed server codecs bundle r d sent).1
                    ≡ (remove_media_files bundle.move_map series.path d).1))
      by_output (err e) sent k = inl refl
      by_output (ok (Sonarr.not_tracked series)) sent k = inl refl
      by_output (ok (Sonarr.shows found)) sent k = inl refl
      by_output (ok (Sonarr.add_result outcome)) sent k = inl refl
      by_output (ok (Sonarr.removed series)) sent k =
          let (e, f) =
            then_remove_disk bundle.move_map series.path (Sonarr.lookup_of series) d sent in
          inr (
            series,
            subst (SonarrLaws.IsDeleted server bundle.sonarr_client codecs.series series) (sym f)
                (k series refl),
            e,
          )

  -- Removing a movie or a show, whatever fails, either leaves the disk as it was, or Radarr or Sonarr
  -- has deleted it, by its last request that was answered with a success, and exactly the removal of
  -- the files of what was deleted has run.
  pub remove_order :
      (tmdb_id tvdb_id : ℕ) (d : Disk) (h : List Request)
      → (((remove_movie server codecs bundle tmdb_id d h).1 ≡ d)
          ⊎ ((movie : Radarr.Movie) × RadarrLaws.IsDeleted server bundle.radarr_client codecs.movie
                movie
                (remove_movie server codecs bundle tmdb_id d h).2
              × ((remove_movie server codecs bundle tmdb_id d h).1
                  ≡ (remove_media_files bundle.move_map movie.path d).1)))
        × (((remove_show server codecs bundle tvdb_id d h).1 ≡ d)
            ⊎ ((series : Sonarr.Series) × SonarrLaws.IsDeleted server bundle.sonarr_client
                  codecs.series series
                  (remove_show server codecs bundle tvdb_id d h).2
                × ((remove_show server codecs bundle tvdb_id d h).1
                    ≡ (remove_media_files bundle.move_map series.path d).1)))
  remove_order tmdb_id tvdb_id d h = (remove_movie_order tmdb_id d h, remove_show_order tvdb_id d h)
