-- ===== src/Config/Keys.antt =====
-- Which key goes to which server.
use dookie.Base.{ℕ, String, ◌<>◌, ◌≡◌, refl, ap, ◌⊎◌, inl, inr, List}
use dookie.Base.Result.{Result}
use dookie.Config.{Config}
use dookie.Config.Clients.{from_client_with_config}
use dookie.Media.{BundleError, Request, Server, show}
use dookie.Media.Arr.Laws.{IsGet}
use dookie.Media.Bundle.{Codecs, movie_call, series_call}
use dookie.Media.Calls.{service_requests}
use dookie.Media.Client.{BundleClient, post_request, delete_request}
use dookie.Media.Plex.{
  Plex, PlexInput, get_session_history, refresh_library, grant_lib_access, PlexCodec, grant_request,
}
use dookie.Media.Plex
use dookie.Media.Qbit.{TorrentInfo, QbitInput, list_active, delete_torrent}
use dookie.Media.Qbit
use dookie.Media.Qbit.Laws as QbitLaws
use dookie.Media.Radarr
use dookie.Media.Radarr.Laws as RadarrLaws
use dookie.Media.Sends.{Adds, Adds-map, Sends, Sends-send, Sends-lift, Sends-guard, Sends-bind}
use dookie.Media.Sonarr
use dookie.Media.Sonarr.Laws as SonarrLaws

-- A request to a port of this machine, with that header for a key.
abbrev pub IsFor : ℕ → String × String → Request → Type 0
IsFor port token r =
    (path : String) × (r.url ≡ "http://localhost:" <> show port <> path) × (r.token ≡ token)

-- A request to Plex's own server, with the two values in its address and no header for a key.
abbrev pub IsForPlexTv : String → String → Request → Type 0
IsForPlexTv client_id token r =
    (r.url
      ≡ "https://clients.plex.tv/api/v2/shared_servers?X-Plex-Client-Identifier=" <> client_id
        <> "&X-Plex-Token=" <> token <> "&X-Plex-Language=en")
    × (r.token ≡ ("", ""))

module _ (server : Server) (client : BundleClient) where
  abbrev IsOwn : Request → Type 0
  IsOwn = IsFor client.port client.token

  IsOwn-get : (r : Request) → IsGet server client r → IsOwn r
  IsOwn-get r (url, e) = (url, ap (λ x. x.url) e, ap (λ x. x.token) e)

  IsOwn-post : (url body : String) (r : Request) → r ≡ post_request server client url body → IsOwn r
  IsOwn-post url body r e = (url, ap (λ x. x.url) e, ap (λ x. x.token) e)

  IsOwn-delete : (url : String) (r : Request) → r ≡ delete_request server client url → IsOwn r
  IsOwn-delete url r e = (url, ap (λ x. x.url) e, ap (λ x. x.token) e)

  IsOwn-movie :
      (movies : Radarr.MovieCodec) (input : Radarr.RadarrInput) (r : Request)
      → RadarrLaws.IsAllowed server client movies input r
      → IsOwn r
  IsOwn-movie movies input r (inl g) = IsOwn-get r g
  IsOwn-movie movies (Radarr.lookup term) r (inr c) = absurd c
  IsOwn-movie movies (Radarr.add id quality) r (inr (movie, target, f, z, e)) = IsOwn-post _ _ r e
  IsOwn-movie movies (Radarr.remove id) r (inr (found, movie, f, n, t, e)) = IsOwn-delete _ r e

  IsOwn-series :
      (shows : Sonarr.SeriesCodec) (input : Sonarr.SonarrInput) (r : Request)
      → SonarrLaws.IsAllowed server client shows input r
      → IsOwn r
  IsOwn-series shows input r (inl g) = IsOwn-get r g
  IsOwn-series shows (Sonarr.lookup term) r (inr c) = absurd c
  IsOwn-series shows (Sonarr.add id quality) r (inr (series, target, f, z, e)) = IsOwn-post _ _ r e
  IsOwn-series shows (Sonarr.remove id) r (inr (found, series, f, n, t, e)) = IsOwn-delete _ r e

  IsOwn-torrent :
      {F64 : Type 0} (parse : List ℕ → Result BundleError (List (TorrentInfo F64)))
      (username password : String) (input : QbitInput) (r : Request)
      → QbitLaws.IsAllowed server parse
          (record { client = client; username = username; password = password })
          input
          r
      → IsOwn r
  IsOwn-torrent parse username password input r (inl e) = IsOwn-post _ _ r e
  IsOwn-torrent parse username password list_active r (inr (cookie, l, e)) =
      (_, ap (λ x. x.url) e, ap (λ x. x.token) e)
  IsOwn-torrent parse username password (delete_torrent hash) r (inr (cookie, l, e)) =
      (_, ap (λ x. x.url) e, ap (λ x. x.token) e)

module _ (server : Server) (codec : PlexCodec) (plex : Plex) where
  -- The key of the client goes to this machine, that of the address to Plex's own server.
  abbrev IsForPlex : Request → Type 0
  IsForPlex r =
      IsFor plex.client.port plex.client.token r ⊎ IsForPlexTv plex.client_id plex.plex_token r

  plex_requests : (input : PlexInput) → Sends IsForPlex (Plex.make_call server codec plex input)
  unfolding Plex.make_call
  plex_requests (get_session_history id) =
      Sends-bind _ _ _ (Sends-send _ server _ (inl (_, refl, refl))) (λ response.
        Sends-bind _ _ _ (Sends-lift _ _)
          (λ body. Sends-bind _ _ _ (Sends-lift _ _) (λ _. Sends-lift _ _)))
  plex_requests (refresh_library id) =
      Sends-bind _ _ _ (Sends-send _ server _ (inl (_, refl, refl))) (λ response. Sends-lift _ _)
  plex_requests (grant_lib_access body) = Sends-bind _ _ _ (Sends-guard _ _ _) (λ _.
      Sends-bind _ _ _ (Sends-guard _ _ _) (λ _. Sends-bind _ _ _ (Sends-guard _ _ _) (λ _.
        Sends-bind _ _ _ (Sends-send _ server _ (inr (refl, refl))) (λ response. Sends-lift _ _))))

module _ {F64 : Type 0} (server : Server) (codecs : Codecs F64) (client : BundleClient)
    (config : Config) where
  -- Every request of a call to Radarr, Sonarr or Plex on this machine goes to the configured port of
  -- that server and has its configured key for a header, and no other; a call to qBittorrent goes to
  -- its port with the header that the client had before; and a request to Plex's own server has
  -- Plex's configured key and client in its address and no key for a header.
  pub own_keys_only :
      (movie_input : Radarr.RadarrInput) (show_input : Sonarr.SonarrInput)
      (torrent_input : QbitInput) (plex_input : PlexInput) (h : List Request)
      → let bundle = from_client_with_config client config in
        Adds
          (IsFor config.radarr_port ("X-Api-Key", config.radarr_api_key))
          h
          (movie_call server codecs bundle movie_input h).1
        × Adds
            (IsFor config.sonarr_port ("X-Api-Key", config.sonarr_api_key))
            h
            (series_call server codecs bundle show_input h).1
        × Adds
            (IsFor config.qbit_torrent_port client.token)
            h
            (Qbit.make_call server codecs.torrents bundle.qbit_client torrent_input h).1
        × Adds
            (λ r.
              IsFor config.plex_port ("X-Plex-Token", config.plex_api_key) r
              ⊎ IsForPlexTv config.plex_client_id config.plex_api_key r)
            h
            (Plex.make_call server codecs.plex bundle.plex_client plex_input h).1
  unfolding from_client_with_config
  own_keys_only movie_input show_input torrent_input plex_input h =
      let bundle = from_client_with_config client config in
      let (m, s, t) =
        service_requests server bundle.radarr_client bundle.sonarr_client bundle.qbit_client
          codecs.movie codecs.series codecs.torrents movie_input show_input torrent_input h in
      (
        Adds-map (IsOwn-movie server bundle.radarr_client codecs.movie movie_input) m,
        Adds-map (IsOwn-series server bundle.sonarr_client codecs.series show_input) s,
        Adds-map
            (IsOwn-torrent server bundle.qbit_client.client codecs.torrents
              config.qbit_torrent_username config.qbit_torrent_password torrent_input)
            t,
        (plex_requests server codecs.plex bundle.plex_client plex_input).at h,
      )
