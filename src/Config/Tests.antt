-- ===== src/Config/Tests.antt =====
-- The clients of a configuration with a key for each server.
use dookie.Base.{◌≡◌, refl, ◌⊎◌, [], ◌∷◌}
use dookie.Config.{Config, default_config}
use dookie.Config.Clients.{from_client_with_config}
use dookie.Config.Keys.{IsFor, IsForPlexTv, own_keys_only}
use dookie.Media.Arr.{hd1080p}
use dookie.Media.Bundle.{MediaBundle, movie_call, series_call}
use dookie.Media.Client.{from_port}
use dookie.Media.Plex.{grant_access}
use dookie.Media.Plex
use dookie.Media.Qbit.{list_active}
use dookie.Media.Qbit
use dookie.Media.Radarr
use dookie.Media.Sends.{Adds}
use dookie.Media.Sonarr
use dookie.Media.Tests.{server, codecs}

abbrev config : Config
config = record default_config {
  radarr_api_key = "r";
  sonarr_api_key = "s";
  plex_api_key = "p";
  plex_client_id = "c";
  plex_machine_id = "m";
  move_map = ("/local/movies", "/das/movies") ∷ [];
}

abbrev bundle : MediaBundle
bundle = from_client_with_config (from_port 0) config

-- qBittorrent is sent a header without a name.
no_key : bundle.qbit_client.client.token ≡ ("", "")
unfolding from_client_with_config
no_key = refl

own_keys_only_example :
    Adds
      (IsFor 7878 ("X-Api-Key", "r"))
      []
      (movie_call server codecs bundle (Radarr.add 42 hd1080p) []).1
    × Adds
        (IsFor 8989 ("X-Api-Key", "s"))
        []
        (series_call server codecs bundle (Sonarr.remove 42) []).1
    × Adds
        (IsFor 9090 ("", ""))
        []
        (Qbit.make_call server codecs.torrents bundle.qbit_client list_active []).1
    × Adds
        (λ r. IsFor 32400 ("X-Plex-Token", "p") r ⊎ IsForPlexTv "c" "p" r)
        []
        (Plex.make_call server codecs.plex bundle.plex_client (grant_access "a@b" "m") []).1
own_keys_only_example =
    own_keys_only server codecs (from_port 0) config (Radarr.add 42 hd1080p) (Sonarr.remove 42)
      list_active (grant_access "a@b" "m") []
