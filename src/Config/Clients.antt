-- ===== src/Config/Clients.antt =====
-- server/src/media_bundle/mod.rs, `MediaBundle::from_client_with_config`: the clients of the servers.
use dookie.Base.{String, List, map}
use dookie.Disk.{FilePath}
use dookie.Media.Bundle.{MediaBundle, components_from}
use dookie.Media.Client.{BundleClient, set_port, set_token}
use dookie.Config.{Config}

abbrev pub roots_of : List (String × String) → List (FilePath × FilePath)
roots_of = map (λ m. (components_from "" m.0, components_from "" m.1))

unfoldable pub from_client_with_config : BundleClient → Config → MediaBundle
from_client_with_config client config = record {
  plex_client = record {
    client = set_token ("X-Plex-Token", config.plex_api_key) (set_port config.plex_port client);
    machine_id = config.plex_machine_id;
    client_id = config.plex_client_id;
    plex_token = config.plex_api_key;
  };
  radarr_client =
      set_token ("X-Api-Key", config.radarr_api_key) (set_port config.radarr_port client);
  sonarr_client =
      set_token ("X-Api-Key", config.sonarr_api_key) (set_port config.sonarr_port client);
  qbit_client = record {
    client = set_port config.qbit_torrent_port client;
    username = config.qbit_torrent_username;
    password = config.qbit_torrent_password;
  };
  move_map = roots_of config.move_map;
}
