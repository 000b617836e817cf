-- ===== src/Config.antt =====
-- server/src/config.rs: the configuration. Its reading is serde's and a parameter where it is used.
pub mod Clients
pub mod Keys
mod Tests
use dookie.Base.{ℕ, String, Option, none, some, List, []}
use dookie.Discord.Ready.{GuildConfig}

abbrev pub default_webhook_port : ℕ
default_webhook_port = 1025

-- The pairs of `move_map` stand in the order in which the map is iterated.
pub record Config : Type 0 where
  pub config_path : String
  pub log_path : String
  pub radarr_port : ℕ
  pub sonarr_port : ℕ
  pub prowlarr_port : ℕ
  pub plex_port : ℕ
  pub webhook_port : ℕ
  pub qbit_torrent_port : ℕ
  pub qbit_torrent_username : String
  pub qbit_torrent_password : String
  pub radarr_api_key : String
  pub sonarr_api_key : String
  pub prowlarr_api_key : String
  pub qbit_torrent_api_key : String
  pub plex_api_key : String
  pub plex_client_id : String
  pub plex_machine_id : String
  pub move_job_period : ℕ
  pub age_threshold : ℕ
  pub discord_token : Option String
  pub permitted_guilds : List ℕ
  pub move_map : List (String × String)
  pub guild_config : Option GuildConfig

-- `Config::default`
abbrev pub default_config : Config
default_config = record {
  config_path = ".";
  log_path = "/~/Library/Logs/dookie";
  radarr_port = 7878;
  sonarr_port = 8989;
  prowlarr_port = 8888;
  plex_port = 32400;
  webhook_port = default_webhook_port;
  qbit_torrent_port = 9090;
  qbit_torrent_username = "";
  qbit_torrent_password = "";
  radarr_api_key = "";
  sonarr_api_key = "";
  prowlarr_api_key = "";
  qbit_torrent_api_key = "";
  plex_api_key = "";
  plex_client_id = "";
  plex_machine_id = "";
  move_job_period = 100;
  age_threshold = 100;
  discord_token = some "";
  permitted_guilds = [];
  move_map = [];
  guild_config = none;
}
