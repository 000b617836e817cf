-- ===== src/Discord/Tests.antt =====
-- Commands at concrete callers, and the theorems at them.
use dookie.Base.{String, ◌≡◌, ◌⊎◌, true, false, none, some, List, [], ◌∷◌}
use dookie.Base.Result.{ok, err}
use dookie.Media.{BundleError, Server}
use dookie.Media.Arr.{ArrCodec}
use dookie.Media.Bundle.{MediaBundle, Codecs, delete_qbit_torrent}
use dookie.Media.Client.{BundleClient}
use dookie.Discord.{ResolvedOption, text, World, request, text_option}
use dookie.Discord.Guards.{arguments_checked}
use dookie.Discord.Handler.{Interaction, is_admin_caller, interaction_create}
use dookie.Discord.Handler.Access.{processes_need_admin}
use dookie.Discord.System.{Host, valid_container, restart_container}
use dookie.Discord.Torrents.{valid_hash, delete}

abbrev client : BundleClient
client = record { port = 8080; token = ("", ""); cookie = "" }

abbrev server : Server
server sent r = ok (record { status = 200; cookie = some "SID=1"; body = ok [] })

abbrev arr : ArrCodec
arr = record {
  with_query = λ path key value. ok path;
  profiles = λ bytes. ok [];
  folders = λ bytes. ok [];
}

abbrev codecs : Codecs (Unit {0})
codecs = record {
  movie = record {
    arr = arr;
    parse_list = λ bytes. ok [];
    parse_one = λ bytes. err BundleError.decode;
    to_json = λ movie. movie.title;
  };
  series = record {
    arr = arr;
    parse_list = λ bytes. ok [];
    parse_one = λ bytes. err BundleError.decode;
    to_json = λ s. s.title;
  };
  torrents = λ bytes. ok [];
  plex = record { history = λ bytes. ok tt; to_json = λ body. body.invited_email };
}

abbrev bundle : MediaBundle
bundle = record {
  plex_client = record { client = client; machine_id = "m"; client_id = "c"; plex_token = "t" };
  radarr_client = client;
  sonarr_client = client;
  qbit_client = record { client = client; username = "u"; password = "p" };
  move_map = [];
}

-- Every process ends with 0.
abbrev host : Host
host = record {
  shell = λ before line. ok (record { code = some 0; stdout = ""; stderr = "" });
  is_macos = true;
  bundle_exists = λ path. ok true;
  show_status = λ code. "exit status";
  polls = 120;
}

abbrev world : World
world = record {
  disk = record { fs = λ p. none; fails = λ n. false; calls = 0 };
  sent = [];
  run = [];
}

abbrev options : List ResolvedOption
options =
    record { name = "container_id"; value = text "plex" }
    ∷ record { name = "hash"; value = text "0123456789abcdef0123456789abcdef01234567" }
    ∷ []

-- A member of another guild asks for a restart.
abbrev stranger : Interaction
stranger = record {
  guild_id = some 2;
  administrator = some true;
  name = "restart_container";
  options = options;
  takes_answer = true;
}

abbrev display : BundleError → String
display e = "error"

abbrev percent : Unit {0} → String
percent u = "0.0"

processes_need_admin_example :
    ((interaction_create display percent server codecs bundle host 1 "0.1.0" stranger world).1.run
      ≡ [])
    ⊎ (is_admin_caller display percent server codecs bundle host 1 "0.1.0" stranger ≡ true)
processes_need_admin_example =
    processes_need_admin display percent server codecs bundle host 1 "0.1.0" stranger world

arguments_checked_example :
    (((restart_container host options world).1.run ≡ [])
      ⊎ ((container : String) × (text_option "container_id" options ≡ some container)
          × (valid_container container ≡ true)
          × ((restart_container host options world).1.run
              ≡ ("docker", "container" ∷ "restart" ∷ container ∷ []) ∷ [])))
    × (((delete percent display server codecs bundle options world).1 ≡ world)
        ⊎ ((hash : String) × (text_option "hash" options ≡ some hash)
            × (valid_hash hash ≡ true)
            × ((delete percent display server codecs bundle options world).1
                ≡ (request display (delete_qbit_torrent server codecs bundle hash) world).1)))
arguments_checked_example =
    arguments_checked percent display server codecs bundle host options world
