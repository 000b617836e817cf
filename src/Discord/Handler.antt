-- ===== src/Discord/Handler.antt =====
-- server/src/discord_bot/discord_bot.rs: `interaction_create`, with the commands' registrations, the help
-- text (commands/mod.rs) and the granting of access (commands/grant_access.rs).
pub mod Access
use dookie.Base.{
  ℕ, String, ◌<>◌, Bool, true, false, not, ◌&&◌, ◌||◌, Option, none, some, List, [], ◌∷◌, ◌++◌, map,
  ◌==◌, str_eq, if◌then◌else◌,
}
use dookie.Base.Result.{Result, ok, err}
use dookie.Media.{BundleError, Server, show}
use dookie.Media.Bundle.{MediaBundle, Codecs, grant_library_access}
use dookie.Discord.{
  ResolvedOption, OptionValue, text, Reply, content, CommandError, email_malformed, access_failed,
  show_error, World, Cmd, ◌>>=◌, ◌>>◌, lift,
}
use dookie.Discord.Medium.{MediaKind, movie, show_kind, noun, app, id_name, search, add, remove}
use dookie.Discord.System.{Host, is_admin_command, run_system}
use dookie.Discord.Text.{take_chars, join_lines}
use dookie.Discord.Torrents

-- A registration: the name, the options' names, the description.
pub record Command : Type 0 where
  pub name : String
  pub options : List String
  pub description : String

abbrev command : String → List String → String → Command
command name options description = record {
  name = name;
  options = options;
  description = description;
}

unfoldable pub register_media : MediaKind → List Command
register_media kind =
    command ("search_" <> noun kind) ("query" ∷ [])
      ("Search for a " <> noun kind <> " and show the top 5 results")
    ∷ command ("add_" <> noun kind) (id_name kind ∷ "quality" ∷ [])
        ("Track and download a " <> noun kind <> " using the id from /search_" <> noun kind)
    ∷ command ("remove_" <> noun kind) (id_name kind ∷ [])
        ("Remove a " <> noun kind <> " from " <> app kind <> " and clean up its files")
    ∷ []

abbrev pub register_qbit : List Command
register_qbit =
    command "torrent_list" [] "List active qBittorrent downloads and uploads"
    ∷ command "torrent_delete" ("hash" ∷ []) "Delete a qBittorrent item and its files from disk"
    ∷ []

abbrev pub register_system : List Command
register_system =
    command "docker_ps" [] "List running Docker containers"
    ∷ command "disk_space" [] "Show available disk space"
    ∷ command "restart_container" ("container_id" ∷ []) "Stop and restart a Docker container"
    ∷ command "restart_services" []
        "Shut down and reopen Plex, Sonarr, Radarr, and Prowlarr on macOS"
    ∷ []

unfoldable pub get_create_commands : List Command
get_create_commands =
    command "grant_access" ("email" ∷ [])
        "Grant user access to libraries access.\nThis command grants access to both libraries."
      ∷ register_media movie
    ++ register_media show_kind
    ++ register_qbit
    ++ register_system
    ++ command "help" [] "Show available bot commands"
      ∷ command "version" [] "Show the current Dookie version"
      ∷ []

abbrev pub usage : List String → String
usage [] = ""
usage (option ∷ options) = " " <> option <> ":<value>" <> usage options

abbrev pub help_line : Command → String
help_line c =
    "`/"
    <> c.name
    <> usage c.options
    <> "` — "
    <> c.description
    <> (if is_admin_command c.name then " (admin only)" else "")

-- The commands that a caller is shown.
unfoldable pub shown_commands : Bool → List Command → List Command
shown_commands is_admin [] = []
shown_commands is_admin (c ∷ commands) =
    let rest = shown_commands is_admin commands in
    if is_admin_command c.name && not is_admin then rest else c ∷ rest

unfoldable pub help : Bool → String
help is_admin =
    join_lines ("Available commands:" ∷ map help_line (shown_commands is_admin get_create_commands))

-- A slash command as it arrives: where from, whether the member's permissions came and include
-- `ADMINISTRATOR`, and whether Discord takes the first answer.
pub record Interaction : Type 0 where
  pub guild_id : Option ℕ
  pub administrator : Option Bool
  pub name : String
  pub options : List ResolvedOption
  pub takes_answer : Bool

abbrev pub in_guild : ℕ → Option ℕ → Bool
in_guild guild none = false
in_guild guild (some id) = id == guild

abbrev pub is_some_true : Option Bool → Bool
is_some_true none = false
is_some_true (some b) = b

-- What the user sees: the refusal; nothing; or the deferred answer, to all or to the user only.
pub data Shown : Type 0 where
  refused : Shown
  nothing_shown : Shown
  answered : Bool → Reply → Shown

module _ {F64 : Type 0} (display : BundleError → String) (percent : F64 → String) (server : Server)
    (codecs : Codecs F64) (bundle : MediaBundle) (host : Host) (guild : ℕ)
    (pkg_version : String) where
  abbrev pub access_result : Result BundleError ℕ → Result CommandError Reply
  access_result (ok code) =
      if code == 200 || code == 201
      then ok (content "Success")
      else err (access_failed ("Unexpected status code: " <> show code))
  access_result (err e) = err (access_failed ("Request failed: " <> display e))

  -- `grant_access::run`, which reads the first option whatever its name
  unfoldable pub grant_access_run : List ResolvedOption → Cmd Reply
  grant_access_run [] w = (err email_malformed, w)
  grant_access_run (option ∷ _) w = elim option.value [
    | text email ↦
        let (r, sent) = grant_library_access server codecs bundle email w.sent in
        (access_result r, record w { sent = sent })
    | _ ↦ (err email_malformed, w)
  ]

  unfoldable pub is_admin_caller : Interaction → Bool
  is_admin_caller i = in_guild guild i.guild_id && is_some_true i.administrator

  unfoldable pub run_command : Bool → String → List ResolvedOption → Cmd Reply
  run_command is_admin name options =
      if str_eq name "docker_ps"
        || str_eq name "disk_space"
        || str_eq name "restart_container"
        || str_eq name "restart_services"
      then run_system host name options
      else if str_eq name "torrent_list"
      then Torrents.list percent display server codecs bundle
      else if str_eq name "torrent_delete"
      then Torrents.delete percent display server codecs bundle options
      else if str_eq name "help"
      then lift (ok (content (help is_admin)))
      else if str_eq name "version"
      then lift (ok (content ("Dookie version " <> pkg_version)))
      else if str_eq name "grant_access"
      then grant_access_run options
      else if str_eq name "search_movie"
      then search display server codecs bundle movie options
      else if str_eq name "add_movie"
      then add display server codecs bundle movie options
      else if str_eq name "remove_movie"
      then remove display server codecs bundle movie options
      else if str_eq name "search_show"
      then search display server codecs bundle show_kind options
      else if str_eq name "add_show"
      then add display server codecs bundle show_kind options
      else if str_eq name "remove_show"
      then remove display server codecs bundle show_kind options
      else lift (ok (content ("Unknown command " <> name)))

  abbrev pub reply_of : String → Result CommandError Reply → Reply
  reply_of name (ok reply) = reply
  reply_of name (err why) = content (take_chars 1900 ("/" <> name <> " failed: " <> show_error why))

  unfoldable pub interaction_create : Interaction → World → Shown × World
  interaction_create i w =
      let is_admin = is_admin_caller i in
      let admin_command = is_admin_command i.name in
      let (r, w') = run_command is_admin i.name i.options w in
      if admin_command && not is_admin
      then (refused, w)
      else if not i.takes_answer
      then (nothing_shown, w)
      else (answered (admin_command || str_eq i.name "help") (reply_of i.name r), w')
