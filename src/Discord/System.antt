-- ===== src/Discord/System.antt =====
-- server/src/discord_bot/commands/system.rs: Docker, the disk and the restart of the services.
use Prim.Native.Char.{code}
use dookie.Base.{
  ℕ, suc, zero, String, ◌<>◌, Bool, true, false, not, ◌&&◌, ◌||◌, Option, none, some, List, [], ◌∷◌,
  leb, ◌==◌, str_eq, if◌then◌else◌,
}
use dookie.Base.Trim.{trim}
use dookie.Base.Result.{Result, ok, err, ok_or}
use dookie.Discord.{
  ResolvedOption, Reply, content, CommandError, system_error, Output, CommandLine, World, Cmd,
  ◌>>=◌, ◌>>◌, lift, text_option,
}
use dookie.Discord.Text.{take_chars, utf16_count, contains, all_chars, is_alphanumeric, join_lines}

unfoldable pub is_admin_command : String → Bool
is_admin_command name =
    str_eq name "docker_ps"
    || str_eq name "disk_space"
    || str_eq name "restart_container"
    || str_eq name "restart_services"
    || str_eq name "torrent_list"
    || str_eq name "torrent_delete"

abbrev is_container_char : ℕ → Bool
is_container_char c = is_alphanumeric c || c == 95 || c == 46 || c == 45

-- A first letter or digit, so that no flag passes, and one target only.
unfoldable pub valid_container : String → Bool
valid_container String.[] = false
valid_container (String.◌∷◌ c s) =
    is_alphanumeric (code c) && all_chars is_container_char (String.◌∷◌ c s)

-- What a process answers after those that ran before it; an error where it cannot start or takes
-- more than 90 seconds.
abbrev pub Shell : Type 0
Shell = List CommandLine → CommandLine → Result String Output

-- The rest of the outside: the system, the app bundles, how long an app may take to end.
pub record Host : Type 0 where
  pub shell : Shell
  pub is_macos : Bool
  pub bundle_exists : String → Result String Bool
  pub show_status : Option ℕ → String
  pub polls : ℕ

abbrev pub is_ok : Output → Bool
is_ok output = elim output.code [ some zero ↦ true | _ ↦ false ]

abbrev pub is_one : Output → Bool
is_one output = elim output.code [ some code ↦ code == 1 | none ↦ false ]

module _ (host : Host) where
  unfoldable pub execute : String → List String → Cmd Output
  execute program args w =
      let r = host.shell w.run (program, args) in
      let w' = record w { run = (program, args) ∷ w.run } in
      elim r [ ok output ↦ (ok output, w') | err e ↦ (err (system_error e), w') ]

  unfoldable pub checked_output : String → Output → Cmd String
  checked_output program output w = if is_ok output then (ok output.stdout, w) else (
    err (
        system_error
          (program <> " failed (" <> host.show_status output.code <> "): " <> trim output.stderr)),
    w,
  )

  -- A listing in the message if it fits and cannot break out of its block, else attached.
  abbrev pub listing : ℕ → String → String → String → String → Reply
  listing limit title attached file output =
      if leb (utf16_count output) limit && not (contains output "```")
      then content (title <> ":\n```text\n" <> output <> "\n```")
      else record { content = attached; attachment = some (output, file); embeds = [] }

  abbrev pub app_path : String → String
  app_path app = "/Applications/" <> app <> ".app"

  abbrev pub app_pattern : String → String
  app_pattern app = "^/Applications/" <> app <> "\\.app/Contents/MacOS/" <> app <> "([[:space:]]|$)"

  -- Polling until the app has ended, for as many polls as fit into 30 seconds.
  unfoldable pub wait_for_end : ℕ → String → Cmd (Unit {0})
  wait_for_end zero app =
      lift (
        err (system_error "App did not shut down within 30 seconds; not opening another instance."))
  wait_for_end (suc polls) app = do
    running ← execute "pgrep" ("-f" ∷ app_pattern app ∷ [])
    elim (is_one running) [
      | true ↦ lift (ok tt)
      | false ↦ checked_output "pgrep" running >>= λ _. wait_for_end polls app
    ]

  abbrev pub bundle_of : String → Cmd Bool
  bundle_of app w = elim (host.bundle_exists (app_path app)) [
    | ok b ↦ (ok b, w)
    | err e ↦ (err (system_error e), w)
  ]

  abbrev pub stop_app : String → Output → Cmd (Unit {0})
  stop_app app stopped =
      if is_ok stopped || is_one stopped
      then lift (ok tt)
      else (checked_output "pkill" stopped >> lift (ok tt))

  unfoldable pub restart_app : String → Cmd (Unit {0})
  restart_app app = do
    exists ← bundle_of app
    if not exists then lift (err (system_error ("App bundle not found: " <> app_path app))) else do
      stopped ← execute "pkill" ("-TERM" ∷ "-f" ∷ app_pattern app ∷ [])
      stop_app app stopped
      wait_for_end host.polls app
      opened ← execute "open" (app_path app ∷ [])
      checked_output "open" opened
      lift (ok tt)

  abbrev pub restart_result : String → Result CommandError (Unit {0}) → String
  restart_result app (ok _) = app <> ": shutdown complete; app reopened."
  restart_result app (err (system_error e)) = app <> ": " <> take_chars 300 e
  restart_result app (err e) = app <> ": "

  unfoldable pub restart_apps : List String → World → List String × World
  restart_apps [] w = ([], w)
  restart_apps (app ∷ apps) w =
      let (r, w') = restart_app app w in
      let (results, w'') = restart_apps apps w' in (restart_result app r ∷ results, w'')

  abbrev pub kept_container : Option String → Option String
  kept_container none = none
  kept_container (some value) = if valid_container value then some value else none

  unfoldable pub docker_ps : Cmd Reply
  docker_ps = do
    output ← execute "docker" ("container" ∷ "ls" ∷ [])
    stdout ← checked_output "docker" output
    lift (
        ok (
          listing 1700 "Running Docker containers"
            "Running Docker containers (full listing attached):" "containers.txt" stdout))

  unfoldable pub disk_space : Cmd Reply
  disk_space = do
    output ← execute "df" ("-h" ∷ [])
    stdout ← checked_output "df" output
    lift (
        ok
          (listing 1900 "Disk space" "Disk space (full listing attached):" "disk-space.txt" stdout))

  unfoldable pub restart_named : String → Cmd Reply
  restart_named container = do
    output ← execute "docker" ("container" ∷ "restart" ∷ container ∷ [])
    checked_output "docker" output
    lift (ok (content ("Restarted container `" <> container <> "`.")))

  unfoldable pub restart_container : List ResolvedOption → Cmd Reply
  restart_container options = do
    container ← lift (
        ok_or (kept_container (text_option "container_id" options))
          (system_error "Provide one valid container ID or name (not a Docker flag)."))
    restart_named container

  unfoldable pub restart_services : Cmd Reply
  restart_services w =
      let (results, w') =
        restart_apps ("Plex Media Server" ∷ "Sonarr" ∷ "Radarr" ∷ "Prowlarr" ∷ []) w in
      if host.is_macos
      then (ok (content (join_lines results)), w')
      else (err (system_error "Service restarts require macOS and /Applications app bundles."), w)

  -- `system::run`, the match on the name
  unfoldable pub run_system : String → List ResolvedOption → Cmd Reply
  run_system name options =
      if str_eq name "docker_ps"
      then docker_ps
      else if str_eq name "disk_space"
      then disk_space
      else if str_eq name "restart_container"
      then restart_container options
      else if str_eq name "restart_services"
      then restart_services
      else lift (err (system_error "Unknown system command"))
