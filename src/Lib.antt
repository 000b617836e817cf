-- ===== src/Lib.antt =====
-- Verification of the core of dookie: a server that moves media between drives, drives Radarr, Sonarr,
-- qBittorrent and Plex, takes commands from Discord, and updates itself.
--
-- Parts and files:
--  - Base: the names that all files share; tests on numbers, lists over the native numbers, `Result`,
--    `str::trim`.
--  - Disk: the file system that the program calls, a map from paths to nodes. Every call has a number
--    and may fail for a reason of the environment; a failing call changes nothing. Paths are lists of
--    components. `remove_dir_all` that fails removes nothing in the model; the system's own may remove
--    a part first.
--  - Update: server/src/update.rs. Release (`newer_version`, `asset_url`), Download (`read_response`),
--    Archive (`from_archive`), Check (`check_for_update`, which calls those three), Install (`install`,
--    `rollback`, `exec`, the `Drop` of the guard, and their call in server/src/main.rs), Schedule
--    (`wait_for_update`, `preflight`, the time of a retry). SHA-256, gzip, tar, the order of
--    versions, HTTP and JSON are parameters. Steps has the rules for its `do` blocks.
--  - MoveJob: server/src/lib.rs, `move_job`. MoveDir is `move_dir`: the source is a tree, the
--    destination a disk. The two tasks of the job, the front desk and the worker, are the function
--    `step` on one state with their channels and the flag `is_moving`; Reached are its runs.
--    Scan is the listing by which a scan chooses what it moves.
--  - ScanJob: server/src/lib.rs, `scan_library_job`: the check of the links, the debounce of the watched
--    events, the refresh. Watch is the watchers that send the events.
--  - Media: server/src/client.rs and server/src/media_bundle/. A server answers a request from the
--    requests before it, and what the program does is the list of requests that it sends. Client
--    (`BundleClient`), Arr (`arr_util`), Radarr, Sonarr, Qbit, Plex, Bundle (`MediaBundle`, with the
--    removal of a medium's files). Sends has the rules for which requests a block sends.
--    Calls states the laws of the services beside each other.
--  - Config: server/src/config.rs, and Clients, `MediaBundle::from_client_with_config`, with which key
--    goes to which server.
--  - Logging: server/src/logging.rs, the removal of old log files, on the disk of Disk.
--  - Discord: server/src/discord_bot/. System, Torrents, Medium (commands/system.rs, qbit.rs, media.rs),
--    Handler (`interaction_create`, the registrations, `help`, `grant_access`). A command changes the
--    disk, the requests sent and the list of command lines run.
--    Webhook (what Plex tells of) and Ready (the channels and commands at the start of the bot) are
--    discord_bot.rs beside the handler.
--  - TorrentShutoff: server/src/lib.rs, `auto_torrent_shutoff_job`, which starts the bot and its webhook.
--  - Cli: one exchange of cli_client/src/main.rs with the loop of server/src/listener.rs. The generated
--    protocol is a parameter, and what the front desk answers is an argument.
--  - Socket: server/src/listener.rs, `bind_cli_socket`: the lock, the checks for a stale socket, the
--    record of the new one. Every call may fail; what others do at the path between the looks is an
--    argument. Identity is the record, Single the instances that start and end one after the other.
--  - Main: server/src/main.rs, `main` up to the claim of the socket in `run`, and the branch of the
--    `select!` in `run` that stops the move job and installs an update, which joins Update and MoveJob.
--
-- Bounds and fuel: `show` prints the twenty digits that a `u64` can have; `wait_for_end` polls as
-- often as `Host.polls` says, which stands for the 30 seconds of the program, after which it gives
-- up as the program does. `wait_for_update` runs as many rounds as its fuel says, a day apart, in
-- which no time passes; fuel for the rounds up to one that takes an update is enough. All other
-- loops are structural. The remaining seconds of the move job are a difference of `u64`s that
-- wraps, as in a release build.
--
-- Not modelled: which of the jobs ends first in the `select!` of server/src/main.rs, the library that
-- watches the file system, the clients of Discord and the HTTP server of the webhook, the reading of
-- the configuration, the log itself, `bundle_util` of server/src/media_bundle/mod.rs, which nothing
-- calls. The free share of a disk is a ratio of reals in place of an `f64`; a torrent's progress is a
-- parameter with its print.
pub mod Base
pub mod Disk
pub mod Update
pub mod MoveJob
pub mod Logging
pub mod Media
pub mod Config
pub mod Discord
pub mod TorrentShutoff
pub mod Cli
pub mod Socket
pub mod ScanJob
pub mod Main
