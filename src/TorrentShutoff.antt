-- ===== src/TorrentShutoff.antt =====
-- server/src/lib.rs, module `auto_torrent_shutoff_job`, which starts the Discord bot and its webhook, with
-- the builder and the start of the webhook in server/src/discord_bot/discord_bot.rs. The clients of
-- Discord are another crate's, and what they answer is an argument.
pub mod Laws
mod Tests
use dookie.Base.{
  ℕ, zero, suc, String, Bool, true, false, Option, none, some, List, [], ◌∷◌, find, str_eq,
  if◌then◌else◌,
}
use dookie.Base.Result.{Result, ok, err, ok_or, ◌>>=◌}
use dookie.Config.{Config}
use dookie.Discord.Ready.{GuildConfig}
use dookie.Media.Bundle.{MediaBundle}

pub record DiscordHandler : Type 0 where
  pub permitted_guilds : List ℕ
  pub media_bundle : MediaBundle
  pub guild_config : GuildConfig
  pub has_ready_been_called : Bool

pub record DiscordHandlerBuilder : Type 0 where
  pub permitted_guilds : List ℕ
  pub media_bundle : Option MediaBundle
  pub guild_config : Option GuildConfig
  pub has_ready_been_called : Bool

abbrev pub default_builder : DiscordHandlerBuilder
default_builder = record {
  permitted_guilds = [];
  media_bundle = none;
  guild_config = none;
  has_ready_been_called = false;
}

abbrev pub set_permitted_guilds : List ℕ → DiscordHandlerBuilder → DiscordHandlerBuilder
set_permitted_guilds guilds b = record b { permitted_guilds = guilds }

abbrev pub set_media_bundle : MediaBundle → DiscordHandlerBuilder → DiscordHandlerBuilder
set_media_bundle bundle b = record b { media_bundle = some bundle }

abbrev pub set_guild_config : GuildConfig → DiscordHandlerBuilder → DiscordHandlerBuilder
set_guild_config config b = record b { guild_config = some config }

-- None is the panic of an `unwrap`. The set of the guilds is the list that it is made from.
abbrev build_with :
    DiscordHandlerBuilder → Option MediaBundle → Option GuildConfig → Option DiscordHandler
build_with b (some bundle) (some config) = some (record {
  permitted_guilds = b.permitted_guilds;
  media_bundle = bundle;
  guild_config = config;
  has_ready_been_called = b.has_ready_been_called;
})
build_with b _ _ = none

unfoldable pub build : DiscordHandlerBuilder → Option DiscordHandler
build b = build_with b b.media_bundle b.guild_config

-- What the spawned task holds.
pub record Task : Type 0 where
  pub token : String
  pub webhook_port : ℕ
  pub guild_id : ℕ
  pub handler : DiscordHandler

pub record SpawnedJob : Type 0 where
  pub webhook_port : Option ℕ
  pub token : Option String
  pub permitted_guilds : List ℕ
  pub media_bundle : Option MediaBundle
  pub guild_config : Option GuildConfig
  pub handle : Option Task

abbrev pub assign_media_bundle : MediaBundle → SpawnedJob → SpawnedJob
assign_media_bundle bundle job = record job { media_bundle = some bundle }

abbrev pub assign_config : Config → SpawnedJob → SpawnedJob
assign_config config job = record job {
  webhook_port = some config.webhook_port;
  permitted_guilds = config.permitted_guilds;
  token = config.discord_token;
  guild_config = config.guild_config;
}

-- `spawn_`
unfoldable pub spawn : Config → SpawnedJob
spawn config = assign_config config (record {
  webhook_port = none;
  token = none;
  permitted_guilds = [];
  media_bundle = none;
  guild_config = none;
  handle = none;
})

-- What a poll comes to: a panic, the spawned task's first poll, a later one.
pub data Polled : Type 0 where
  panicked : Polled
  spawned : Task → Polled
  polled : Task → Polled

-- The first poll takes the fields but the guilds and the token.
abbrev pub taken : SpawnedJob → SpawnedJob
taken job = record job { webhook_port = none; media_bundle = none; guild_config = none }

abbrev pub spawn_task :
    ℕ → GuildConfig → String → Option DiscordHandler → SpawnedJob → Polled × SpawnedJob
spawn_task port config token none job = (panicked, job)
spawn_task port config token (some handler) job =
    let task : Task = record {
      token = token;
      webhook_port = port;
      guild_id = config.guild_id;
      handler = handler;
    } in
    (spawned task, record job { handle = some task })

abbrev pub first_poll :
    Option MediaBundle
    → Option ℕ
    → Option GuildConfig
    → Option String
    → SpawnedJob
    → Polled × SpawnedJob
first_poll (some bundle) (some port) (some config) (some token) job =
    spawn_task port config token
      (build (
        set_media_bundle bundle
          (set_guild_config config (set_permitted_guilds job.permitted_guilds default_builder))))
      (taken job)
first_poll _ _ _ _ job = (panicked, taken job)

unfoldable pub poll : SpawnedJob → Polled × SpawnedJob
poll job = elim job.handle [
  | some task ↦ (polled task, job)
  | none ↦ first_poll job.media_bundle job.webhook_port job.guild_config job.token job
]

-- The polls of a job one after the other.
unfoldable pub polls : ℕ → SpawnedJob → List Polled
polls zero job = []
polls (suc n) job = let (p, job') = poll job in p ∷ polls n job'

pub data StartError : Type 0 where
  no_channels no_admin_channel not_bound no_client stopped : StartError

abbrev pub admin_channel_name : String
admin_channel_name = "admin-notifications"

-- `start_webhook_listener`: the channel to which the webhook tells of its events.
unfoldable pub start_webhook_listener :
    Result StartError (List (ℕ × String)) → Bool → Result StartError ℕ
start_webhook_listener channels binds = do
  found ← channels
  admin ← ok_or (find (λ channel. str_eq channel.1 admin_channel_name) found) no_admin_channel
  if binds then ok admin.0 else err not_bound

abbrev pub listening : Result StartError ℕ → Option ℕ
listening (ok channel) = some channel
listening (err _) = none

-- The task: the webhook, which may fail to start, then the client until it ends; no client is a panic.
unfoldable pub run_task :
    Result StartError (List (ℕ × String))
    → Bool
    → Option (Result StartError (Unit {0}))
    → Option ℕ × Result StartError (Unit {0})
run_task channels binds client = (
  listening (start_webhook_listener channels binds),
  elim client [ none ↦ err no_client | some ended ↦ ended ],
)
