-- ===== src/TorrentShutoff/Tests.antt =====
-- A configuration with a token and a guild, and the channels of the guild.
use dookie.Base.{ℕ, String, ◌≡◌, refl, true, some, List, [], ◌∷◌}
use dookie.Base.Result.{ok, err}
use dookie.Config.{Config, default_config}
use dookie.Discord.Ready.{GuildConfig}
use dookie.Media.Tests.{bundle}
use dookie.TorrentShutoff.{
  assign_media_bundle, build, spawn, panicked, spawned, polled, poll, polls, stopped,
  no_admin_channel, start_webhook_listener, run_task,
}
use dookie.TorrentShutoff.Laws.{StartsOnce, TellsAdmins, task_of, bot_runs_once}

abbrev guild : GuildConfig
guild = record { guild_id = 1; channels = [] }

abbrev config : Config
config = record default_config { discord_token = some "t"; guild_config = some guild }

abbrev channels : List (ℕ × String)
channels = (5, "general") ∷ (6, "admin-notifications") ∷ []

starts_then_polls :
    polls 2 (assign_media_bundle bundle (spawn config))
    ≡ spawned (task_of config "t" guild bundle) ∷ polled (task_of config "t" guild bundle) ∷ []
unfolding spawn polls poll build
starts_then_polls = refl

no_guild_panics : (poll (assign_media_bundle bundle (spawn default_config))).0 ≡ panicked
unfolding spawn poll
no_guild_panics = refl

no_admins : start_webhook_listener (ok ((5, "general") ∷ [])) true ≡ err no_admin_channel
unfolding start_webhook_listener
no_admins = refl

bot_runs_once_example :
    StartsOnce config bundle 3 (assign_media_bundle bundle (spawn config))
    × TellsAdmins (ok channels) true (run_task (ok channels) true (some (err stopped))).0
    × ((run_task (ok channels) true (some (err stopped))).1 ≡ err stopped)
bot_runs_once_example = bot_runs_once config bundle 3 (ok channels) true (err stopped)
