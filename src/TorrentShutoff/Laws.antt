-- ===== src/TorrentShutoff/Laws.antt =====
-- That the bot is started once, with the configuration's values, and what its webhook needs.
use mathlib.Core.List.{Memᴰ}
use mathlib.Core.Option.{some-injective}
use dookie.Base.{
  ℕ, zero, suc, String, ◌≡◌, refl, sym, ap, ◌∙◌, ◌⊎◌, inl, inr, Bool, true, false, Option, none,
  some, List, [], ◌∷◌, find, str_eq, eq_iff, Option-cases, arith, if◌then◌else◌,
}
use dookie.Base.Result.{Result, ok, err}
use dookie.Config.{Config}
use dookie.Discord.Ready.{GuildConfig}
use dookie.Media.Bundle.{MediaBundle}
use dookie.TorrentShutoff.{
  build, Task, SpawnedJob, assign_media_bundle, spawn, Polled, panicked, spawned, polled, poll,
  polls, StartError, admin_channel_name, start_webhook_listener, run_task,
}

-- The task that belongs to a configuration.
abbrev pub task_of : Config → String → GuildConfig → MediaBundle → Task
task_of config token guild bundle = record {
  token = token;
  webhook_port = config.webhook_port;
  guild_id = guild.guild_id;
  handler = record {
    permitted_guilds = config.permitted_guilds;
    media_bundle = bundle;
    guild_config = guild;
    has_ready_been_called = false;
  };
}

abbrev pub replicate : ℕ → Polled → List Polled
replicate zero p = []
replicate (suc n) p = p ∷ replicate n p

-- Once the task is there, a poll is a poll of the task.
polls_again :
    (n : ℕ) (job : SpawnedJob) (task : Task)
    → polls n (record job { handle = some task }) ≡ replicate n (polled task)
unfolding polls poll
polls_again zero job task = refl
polls_again (suc n) job task = ap (λ l. polled task ∷ l) (polls_again n job task)

abbrev configured : Config → MediaBundle → Option String → Option GuildConfig → SpawnedJob
configured config bundle token guild = record {
  webhook_port = some config.webhook_port;
  token = token;
  permitted_guilds = config.permitted_guilds;
  media_bundle = some bundle;
  guild_config = guild;
  handle = none;
}

started :
    (config : Config) (bundle : MediaBundle) (token : String) (guild : GuildConfig) (n : ℕ)
    → let task = task_of config token guild bundle in
      polls (suc n) (configured config bundle (some token) (some guild))
      ≡ spawned task ∷ replicate n (polled task)
unfolding polls poll build
started config bundle token guild n =
    ap (λ l. spawned (task_of config token guild bundle) ∷ l)
      (polls_again n
        (record (configured config bundle (some token) (some guild)) {
          webhook_port = none;
          media_bundle = none;
          guild_config = none;
        })
        (task_of config token guild bundle))

no_token :
    (config : Config) (bundle : MediaBundle) (guild : Option GuildConfig)
    → (poll (configured config bundle none guild)).0 ≡ panicked
unfolding poll
no_token config bundle none = refl
no_token config bundle (some guild) = refl

no_guild :
    (config : Config) (bundle : MediaBundle) (token : Option String)
    → (poll (configured config bundle token none)).0 ≡ panicked
unfolding poll
no_guild config bundle token = refl

-- A job with a token and a guild spawns its task at the first poll, and never again; without them the
-- first poll panics.
abbrev pub StartsOnce : Config → MediaBundle → ℕ → SpawnedJob → Type 0
StartsOnce config bundle n job =
    ((token : String) × (guild : GuildConfig) × (config.discord_token ≡ some token)
      × (config.guild_config ≡ some guild)
      × (polls (suc n) job
          ≡ spawned (task_of config token guild bundle)
            ∷ replicate n (polled (task_of config token guild bundle))))
    ⊎ (((config.discord_token ≡ none) ⊎ (config.guild_config ≡ none)) × ((poll job).0 ≡ panicked))

starts_once :
    (config : Config) (bundle : MediaBundle) (n : ℕ)
    → StartsOnce config bundle n (configured config bundle config.discord_token config.guild_config)
starts_once config bundle n = elim (Option-cases config.discord_token) [
  | inl t ↦ inr (
    inl t,
    ap (λ o. (poll (configured config bundle o config.guild_config)).0) t
        ∙ no_token config bundle config.guild_config,
  )
  | inr (token, t) ↦ elim (Option-cases config.guild_config) [
    | inl g ↦ inr (
      inr g,
      ap (λ o. (poll (configured config bundle config.discord_token o)).0) g
          ∙ no_guild config bundle config.discord_token,
    )
    | inr (guild, g) ↦ inl (
      token,
      guild,
      t,
      g,
      ap (λ o. polls (suc n) (configured config bundle o config.guild_config)) t
          ∙ ap (λ o. polls (suc n) (configured config bundle (some token) o)) g
          ∙ started config bundle token guild n,
    )
  ]
]

find_mem :
    (l : List (ℕ × String)) (name : String) (channel : ℕ × String)
    → find (λ c. str_eq c.1 name) l ≡ some channel
    → Memᴰ (channel.0, name) l
find_mem [] name channel h = absurd (ground arith)
find_mem (c ∷ l) name channel h = by_test (str_eq c.1 name) refl (find_mem l name channel) h
  where
    by_test :
        (b : Bool)
        → str_eq c.1 name ≡ b
        → (find (λ c. str_eq c.1 name) l ≡ some channel → Memᴰ (channel.0, name) l)
        → (if b then some c else find (λ c. str_eq c.1 name) l) ≡ some channel
        → Memᴰ (channel.0, name) (c ∷ l)
    by_test true e k h =
        let same = some-injective _ _ h in
        Memᴰ.head (
          ap (λ n. (channel.0, n)) (sym ((eq_iff c.1 name).0 e))
          ∙ ap (λ (x : ℕ × String). (x.0, c.1)) (sym same))
    by_test false e k h = Memᴰ.tail (k h)

-- The webhook has a channel of the guild with the name of the administrators' channel.
abbrev pub TellsAdmins : Result StartError (List (ℕ × String)) → Bool → Option ℕ → Type 0
TellsAdmins channels binds listens =
    (listens ≡ none)
    ⊎ ((id : ℕ) × (found : List (ℕ × String)) × (listens ≡ some id)
        × (channels ≡ ok found)
        × Memᴰ (id, admin_channel_name) found
        × (binds ≡ true))

tells_admins :
    (channels : Result StartError (List (ℕ × String))) (binds : Bool)
    (client : Option (Result StartError (Unit {0})))
    → TellsAdmins channels binds (run_task channels binds client).0
unfolding run_task start_webhook_listener
tells_admins (err e) binds client = inl refl
tells_admins (ok found) binds client =
    elim (Option-cases (find (λ c. str_eq c.1 admin_channel_name) found)) [
      | inl n ↦ inl (rw n)
      | inr (channel, n) ↦ by_bind channel n binds
    ]
  where
    by_bind :
        (channel : ℕ × String)
        → find (λ c. str_eq c.1 admin_channel_name) found ≡ some channel
        → (b : Bool) → TellsAdmins (ok found) b (run_task (ok found) b client).0
    by_bind channel n false = inl (rw n)
    by_bind channel n true =
        inr (channel.0, found, rw n, refl, find_mem found admin_channel_name channel n, refl)

-- A job with a token and a guild in its configuration, polled any number of times, spawns the bot
-- with the configuration's values at the first poll, and from then on only polls it; without a
-- token or a guild its first poll panics. The bot's webhook has no channel, or one of the guild's
-- channels that were fetched, of the name of the administrators' channel, and its port was bound;
-- and what the bot ends with is what its client ends with, whatever became of the webhook.
pub bot_runs_once :
    (config : Config) (bundle : MediaBundle) (n : ℕ)
    (channels : Result StartError (List (ℕ × String))) (binds : Bool)
    (client : Result StartError (Unit {0}))
    → StartsOnce config bundle n (assign_media_bundle bundle (spawn config))
      × TellsAdmins channels binds (run_task channels binds (some client)).0
      × ((run_task channels binds (some client)).1 ≡ client)
unfolding spawn run_task
bot_runs_once config bundle n channels binds client =
    (starts_once config bundle n, tells_admins channels binds (some client), refl)
