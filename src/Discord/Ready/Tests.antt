-- ===== src/Discord/Ready/Tests.antt =====
-- A guild that has one of two configured channels.
use dookie.Base.{ℕ, String, ◌≡◌, refl, true, false, Option, some, [], ◌∷◌, map}
use dookie.Discord.Handler.{get_create_commands}
use dookie.Discord.Ready.{
  ChannelConfig, GuildConfig, Guild, Answers, create_channel, manage_channels, fetched, ready,
}
use dookie.Discord.Ready.Laws.{asked_for, missing, ready_asks}

abbrev from_name : String → Option ℕ
from_name name = some 1024

abbrev channel : String → ChannelConfig
channel name = record {
  name = name;
  kind = "text";
  topic = "";
  nsfw = false;
  position = 0;
  permissions = [];
}

abbrev config : GuildConfig
config = record { guild_id = 1; channels = channel "general" ∷ channel "leaving" ∷ [] }

abbrev guild : Guild
guild = record { names = "general" ∷ []; commands = []; asked = [] }

abbrev answers : Answers
answers = record { fetches = true; creates = λ name. true; clears = true; sets = true }

-- Where the channels cannot be fetched, the one that is there is asked for again.
abbrev blind : Answers
blind = record answers { fetches = false }

asked_again :
    map (λ c. c.name) (ready from_name blind config (guild, false)).0.asked
    ≡ "leaving" ∷ "general" ∷ []
unfolding ready manage_channels create_channel
asked_again = refl

ready_asks_example :
    ((ready from_name blind config (guild, false)).0.asked
      ≡ asked_for from_name (missing (fetched blind guild) config.channels) guild.asked)
    × ((ready from_name blind config (guild, false)).0.commands ≡ get_create_commands)
    × (ready from_name answers config (ready from_name blind config (guild, false))
        ≡ ready from_name blind config (guild, false))
ready_asks_example = ready_asks from_name blind answers config guild
