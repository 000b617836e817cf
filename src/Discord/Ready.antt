-- ===== src/Discord/Ready.antt =====
-- server/src/discord_bot/discord_bot.rs: `ready`, which makes the channels of the configuration and
-- registers the commands. The guild is Discord's; which of its calls fail is an argument.
pub mod Laws
mod Tests
use Prim.Native.Nat.{bit_or}
use dookie.Base.{
  ℕ, ◌%◌, String, Bool, true, false, Option, none, some, List, [], ◌∷◌, map, ◌||◌, str_eq,
  if◌then◌else◌,
}
use dookie.Discord.Handler.{Command, get_create_commands}

pub record ChannelPermission : Type 0 where
  pub role_id : ℕ
  pub allow : List String
  pub deny : List String

pub record ChannelConfig : Type 0 where
  pub name : String
  pub kind : String
  pub topic : String
  pub nsfw : Bool
  pub position : ℕ
  pub permissions : List ChannelPermission

pub record GuildConfig : Type 0 where
  pub guild_id : ℕ
  pub channels : List ChannelConfig

pub data ChannelType : Type 0 where
  text_channel voice_channel : ChannelType

pub record PermissionOverwrite : Type 0 where
  pub allow : ℕ
  pub deny : ℕ
  pub role_id : ℕ

pub record CreateChannel : Type 0 where
  pub name : String
  pub kind : ChannelType
  pub topic : String
  pub nsfw : Bool
  pub position : ℕ
  pub permissions : List PermissionOverwrite

-- The channels by their names, the commands, and the channels asked for, the last first.
pub record Guild : Type 0 where
  pub names : List String
  pub commands : List Command
  pub asked : List CreateChannel

-- Which calls Discord does: the fetch of the channels, the creation of a channel, the two settings
-- of the commands.
pub record Answers : Type 0 where
  pub fetches : Bool
  pub creates : String → Bool
  pub clears : Bool
  pub sets : Bool

abbrev pub union : Option ℕ → ℕ → ℕ
union none flags = flags
union (some flag) flags = bit_or flags flag

abbrev pub channel_kind : String → ChannelType
channel_kind kind =
    if str_eq kind "text"
    then text_channel
    else if str_eq kind "voice"
    then voice_channel
    else text_channel

abbrev pub is_existing : List String → String → Bool
is_existing [] wanted = false
is_existing (name ∷ names) wanted = str_eq name wanted || is_existing names wanted

abbrev pub fetched : Answers → Guild → List String
fetched answers guild = if answers.fetches then guild.names else []

abbrev pub set_commands : Bool → List Command → Guild → Guild
set_commands done commands guild = if done then record guild { commands = commands } else guild

-- `Permissions::from_name` is a parameter. The numbers of roles are not 0, which `RoleId::new` refuses.
module _ (from_name : String → Option ℕ) where
  abbrev pub permissions_of : ℕ → List String → ℕ
  permissions_of flags [] = flags
  permissions_of flags (name ∷ names) = permissions_of (union (from_name name) flags) names

  abbrev pub overwrite : ChannelPermission → PermissionOverwrite
  overwrite p = record {
    allow = permissions_of 0 p.allow;
    deny = permissions_of 0 p.deny;
    role_id = p.role_id;
  }

  unfoldable pub create_channel : ChannelConfig → CreateChannel
  create_channel config = record {
    name = config.name;
    kind = channel_kind config.kind;
    topic = config.topic;
    nsfw = config.nsfw;
    position = config.position % 65536;
    permissions = map overwrite config.permissions;
  }

  abbrev pub create : Answers → ChannelConfig → Guild → Guild
  create answers config guild = record guild {
    names = if answers.creates config.name then config.name ∷ guild.names else guild.names;
    asked = create_channel config ∷ guild.asked;
  }

  -- The loop over the configuration, with the names that were fetched before it.
  unfoldable pub manage_channels : Answers → List String → List ChannelConfig → Guild → Guild
  manage_channels answers existing [] guild = guild
  manage_channels answers existing (config ∷ configs) guild =
      manage_channels answers existing configs
        (if is_existing existing config.name then guild else create answers config guild)

  -- The guild and `has_ready_been_called`.
  unfoldable pub ready : Answers → GuildConfig → Guild × Bool → Guild × Bool
  ready answers config (guild, true) = (guild, true)
  ready answers config (guild, false) = (
    set_commands answers.sets get_create_commands (
        set_commands answers.clears []
          (manage_channels answers (fetched answers guild) config.channels guild)),
    true,
  )
