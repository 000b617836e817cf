-- ===== src/Discord/Ready/Laws.antt =====
-- Which channels are asked for, and that a restart asks for none again.
use mathlib.Core.Path.{subst}
use dookie.Base.{
  ℕ, String, ◌≡◌, refl, sym, ap, ◌∙◌, Bool, true, false, not, Option, List, [], ◌∷◌, keep_if, All,
  Bool-cases, inl, inr, eq_iff, arith, if◌then◌else◌,
}
use dookie.Discord.Handler.{get_create_commands}
use dookie.Discord.Ready.{
  ChannelConfig, GuildConfig, CreateChannel, Guild, Answers, create_channel, is_existing, create,
  manage_channels, fetched, ready,
}

-- The configured channels whose names are not among the given.
abbrev pub missing : List String → List ChannelConfig → List ChannelConfig
missing existing = keep_if (λ config. not (is_existing existing config.name))

AllExist : List String → List ChannelConfig → Type 0
AllExist names = All (λ config. is_existing names config.name ≡ true)

none_missing :
    (names : List String) (configs : List ChannelConfig)
    → AllExist names configs
    → missing names configs ≡ []
unfolding AllExist
none_missing names [] h = refl
none_missing names (config ∷ configs) (h, k) = rw h (none_missing names configs k)

fetched_all :
    (answers : Answers)
    → answers.fetches ≡ true
    → (guild : Guild) → fetched answers guild ≡ guild.names
fetched_all answers f guild = rw f

module _ (from_name : String → Option ℕ) where
  -- As they are asked for, the last first.
  abbrev pub asked_for : List ChannelConfig → List CreateChannel → List CreateChannel
  asked_for [] before = before
  asked_for (config ∷ configs) before = asked_for configs (create_channel from_name config ∷ before)

  module _ (answers : Answers) (existing : List String) where
    one_round :
        (config : ChannelConfig) (configs : List ChannelConfig) (guild : Guild) {b : Bool}
        → is_existing existing config.name ≡ b
        → manage_channels from_name answers existing (config ∷ configs) guild
          ≡ manage_channels from_name answers existing configs
              (if b then guild else create from_name answers config guild)
    unfolding manage_channels
    one_round config configs guild e =
        ap
          (λ b.
            manage_channels from_name answers existing configs
              (if b then guild else create from_name answers config guild))
          e

    no_rounds : (guild : Guild) → manage_channels from_name answers existing [] guild ≡ guild
    unfolding manage_channels
    no_rounds guild = refl

    asked_lem :
        (configs : List ChannelConfig) (guild : Guild)
        → (manage_channels from_name answers existing configs guild).asked
          ≡ asked_for (missing existing configs) guild.asked
    asked_lem [] guild = ap (λ g. g.asked) (no_rounds guild)
    asked_lem (config ∷ configs) guild = elim (Bool-cases (is_existing existing config.name)) [
      | inl e ↦ rw (one_round config configs guild e) (rw e (asked_lem configs guild))
      | inr e ↦
          rw (one_round config configs guild e)
            (rw e (asked_lem configs (create from_name answers config guild)))
    ]

    module _ (creates : (name : String) → answers.creates name ≡ true) where
      creates_it :
          (config : ChannelConfig) (guild : Guild)
          → (create from_name answers config guild).names ≡ config.name ∷ guild.names
      creates_it config guild = rw (creates config.name)

      still_exists :
          (config : ChannelConfig) (guild : Guild) (name : String)
          → is_existing guild.names name ≡ true
          → is_existing (create from_name answers config guild).names name ≡ true
      still_exists config guild name h = rw (creates config.name) (ground (arith, h))

      now_exists :
          (config : ChannelConfig) (guild : Guild)
          → is_existing (create from_name answers config guild).names config.name ≡ true
      now_exists config guild =
          rw (creates config.name) (ground (arith, eq_iff config.name config.name))

      names_grow :
          (configs : List ChannelConfig) (guild : Guild) (name : String)
          → is_existing guild.names name ≡ true
          → is_existing (manage_channels from_name answers existing configs guild).names name ≡ true
      names_grow [] guild name h = rw (no_rounds guild) h
      names_grow (config ∷ configs) guild name h =
          elim (Bool-cases (is_existing existing config.name)) [
            | inl e ↦ rw (one_round config configs guild e) (names_grow configs guild name h)
            | inr e ↦ rw (one_round config configs guild e) (
                names_grow configs (create from_name answers config guild) name
                  (still_exists config guild name h))
          ]

      names_cover :
          (configs : List ChannelConfig) (guild : Guild)
          → ((name : String)
              → is_existing existing name ≡ true
              → is_existing guild.names name ≡ true)
          → AllExist (manage_channels from_name answers existing configs guild).names configs
      unfolding AllExist
      names_cover [] guild h = tt
      names_cover (config ∷ configs) guild h =
          elim (Bool-cases (is_existing existing config.name)) [
            | inl e ↦
                subst (λ g. AllExist g.names (config ∷ configs))
                  (sym (one_round config configs guild e))
                  (
                    names_grow configs guild config.name (h config.name e),
                    names_cover configs guild h,
                  )
            | inr e ↦
                let made = create from_name answers config guild in
                subst (λ g. AllExist g.names (config ∷ configs))
                  (sym (one_round config configs guild e))
                  (
                    names_grow configs made config.name (now_exists config guild),
                    names_cover configs made (λ name k. still_exists config guild name (h name k)),
                  )
          ]

  commands_kept :
      (answers : Answers) (existing : List String) (configs : List ChannelConfig) (guild : Guild)
      → (manage_channels from_name answers existing configs guild).commands ≡ guild.commands
  commands_kept answers existing [] guild = ap (λ g. g.commands) (no_rounds answers existing guild)
  commands_kept answers existing (config ∷ configs) guild =
      elim (Bool-cases (is_existing existing config.name)) [
        | inl e ↦
            rw (one_round answers existing config configs guild e)
              (commands_kept answers existing configs guild)
        | inr e ↦
            rw (one_round answers existing config configs guild e)
              (commands_kept answers existing configs (create from_name answers config guild))
      ]

  ready_keeps :
      (answers : Answers) (config : GuildConfig) (guild : Guild)
      → let g = manage_channels from_name answers (fetched answers guild) config.channels guild in
        ((ready from_name answers config (guild, false)).0.asked ≡ g.asked)
        × ((ready from_name answers config (guild, false)).0.names ≡ g.names)
  unfolding ready
  ready_keeps answers config guild = (ground arith, ground arith)

  -- A first `ready` asks, in the order of the configuration, for exactly the configured channels
  -- whose names were not fetched, which are all of them if the fetch fails; it leaves the commands of
  -- the program if Discord sets them, else none if Discord cleared them, else those that were there;
  -- and a later `ready` of the same process does nothing.
  pub ready_asks :
      (answers answers' : Answers) (config : GuildConfig) (guild : Guild)
      → ((ready from_name answers config (guild, false)).0.asked
          ≡ asked_for (missing (fetched answers guild) config.channels) guild.asked)
        × ((ready from_name answers config (guild, false)).0.commands ≡ (
            if answers.sets
            then get_create_commands
            else (if answers.clears then [] else guild.commands)))
        × (ready from_name answers' config (ready from_name answers config (guild, false))
            ≡ ready from_name answers config (guild, false))
  unfolding ready
  ready_asks answers answers' config guild = (
    (ready_keeps answers config guild).0
        ∙ asked_lem answers (fetched answers guild) config.channels guild,
    ground (arith, commands_kept answers (fetched answers guild) config.channels guild),
    refl,
  )

  -- Where Discord fetches the channels and makes every channel that is asked for, a restart asks for
  -- no channel again.
  ready_settles :
      (answers : Answers) (config : GuildConfig) (guild : Guild)
      → answers.fetches ≡ true
      → ((name : String) → answers.creates name ≡ true)
      → (ready from_name answers config
          ((ready from_name answers config (guild, false)).0, false)).0.asked
        ≡ (ready from_name answers config (guild, false)).0.asked
  ready_settles answers config guild f creates =
      let g = (ready from_name answers config (guild, false)).0 in
      let names = fetched_all answers f guild in
      let cover : AllExist g.names config.channels =
        subst (λ l. AllExist l config.channels) (sym (ready_keeps answers config guild).1)
          (names_cover answers (fetched answers guild) creates config.channels guild
            (λ name h. subst (λ l. is_existing l name ≡ true) names h)) in
      (ready_asks answers answers config g).0
      ∙ ap (λ names. asked_for (missing names config.channels) g.asked) (fetched_all answers f g)
      ∙ ap (λ l. asked_for l g.asked) (none_missing g.names config.channels cover)
