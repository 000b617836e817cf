-- ===== src/Discord/Handler/Access.antt =====
-- Who may do what with the bot.
use dookie.Base.{
  ℕ, String, ◌<>◌, ◌≡◌, refl, ◌⊎◌, inl, inr, Bool, true, false, Bool-cases, ◌||◌, List, [], ◌∷◌,
  arith, str_eq,
}
use dookie.Base.Result.{ok}
use dookie.Media.{BundleError, Server}
use dookie.Media.Bundle.{MediaBundle, Codecs}
use dookie.Discord.{ResolvedOption, content, World}
use dookie.Discord.Handler.{
  help, Interaction, grant_access_run, is_admin_caller, run_command, interaction_create,
}
use dookie.Discord.Keeps.{RunsNothing, nothing_rules, nothing_lift, nothing_if, nothing_unless}
use dookie.Discord.Medium.{
  MediaKind, movie, show_kind, search as search_media, add, remove, remove_call,
}
use dookie.Discord.System.{Host, is_admin_command, run_system}
use dookie.Discord.Torrents.{list, delete}

not_system :
    (name : String)
    → is_admin_command name ≡ false
    → (str_eq name "docker_ps"
        || str_eq name "disk_space"
        || str_eq name "restart_container"
        || str_eq name "restart_services")
      ≡ false
unfolding is_admin_command
not_system name h = ground arith

module _ {F64 : Type 0} (display : BundleError → String) (percent : F64 → String) (server : Server)
    (codecs : Codecs F64) (bundle : MediaBundle) (host : Host) (guild : ℕ)
    (pkg_version : String) where
  search-RunsNothing :
      (kind : MediaKind) (options : List ResolvedOption)
      → RunsNothing (search_media display server codecs bundle kind options)
  unfolding search_media
  search-RunsNothing kind options = search nothing_rules depth 8

  add-RunsNothing :
      (kind : MediaKind) (options : List ResolvedOption)
      → RunsNothing (add display server codecs bundle kind options)
  unfolding add
  add-RunsNothing kind options = search nothing_rules depth 12

  remove_call-RunsNothing :
      (kind : MediaKind) (id : ℕ) → RunsNothing (remove_call display server codecs bundle kind id)
  unfolding remove_call
  remove_call-RunsNothing kind id = record { at = λ w. ground arith }

  remove-RunsNothing :
      (kind : MediaKind) (options : List ResolvedOption)
      → RunsNothing (remove display server codecs bundle kind options)
  unfolding remove
  remove-RunsNothing kind options = search (nothing_rules, remove_call-RunsNothing) depth 8

  list-RunsNothing : RunsNothing (list percent display server codecs bundle)
  unfolding list
  list-RunsNothing = search nothing_rules depth 8

  delete-RunsNothing :
      (options : List ResolvedOption)
      → RunsNothing (delete percent display server codecs bundle options)
  unfolding delete
  delete-RunsNothing options = search nothing_rules depth 12

  access-RunsNothing :
      (options : List ResolvedOption)
      → RunsNothing
          (grant_access_run display percent server codecs bundle host guild pkg_version options)
  unfolding grant_access_run
  access-RunsNothing [] = record { at = λ w. refl }
  access-RunsNothing (option ∷ options) = record { at = λ w. ground arith }

  command-RunsNothing :
      (is_admin : Bool) (name : String) (options : List ResolvedOption)
      → is_admin_command name ≡ false
      → RunsNothing (
          run_command display percent server codecs bundle host guild pkg_version is_admin name
            options)
  unfolding run_command
  command-RunsNothing is_admin name options h =
      nothing_unless _ (run_system host name options) _ (not_system name h) (
        nothing_if (str_eq name "torrent_list") _ _ list-RunsNothing (
          nothing_if (str_eq name "torrent_delete") _ _ (delete-RunsNothing options) (
            nothing_if (str_eq name "help") _ _ (nothing_lift (ok (content (help is_admin)))) (
              nothing_if (str_eq name "version") _ _
                (nothing_lift (ok (content ("Dookie version " <> pkg_version))))
                (nothing_if (str_eq name "grant_access") _ _ (access-RunsNothing options) (
                  nothing_if (str_eq name "search_movie") _ _ (search-RunsNothing movie options) (
                    nothing_if (str_eq name "add_movie") _ _ (add-RunsNothing movie options) (
                      nothing_if (str_eq name "remove_movie") _ _ (remove-RunsNothing movie options)
                        (nothing_if (str_eq name "search_show") _ _
                          (search-RunsNothing show_kind options)
                          (nothing_if (str_eq name "add_show") _ _
                            (add-RunsNothing show_kind options)
                            (nothing_if (str_eq name "remove_show") _ _
                              (remove-RunsNothing show_kind options)
                              (nothing_lift (ok (content ("Unknown command " <> name)))))))))))))))

  -- A process is run only for an administrator of the configured guild.
  pub processes_need_admin :
      (i : Interaction) (w : World)
      → ((interaction_create display percent server codecs bundle host guild pkg_version i w).1.run
          ≡ w.run)
        ⊎ (is_admin_caller display percent server codecs bundle host guild pkg_version i ≡ true)
  unfolding interaction_create
  processes_need_admin i w =
      elim (Bool-cases
        (is_admin_caller display percent server codecs bundle host guild pkg_version i)) [
          | inl e ↦ inr e
          | inr e ↦ elim (Bool-cases (is_admin_command i.name)) [
            | inl c ↦ inl (ground (arith, c, e))
            | inr c ↦
                let ran =
                  (command-RunsNothing
                      (is_admin_caller display percent server codecs bundle host guild pkg_version
                        i)
                      i.name i.options c).at
                    w in
                inl (ground (arith, c, e, ran))
          ]
        ]
