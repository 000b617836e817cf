-- ===== src/Discord/Medium.antt =====
-- server/src/discord_bot/commands/media.rs: searching, adding and removing movies and shows.
use dookie.Base.{
  ℕ, String, ◌<>◌, Option, none, some, List, [], ◌∷◌, map, take, length, ltb, ◌==◌, str_eq,
  if◌then◌else◌,
}
use dookie.Base.Result.{Result, ok, err, ok_or}
use dookie.Disk.{Disk}
use dookie.Media.{BundleError, Request, Server, Net, show}
use dookie.Media.Arr.{MediaLookup, Quality, hd1080p, ultra_hd, AddOutcome, added, already_tracked}
use dookie.Media.Bundle.{
  MediaBundle, Codecs, RemoveOutcome, removed, not_tracked, search_movies, search_shows, add_movie,
  add_show, remove_movie, remove_show,
}
use dookie.Discord.{
  ResolvedOption, Reply, content, Embed, CommandError, missing_option, request_failed, Cmd, ◌>>=◌,
  lift, request, text_option, id_option,
}
use dookie.Discord.Text.{take_chars, count_chars}

pub data MediaKind : Type 0 where
  movie show_kind : MediaKind

abbrev pub noun : MediaKind → String
noun movie = "movie"
noun show_kind = "show"

abbrev pub app : MediaKind → String
app movie = "Radarr"
app show_kind = "Sonarr"

abbrev pub id_name : MediaKind → String
id_name movie = "tmdb_id"
id_name show_kind = "tvdb_id"

abbrev pub page_url : MediaKind → ℕ → String
page_url movie id = "https://www.themoviedb.org/movie/" <> show id
page_url show_kind id = "https://www.thetvdb.com/?tab=series&id=" <> show id

abbrev pub max_results : ℕ
max_results = 5

abbrev pub max_overview_chars : ℕ
max_overview_chars = 300

unfoldable pub display_title : MediaLookup → String
display_title lookup =
    if lookup.year == 0 then lookup.title else lookup.title <> " (" <> show lookup.year <> ")"

abbrev pub description : Option String → Option String
description none = none
description (some overview) =
    let cut = take_chars max_overview_chars overview in
    some (if ltb max_overview_chars (count_chars overview) then cut <> "…" else cut)

unfoldable pub embed : MediaKind → MediaLookup → Embed
embed kind lookup = record {
  title = display_title lookup;
  url = page_url kind lookup.id;
  description = description lookup.overview;
  thumbnail = lookup.poster_url;
  fields = [];
  footer = none;
}

unfoldable pub result_embed : MediaKind → MediaLookup → Embed
result_embed kind lookup = record (embed kind lookup) {
  fields =
      (id_name kind, show lookup.id)
      ∷ ("Status", if lookup.tracked then "Already tracked" else "Not tracked")
      ∷ [];
  footer = some ("/add_" <> noun kind <> " " <> id_name kind <> ":" <> show lookup.id);
}

unfoldable pub search_reply : MediaKind → String → List MediaLookup → Reply
search_reply kind query [] = content ("No " <> noun kind <> "s found for \"" <> query <> "\"")
search_reply kind query (first ∷ rest) =
    let shown = take max_results (first ∷ rest) in
    record {
      content =
          "Top "
          <> show (length shown)
          <> " "
          <> noun kind
          <> " results for \""
          <> query
          <> "\". Add one with `/add_"
          <> noun kind
          <> "` and its `"
          <> id_name kind
          <> "`.";
      attachment = none;
      embeds = map (result_embed kind) shown;
    }

unfoldable pub add_reply : MediaKind → AddOutcome → Reply
add_reply kind (added lookup) = record {
  content =
      "Added **"
      <> display_title lookup
      <> "** to "
      <> app kind
      <> " and started searching for it.";
  attachment = none;
  embeds = embed kind lookup ∷ [];
}
add_reply kind (already_tracked lookup) = record {
  content = "**" <> display_title lookup <> "** is already tracked by " <> app kind <> ".";
  attachment = none;
  embeds = embed kind lookup ∷ [];
}

unfoldable pub remove_reply : MediaKind → RemoveOutcome → Reply
remove_reply kind (removed lookup) =
    content (
      "Removed **"
      <> display_title lookup
      <> "** from "
      <> app kind
      <> " and cleaned up its files.")
remove_reply kind (not_tracked lookup) = content (
    "**"
    <> display_title lookup
    <> "** is not tracked by "
    <> app kind
    <> "; no files were removed.")

unfoldable pub quality_of : String → Result CommandError Quality
quality_of name =
    if str_eq name "HD-1080p"
    then ok hd1080p
    else if str_eq name "Ultra-HD"
    then ok ultra_hd
    else err (request_failed "quality must be HD-1080p or Ultra-HD")

module _ {F64 : Type 0} (display : BundleError → String) (server : Server) (codecs : Codecs F64)
    (bundle : MediaBundle) where
  abbrev pub search_call : MediaKind → String → Net (List MediaLookup)
  search_call movie = search_movies server codecs bundle
  search_call show_kind = search_shows server codecs bundle

  abbrev pub add_call : MediaKind → ℕ → Quality → Net AddOutcome
  add_call movie = add_movie server codecs bundle
  add_call show_kind = add_show server codecs bundle

  -- The call also removes files.
  abbrev pub removal :
      MediaKind → ℕ → Disk → List Request → Result BundleError RemoveOutcome × Disk × List Request
  removal movie = remove_movie server codecs bundle
  removal show_kind = remove_show server codecs bundle

  unfoldable pub remove_call : MediaKind → ℕ → Cmd RemoveOutcome
  remove_call kind id w =
      let (r, d, sent) = removal kind id w.disk w.sent in
      let w' = record w { disk = d; sent = sent } in
      elim r [ ok outcome ↦ (ok outcome, w') | err e ↦ (err (request_failed (display e)), w') ]

  unfoldable pub search : MediaKind → List ResolvedOption → Cmd Reply
  search kind options = do
    query ← lift (ok_or (text_option "query" options) (missing_option "query"))
    results ← request display (search_call kind query)
    lift (ok (search_reply kind query results))

  unfoldable pub add : MediaKind → List ResolvedOption → Cmd Reply
  add kind options = do
    id ← lift (ok_or (id_option (id_name kind) options) (missing_option (id_name kind)))
    name ← lift (ok_or (text_option "quality" options) (missing_option "quality"))
    quality ← lift (quality_of name)
    outcome ← request display (add_call kind id quality)
    lift (ok (add_reply kind outcome))

  unfoldable pub remove : MediaKind → List ResolvedOption → Cmd Reply
  remove kind options = do
    id ← lift (ok_or (id_option (id_name kind) options) (missing_option (id_name kind)))
    outcome ← remove_call kind id
    lift (ok (remove_reply kind outcome))
