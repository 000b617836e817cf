-- ===== src/Discord/Torrents.antt =====
-- server/src/discord_bot/commands/qbit.rs: the torrents' list and their deletion.
use dookie.Base.{
  ℕ, suc, zero, ◌+◌, ◌*◌, ◌/◌, ◌%◌, ◌^◌, String, ◌<>◌, Bool, not, ◌&&◌, ◌||◌, some, List, [], ◌∷◌,
  map, leb, ltb, ◌==◌, if◌then◌else◌,
}
use dookie.Base.Result.{ok, err, ok_or}
use dookie.Media.{BundleError, Server, show}
use dookie.Media.Bundle.{MediaBundle, Codecs, list_active_torrents, delete_qbit_torrent}
use dookie.Media.Qbit.{TorrentInfo}
use dookie.Discord.{
  ResolvedOption, Reply, content, missing_hash, invalid_hash, Cmd, ◌>>=◌, ◌>>◌, lift, request,
  text_option,
}
use dookie.Discord.Text.{count_chars, utf16_count, contains, all_chars, is_hexdigit, join_lines}

-- Forty bytes that are hexadecimal digits, each of which is a character.
unfoldable pub valid_hash : String → Bool
valid_hash hash = count_chars hash == 40 && all_chars is_hexdigit hash

-- The number of units of 1024 below it, up to GiB.
abbrev pub unit_of : ℕ → ℕ → ℕ
unit_of zero bytes = 0
unit_of (suc more) bytes =
    let next = unit_of more (bytes / 1024) in if ltb bytes 1024 then 0 else suc next

abbrev pub unit_name : ℕ → String
unit_name n = if n == 0 then "B" else if n == 1 then "KiB" else if n == 2 then "MiB" else "GiB"

-- `{:.1}` of a quotient, rounded to the even tenth where it lies half-way. The program's `f64` is the
-- quotient exactly below 2 ^ 53 bytes per second.
abbrev pub tenths : ℕ → ℕ → ℕ
tenths n d =
    let q = n * 10 / d in
    let r = n * 10 % d in if ltb d (r * 2) || (r * 2 == d && q % 2 == 1) then q + 1 else q

unfoldable pub format_speed : ℕ → String
format_speed bytes =
    let unit = unit_of 3 bytes in
    let t = tenths bytes (1024 ^ unit) in
    if unit == 0
    then show bytes <> " B"
    else show (t / 10) <> "." <> show (t % 10) <> " " <> unit_name unit

module _ {F64 : Type 0} (percent : F64 → String) where
  unfoldable pub format_torrent : TorrentInfo F64 → String
  format_torrent torrent =
      torrent.name
      <> " | "
      <> percent torrent.progress
      <> "% | ↓ "
      <> format_speed torrent.dlspeed
      <> "/s | ↑ "
      <> format_speed torrent.upspeed
      <> "/s | "
      <> torrent.hash

  unfoldable pub torrents_body : List (TorrentInfo F64) → String
  torrents_body [] = "No active torrents."
  torrents_body (t ∷ ts) = join_lines (map format_torrent (t ∷ ts))

  abbrev pub torrents_reply : String → Reply
  torrents_reply body =
      if leb (utf16_count body) 1900 && not (contains body "```")
      then content ("```text\n" <> body <> "\n```")
      else record {
        content = "Active torrents are attached as a text file.";
        attachment = some (body, "torrents.txt");
        embeds = [];
      }

  module _ (display : BundleError → String) (server : Server) (codecs : Codecs F64)
      (bundle : MediaBundle) where
    unfoldable pub list : Cmd Reply
    list = do
      torrents ← request display (list_active_torrents server codecs bundle)
      lift (ok (torrents_reply (torrents_body torrents)))

    unfoldable pub delete : List ResolvedOption → Cmd Reply
    delete options = do
      hash ← lift (ok_or (text_option "hash" options) missing_hash)
      lift (if valid_hash hash then ok tt else err invalid_hash)
      request display (delete_qbit_torrent server codecs bundle hash)
      lift (ok (content ("Deleted torrent `" <> hash <> "` and its files from disk.")))
