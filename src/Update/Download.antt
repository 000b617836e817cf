-- ===== src/Update/Download.antt =====
-- server/src/update.rs: `read_response`, the bounded download. The response is what `reqwest`
-- gives: a status, the stated length, and the chunks that arrive, the last of which may be an error.
pub mod Bounds
use dookie.Base.{
  ℕ, ◌+◌, Bool, true, false, ◌&&◌, Option, none, some, List, [], ◌∷◌, ◌++◌, leb, ltb, length,
  if◌then◌else◌,
}
use dookie.Base.Result.{Result, ok, err, ◌>>=◌, ◌>>◌}
use dookie.Update.{UpdateError, message}

pub record Response : Type 0 where
  pub status : ℕ
  pub content_length : Option ℕ
  pub chunks : List (Result UpdateError (List ℕ))

-- `error_for_status_ref`: a client or server error.
abbrev pub error_for_status : ℕ → Result UpdateError (Unit {0})
error_for_status n = if leb 400 n && ltb n 600 then err (message "HTTP status error") else ok tt

abbrev pub exceeds : Option ℕ → ℕ → Bool
exceeds none limit = false
exceeds (some n) limit = ltb limit n

abbrev pub too_long : UpdateError
too_long = message "Update download exceeds size limit"

-- The loop over the chunks.
unfoldable pub read_chunks :
    ℕ → List ℕ → List (Result UpdateError (List ℕ)) → Result UpdateError (List ℕ)
read_chunks limit bytes [] = ok bytes
read_chunks limit bytes (err e ∷ rest) = err e
read_chunks limit bytes (ok chunk ∷ rest) =
    let more = read_chunks limit (bytes ++ chunk) rest in
    if ltb limit (length bytes + length chunk) then err too_long else more

unfoldable pub read_response : Response → ℕ → Result UpdateError (List ℕ)
unfolding read_chunks
read_response r limit = do
  error_for_status r.status
  if exceeds r.content_length limit then err too_long else read_chunks limit [] r.chunks
