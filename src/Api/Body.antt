-- ===== src/Api/Body.antt =====
-- The loops of server/src/api/add_version.rs and add_snapshot.rs that read a request's body.
pub mod Limit
use Prim.Native.String.{String}
use taskchampion_sync_server.Prelude.{
  ℕ, ◌+◌, ◌*◌, ltb, Option, none, some, List, [], ◌∷◌, ◌++◌, length, if◌then◌else◌,
}
use taskchampion_sync_server.Core.Types.{Bytes}
use taskchampion_sync_server.Core.Txn.{Outcome, ok, err}
use taskchampion_sync_server.Api.Http.{HttpError}

-- What `payload.next()` yields: a chunk of the body, or an error.
pub data Chunk : Type 0 where
  chunk : Bytes → Chunk
  broken : ℕ → Chunk

-- `const MAX_SIZE`, 100MB in both files
abbrev pub max_size : ℕ
max_size = 100 * 1024 * 1024

-- The loop, with the text of its error and what has been read.
unfoldable pub read_from : String → Bytes → List Chunk → Outcome HttpError Bytes
read_from overflow body [] = ok body
read_from overflow body (broken e ∷ rest) = err (HttpError.payload e)
read_from overflow body (chunk bytes ∷ rest) =
    let next = read_from overflow (body ++ bytes) rest in
    if ltb max_size (length body + length bytes) then err (HttpError.bad_request overflow) else next

-- the test after the loop
abbrev pub nonempty : String → Bytes → Outcome HttpError Bytes
nonempty empty [] = err (HttpError.bad_request empty)
nonempty empty (b ∷ body) = ok (b ∷ body)

abbrev pub then_nonempty : String → Outcome HttpError Bytes → Outcome HttpError Bytes
then_nonempty empty (ok body) = nonempty empty body
then_nonempty empty (err e) = err e
then_nonempty empty Outcome.panic = Outcome.panic

unfoldable pub read_history_segment : List Chunk → Outcome HttpError Bytes
unfolding read_from
read_history_segment payload = then_nonempty "Empty body" (read_from "overflow" [] payload)

unfoldable pub read_snapshot_body : List Chunk → Outcome HttpError Bytes
unfolding read_from
read_snapshot_body payload =
    then_nonempty "No snapshot supplied" (read_from "Snapshot over maximum allowed size" [] payload)
