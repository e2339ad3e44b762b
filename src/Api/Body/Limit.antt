-- ===== src/Api/Body/Limit.antt =====
-- What the loops that read a body accept.
use Prim.Native.String.{String}
use mathlib.Core.List.{append_assoc, append-nil}
use taskchampion_sync_server.Prelude.{
  ℕ, ◌+◌, ◌≤◌, ◌==◌, ◌≡◌, ◌∙◌, refl, ltb, Bool-cases, inl, inr, true, List, [], ◌∷◌, ◌++◌, map,
  length, arith, if◌then◌else◌,
}
use taskchampion_sync_server.Core.Types.{Bytes}
use taskchampion_sync_server.Core.Txn.{Outcome, ok, err}
use taskchampion_sync_server.Api.Http.{HttpError}
use taskchampion_sync_server.Api.Body.{
  Chunk, chunk, broken, max_size, read_from, nonempty, then_nonempty, read_history_segment,
  read_snapshot_body,
}

abbrev pub concat : List Bytes → Bytes
concat [] = []
concat (b ∷ bs) = b ++ concat bs

pub length-append : (xs ys : Bytes) → length (xs ++ ys) ≡ length xs + length ys
length-append [] ys = omega arith
length-append (x ∷ xs) ys = omega (arith, length-append xs ys)

-- `r` on a body within the limit.
abbrev pub guarded : String → (Bytes → Outcome HttpError Bytes) → Bytes → Outcome HttpError Bytes
guarded overflow r body =
    if ltb max_size (length body) then err (HttpError.bad_request overflow) else r body

-- The loop over whole chunks is one test on their sum, and then what follows them.
module _ (overflow : String) (tail : List Chunk) (r : Bytes → Outcome HttpError Bytes)
    (ends : (body : Bytes) → read_from overflow body tail ≡ r body) where
  -- a body that is over the limit stays over it
  guarded_over :
      (xs ys : Bytes)
      → ltb max_size (length xs) ≡ true
      → guarded overflow r (xs ++ ys) ≡ err (HttpError.bad_request overflow)
  guarded_over xs ys over = ground (arith, length-append xs ys)

  read_from-chunks :
      (body : Bytes) (bs : List Bytes)
      → length body ≤ max_size
      → read_from overflow body (map chunk bs ++ tail) ≡ guarded overflow r (body ++ concat bs)
  unfolding read_from
  read_from-chunks body [] small = rw append-nil (ground (arith, ends body))
  read_from-chunks body (b ∷ bs) small = elim (Bool-cases (ltb max_size (length (body ++ b)))) [
    | inl over ↦ rw (
      ← length-append body b,
      over,
      ← append_assoc body b (concat bs),
      guarded_over (body ++ b) (concat bs) over,
    )
    | inr under ↦
        rw (← length-append body b, under, ← append_assoc body b (concat bs))
          (read_from-chunks (body ++ b) bs (ground arith))
  ]

then_nonempty-guarded :
    (overflow empty : String) (r : Bytes → Outcome HttpError Bytes) (body : Bytes)
    → then_nonempty empty (guarded overflow r body)
      ≡ guarded overflow (λ b. then_nonempty empty (r b)) body
then_nonempty-guarded overflow empty r body = elim (Bool-cases (ltb max_size (length body))) [
  | inl over ↦ rw over
  | inr under ↦ rw under
]

-- A body of that length is too long, empty or read.
abbrev pub by_length : String → String → Bytes → Outcome HttpError Bytes
by_length overflow empty body =
    if ltb 104857600 (length body)
    then err (HttpError.bad_request overflow)
    else if length body == 0
    then err (HttpError.bad_request empty)
    else ok body

guarded-by_length :
    (overflow empty : String) (body : Bytes)
    → guarded overflow (nonempty empty) body ≡ by_length overflow empty body
guarded-by_length overflow empty [] = refl
guarded-by_length overflow empty (b ∷ body) = ground arith

whole_chunks :
    (overflow empty : String) (bs : List Bytes)
    → then_nonempty empty (read_from overflow [] (map chunk bs))
      ≡ by_length overflow empty (concat bs)
unfolding read_from
whole_chunks overflow empty bs =
    rw
      (
        ← append-nil (map chunk bs),
        read_from-chunks overflow [] (λ b. ok b) (λ b. refl) [] bs (omega arith),
      )
      (then_nonempty-guarded overflow empty (λ b. ok b) (concat bs))
    ∙ guarded-by_length overflow empty (concat bs)

-- A body in whole chunks is refused as too long exactly if their sum has more than 104857600 bytes (100
-- MB), and else as empty exactly if it has none; every other body is read to the sum. This holds of both
-- handlers, each with its own texts.
pub read_body-chunks :
    (bs : List Bytes)
    → (read_history_segment (map chunk bs) ≡ by_length "overflow" "Empty body" (concat bs))
      × (read_snapshot_body (map chunk bs)
          ≡ by_length "Snapshot over maximum allowed size" "No snapshot supplied" (concat bs))
unfolding read_history_segment read_snapshot_body
read_body-chunks bs = (
  whole_chunks "overflow" "Empty body" bs,
  whole_chunks "Snapshot over maximum allowed size" "No snapshot supplied" bs,
)

-- A body that breaks off is refused, whatever follows the break: with the error of the break, or as
-- too long if it was so before.
pub read_body-broken :
    (bs : List Bytes) (e : ℕ) (rest : List Chunk)
    → (read_history_segment (map chunk bs ++ broken e ∷ rest)
        ≡ guarded "overflow" (λ body. err (HttpError.payload e)) (concat bs))
      × (read_snapshot_body (map chunk bs ++ broken e ∷ rest)
          ≡ guarded "Snapshot over maximum allowed size"
              (λ body. err (HttpError.payload e))
              (concat bs))
unfolding read_history_segment read_snapshot_body read_from
read_body-broken bs e rest = (
  rw
      (read_from-chunks "overflow" (broken e ∷ rest) (λ b. err (HttpError.payload e)) (λ b. refl) []
        bs (omega arith))
      (then_nonempty-guarded "overflow" "Empty body" (λ b. err (HttpError.payload e)) (concat bs)),
  rw
      (read_from-chunks "Snapshot over maximum allowed size" (broken e ∷ rest)
        (λ b. err (HttpError.payload e)) (λ b. refl) [] bs (omega arith))
      (then_nonempty-guarded "Snapshot over maximum allowed size" "No snapshot supplied"
        (λ b. err (HttpError.payload e)) (concat bs)),
)
