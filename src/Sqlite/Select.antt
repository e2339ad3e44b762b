-- ===== src/Sqlite/Select.antt =====
-- What a SELECT finds after the other statements of sqlite/src/lib.rs.
use Prim.Native.String.{String}
use text.Mathlib.Text.{◌==◌ as str_eq}
use text.Mathlib.TextEquality.{eq_iff}
use mathlib.Core.Option.{map as map_option}
use taskchampion_sync_server.Prelude.{
  ◌≡◌, ◌⊎◌, Option-cases, refl, Bool, true, false, inl, inr, Option, none, some, List, [], ◌∷◌,
  ◌++◌, arith, if◌then◌else◌,
}
use taskchampion_sync_server.Sqlite.Tables.{ClientRow, select, remove, update, of_client}

abbrev pub or_else : {A : Type 0} → Option A → Option A → Option A
or_else none b = b
or_else (some a) b = some a

pub or_else-none : {A : Type 0} (a : Option A) → or_else a none ≡ a
or_else-none none = refl
or_else-none (some a) = refl

module _ {A : Type 0} (where_ : A → Bool) where
  pub select-append :
      (rows : List A) (new : A)
      → select where_ (rows ++ (new ∷ []))
        ≡ or_else (select where_ rows) (if where_ new then some new else none)
  select-append [] new = ground arith
  select-append (row ∷ rows) new = ground (arith, select-append rows new)

  -- A row that is found meets the condition.
  pub select-holds : (rows : List A) (r : A) → select where_ rows ≡ some r → where_ r ≡ true
  select-holds [] r e = cc
  select-holds (row ∷ rows) r e = ground (arith, select-holds rows r)

  -- Where nothing is found, no other condition finds a row that meets this one.
  pub select-misses :
      (other : A → Bool) (rows : List A) (r : A)
      → select where_ rows ≡ none
      → select other rows ≡ some r
      → where_ r ≡ false
  select-misses other [] r absent found = cc
  select-misses other (row ∷ rows) r absent found = ground (arith, select-misses other rows r)

pub select-remove :
    (j k : String) (rows : List ClientRow)
    → select (of_client j) (remove (of_client k) rows)
      ≡ (if str_eq j k then none else select (of_client j) rows)
select-remove j k [] = ground arith
select-remove j k (row ∷ rows) =
    ground
      (arith, select-remove j k rows, eq_iff row.client_id j, eq_iff row.client_id k, eq_iff j k)

pub select-update :
    (j k : String) (set : ClientRow → ClientRow) (rows : List ClientRow)
    → ((row : ClientRow) → (set row).client_id ≡ row.client_id)
    → select (of_client j) (update (of_client k) set rows) ≡ (
        if str_eq j k
        then map_option set (select (of_client j) rows)
        else select (of_client j) rows)
select-update j k set [] keeps = ground arith
select-update j k set (row ∷ rows) keeps = ground (
  arith,
  select-update j k set rows keeps,
  keeps row,
  eq_iff row.client_id j,
  eq_iff row.client_id k,
  eq_iff j k,
)

-- What is found after an INSERT was there, or is the new row.
pub select-append_cases :
    {A : Type 0} (where_ : A → Bool) (rows : List A) (new r : A)
    → select where_ (rows ++ (new ∷ [])) ≡ some r
    → (select where_ rows ≡ some r) ⊎ (new ≡ r)
select-append_cases where_ [] new r e = ground arith
select-append_cases where_ (row ∷ rows) new r e =
    ground (arith, select-append_cases where_ rows new r)

-- What is left after a DELETE was there.
pub select-remove-some :
    (j k : String) (rows : List ClientRow) (r : ClientRow)
    → select (of_client j) (remove (of_client k) rows) ≡ some r
    → select (of_client j) rows ≡ some r
select-remove-some j k rows r e = ground (arith, select-remove j k rows)

-- What is found after an UPDATE is a row that was there, perhaps a changed one.
pub select-update_cases :
    (j k : String) (set : ClientRow → ClientRow) (rows : List ClientRow) (r : ClientRow)
    → ((row : ClientRow) → (set row).client_id ≡ row.client_id)
    → select (of_client j) (update (of_client k) set rows) ≡ some r
    → (old : ClientRow) × (select (of_client j) rows ≡ some old)
      × (r ≡ (if str_eq j k then set old else old))
select-update_cases j k set rows r keeps e = elim (Option-cases (select (of_client j) rows)) [
  | inl absent ↦ ground (arith, select-update j k set rows keeps)
  | inr (old, present) ↦ (old, present, ground (arith, select-update j k set rows keeps))
]
