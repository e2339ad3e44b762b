-- ===== src/HashMap.antt =====
-- The standard library's `HashMap`, as far as the program uses it: `get`, `contains_key` and
-- `insert`. The program never iterates over a map, so a map is its lookup function.
use taskchampion_sync_server.Prelude.{
  ℕ, ◌==◌, ◌&&◌, Bool, Option, none, some, is_some, if◌then◌else◌,
}

-- The test on keys.
pub record Eq (K : Type 0) : Type 0 where
  pub beq : K → K → Bool

instance abbrev pub uuid_eq : Eq ℕ
uuid_eq = record { beq = λ a b. a == b }

instance abbrev pub pair_eq : Eq (ℕ × ℕ)
pair_eq = record { beq = λ a b. a.0 == b.0 && a.1 == b.1 }

abbrev pub HashMap : Type 0 → Type 0 → Type 0
HashMap K V = K → Option V

module _ {K V : Type 0} where
  abbrev pub empty : HashMap K V
  empty k = none

  abbrev pub contains_key : HashMap K V → K → Bool
  contains_key m k = is_some (m k)

  abbrev pub insert : ⦃e : Eq K⦄ → HashMap K V → K → V → HashMap K V
  insert ⦃e⦄ m k v j = if e.beq j k then some v else m j
