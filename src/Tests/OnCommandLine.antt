-- ===== src/Tests/OnCommandLine.antt =====
-- The tests of the command line pass, with a crate clap that reads options with a value, by their long and
-- their short names. An identifier is the sum of its letters here.
use Prim.Native.Char.{code}
use Prim.Native.String.{String}
use text.Mathlib.Text.{◌==◌ as str_eq}
use taskchampion_sync_server.Prelude.{
  ℕ, ◌+◌, ◌≡◌, refl, ◌||◌, Bool, false, Option, none, some, List, [], ◌∷◌, if◌then◌else◌,
}
use taskchampion_sync_server.Prelude.Int.{pos}
use taskchampion_sync_server.Core.Types.{Uuid}
use taskchampion_sync_server.Core.Txn.{Outcome, ok, err, panic}
use taskchampion_sync_server.CommandLine.{ValueType, Value, Arg, Clap, command}
use taskchampion_sync_server.CommandLine.Start.{same_type, declared}
use taskchampion_sync_server.CommandLine.Tested.{
  command_allowed_client_ids_none, command_allowed_client_ids_one, command_allowed_client_ids_two,
  command_data_dir,
}
use taskchampion_sync_server.Web.Tested.{ends_with}

abbrev sum_of : String → ℕ
sum_of String.[] = 0
sum_of (String.◌∷◌ c rest) = code c + sum_of rest

abbrev Matches : Type 0
Matches = List Arg × List (String × String)

abbrev is_short : Option String → String → Bool
is_short none flag = false
is_short (some short) flag = str_eq (ends_with "-" short) flag

-- the long name of the option that a flag stands for
abbrev option_of : List Arg → String → Option String
option_of [] flag = none
option_of (arg ∷ args) flag =
    if str_eq (ends_with "--" arg.long) flag || is_short arg.short flag
    then some arg.long
    else option_of args flag

abbrev pairs : List Arg → List String → Option (List (String × String))
pairs args [] = some []
pairs args (flag ∷ []) = none
pairs args (flag ∷ text ∷ line) =
    let later = pairs args line in
    elim (option_of args flag) [
      | none ↦ none
      | some long ↦ elim later [ none ↦ none | some rest ↦ some ((long, text) ∷ rest) ]
    ]

abbrev parsed : List Arg → Option (List (String × String)) → Outcome String Matches
parsed args none = err "usage"
parsed args (some given) = ok (args, given)

abbrev matched : List Arg → List String → Outcome String Matches
matched args [] = err "usage"
matched args (program ∷ line) = parsed args (pairs args line)

abbrev value : (t : ValueType) → String → Value t
value ValueType.string text = text
value ValueType.os_string text = text
value ValueType.uuid text = sum_of text
value ValueType.u32 text = sum_of text
value ValueType.i64 text = pos (sum_of text)
value ValueType.str_ref text = text

abbrev values : (t : ValueType) → String → List (String × String) → List (Value t)
values t name [] = []
values t name ((long, text) ∷ rest) =
    let later = values t name rest in if str_eq long name then value t text ∷ later else later

abbrev some_of : {A : Type 0} → List A → Option (List A)
some_of [] = none
some_of (x ∷ xs) = some (x ∷ xs)

abbrev first_of : {A : Type 0} → List A → Option A
first_of [] = none
first_of (x ∷ xs) = some x

abbrev typed : {A : Type 0} → ValueType → Option Arg → A → Outcome String A
typed t none found = panic
typed t (some arg) found = if same_type t arg.value_type then ok found else panic

abbrev clap : Clap Matches
clap = record {
  get_matches = matched;
  get_one = λ m t name. typed t (declared m.0 name) (first_of (values t name m.1));
  get_many = λ m t name. typed t (declared m.0 name) (some_of (values t name m.1));
  u32_to_string = λ n. "100";
  i64_to_string = λ n. "14";
}

abbrev parse_str : String → Option Uuid
parse_str text = some (sum_of text)

command_lines_read :
    (command_allowed_client_ids_none clap parse_str ≡ ok tt)
    × (command_allowed_client_ids_one clap parse_str ≡ ok tt)
    × (command_allowed_client_ids_two clap parse_str ≡ ok tt)
    × (command_data_dir clap parse_str ≡ ok tt)
unfolding command
command_lines_read = (refl, refl, refl, refl)
