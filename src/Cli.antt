-- ===== src/Cli.antt =====
-- src/cli.c: the options and positionals that a parser has, and the conditions on their names. A C string is
-- the list of its characters before the NUL, and none for NULL.
pub mod Names
pub mod Registration
pub mod Registered
mod Tests
use Prim.Native.String.{String}
use mathlib.Core.Option
use liblor.Status.{ok}
use liblor.Common.{
  leb, ◌==◌, if◌then◌else◌, ℕ, suc, Bool, true, false, not, ◌&&◌, ◌||◌, Option, none, some, List,
  [], ◌∷◌,
}

abbrev pub Text : Type 0
Text = List ℕ

pub data ValueKind : Type 0 where
  flag count string int double strings ints doubles positionals : ValueKind

pub data Code : Type 0 where
  cli_ok help_requested invalid_state unknown_option missing_value unexpected_value : Code
  invalid_value duplicate_option missing_required_option missing_positional : Code
  unexpected_positional out_of_memory : Code

abbrev pub code_name : Code → String
code_name cli_ok = "ok"
code_name help_requested = "help requested"
code_name invalid_state = "invalid state"
code_name unknown_option = "unknown option"
code_name missing_value = "missing value"
code_name unexpected_value = "unexpected value"
code_name invalid_value = "invalid value"
code_name duplicate_option = "duplicate option"
code_name missing_required_option = "missing required option"
code_name missing_positional = "missing positional"
code_name unexpected_positional = "unexpected positional"
code_name out_of_memory = "out of memory"

-- `LorCliOption`: a short name is 0 where there is none.
pub record Spec : Type 0 where
  pub short_name : ℕ
  pub long_name : Option Text
  pub value_name : Option Text
  pub help : Option Text
  pub required : Bool
  pub repeatable : Bool
  pub show_default : Bool

-- `LorCliOptionInternal`, with the address of the destination.
pub record OptionData : Type 0 where
  pub spec : Spec
  pub kind : ValueKind
  pub destination : ℕ
  pub occurrences : ℕ
  pub default_text : Option Text

-- `LorCliPositional`
pub record Positional : Type 0 where
  pub name : Option Text
  pub help : Option Text
  pub required : Bool

pub record PositionalData : Type 0 where
  pub spec : Positional
  pub kind : ValueKind
  pub destination : ℕ
  pub occurrences : ℕ

pub record Cli : Type 0 where
  pub options : List OptionData
  pub positionals : List PositionalData
  pub program_name : Option Text
  pub description : Option Text
  pub parsed : Bool

abbrev pub cli_init : Option Text → Option Text → Cli
cli_init program_name description = record {
  options = [];
  positionals = [];
  program_name = program_name;
  description = description;
  parsed = false;
}

-- Equal sizes and equal bytes.
abbrev pub same_text : Text → Text → Bool
same_text [] [] = true
same_text [] (b ∷ ys) = false
same_text (a ∷ xs) [] = false
same_text (a ∷ xs) (b ∷ ys) = a == b && same_text xs ys

-- C's `isspace` in the "C" locale.
abbrev pub is_space : ℕ → Bool
is_space c = c == 0x20 || (leb 0x09 c && leb c 0x0d)

abbrev pub no_space : Text → Bool
no_space [] = true
no_space (c ∷ cs) = if c == 0x3d || is_space c then false else no_space cs

-- "help"
abbrev pub help_text : Text
help_text = 0x68 ∷ 0x65 ∷ 0x6c ∷ 0x70 ∷ []

unfoldable pub long_name_valid : Option Text → Bool
long_name_valid none = false
long_name_valid (some []) = false
long_name_valid (some (c ∷ cs)) =
    if c == 0x2d
    then false
    else if not (no_space (c ∷ cs))
    then false
    else not (same_text (c ∷ cs) help_text)

unfoldable pub short_name_valid : ℕ → Bool
short_name_valid name =
    name == 0
    || (not (name == 0x68) && not (name == 0x2d) && not (name == 0x3d) && not (is_space name))

-- The index of the first option of a short name.
abbrev pub find_short : List OptionData → ℕ → Option ℕ
find_short [] name = none
find_short (option ∷ options) name =
    let rest = Option.map suc (find_short options name) in
    if option.spec.short_name == name then some 0 else rest

abbrev pub is_long : OptionData → Text → Bool
is_long option name = elim (option.spec.long_name) [
  | none ↦ false
  | some candidate ↦ same_text candidate name
]

abbrev pub find_long : List OptionData → Text → Option ℕ
find_long [] name = none
find_long (option ∷ options) name =
    let rest = Option.map suc (find_long options name) in
    if is_long option name then some 0 else rest

abbrev pub is_found : Option ℕ → Bool
is_found none = false
is_found (some i) = true

abbrev pub short_conflicts : List OptionData → ℕ → Bool
short_conflicts options name = not (name == 0) && is_found (find_short options name)

abbrev pub long_conflicts : List OptionData → Option Text → Bool
long_conflicts options none = false
long_conflicts options (some name) = is_found (find_long options name)

unfoldable pub option_conflicts : List OptionData → Spec → Bool
option_conflicts options option =
    short_conflicts options option.short_name || long_conflicts options option.long_name
