-- ===== src/Cli/Tests.antt =====
-- Runs and an instance of the theorem on a parser of two options and a positional.
use liblor.Common.{length, ◌+◌, ◌≡◌, refl, true, none, some, [], ◌∷◌}
use liblor.Status.{ok, invalid_argument}
use liblor.Cli.{
  Text, flag, string, int, Spec, Positional, Cli, cli_init, long_name_valid, short_name_valid,
  option_conflicts,
}
use liblor.Cli.Registration.{Memory, add_option, add_positional, simple_option}
use liblor.Cli.Registered.{
  IsRegistered, inits, adds_option, adds_positional, Registers-IsRegistered,
}

abbrev plenty : Memory
plenty = record {
  pushed = ok;
  assigned = λ text. ok;
  value_text = λ kind destination. some (0x37 ∷ []);
}

-- "name", "n" and "file"
abbrev name_text : Text
name_text = 0x6e ∷ 0x61 ∷ 0x6d ∷ 0x65 ∷ []

abbrev file_text : Text
file_text = 0x66 ∷ 0x69 ∷ 0x6c ∷ 0x65 ∷ []

abbrev name_option : Spec
name_option = simple_option 0x6e (some name_text) none

abbrev file_item : Positional
file_item = record { name = some file_text; help = none; required = true }

abbrev started : Cli
started = cli_init none none

abbrev with_name : Cli
with_name = (add_option plenty started name_option int 100).1

abbrev with_file : Cli
with_file = (add_positional ok with_name file_item string 200).1

Registers-IsRegistered_example : IsRegistered with_file
Registers-IsRegistered_example = Registers-IsRegistered {cli = with_file} (
    adds_positional ok file_item string 200
      (adds_option plenty name_option int 100 (inits none none)))

added : length with_file.options + length with_file.positionals ≡ 2
unfolding add_option add_positional option_conflicts long_name_valid short_name_valid
added = refl

-- The short name is taken.
refused : (add_option plenty with_name (simple_option 0x6e none none) flag 300).0 ≡ invalid_argument
unfolding add_option option_conflicts long_name_valid short_name_valid
refused = refl
