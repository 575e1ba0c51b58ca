-- ===== src/Cli/Registration.antt =====
-- src/cli.c: lor_cli__add_option, lor_cli__add_positional and the functions that call them.
use liblor.Common.{
  ◌==◌, if◌then◌else◌, ℕ, Bool, true, false, not, ◌&&◌, ◌||◌, Option, none, some, List, [], ◌∷◌,
  ◌++◌,
}
use liblor.Status.{Status, ok, invalid_argument}
use liblor.Cli.{
  Text, ValueKind, flag, count, string, int, double, strings, ints, doubles, positionals, Spec,
  OptionData, Positional, PositionalData, Cli, long_name_valid, short_name_valid, option_conflicts,
}
use liblor.Channel.{also}

-- How the memory of the arrays and default texts is given: the status of `lor_array_push` and of
-- the assignment of a text; and the text of a destination's value, none for a view without one.
pub record Memory : Type 0 where
  pub pushed : Status
  pub assigned : Text → Status
  pub value_text : ValueKind → ℕ → Option Text

abbrev pub takes_value : ValueKind → Bool
takes_value flag = false
takes_value count = false
takes_value _ = true

abbrev pub is_list : ValueKind → Bool
is_list strings = true
is_list ints = true
is_list doubles = true
is_list _ = false

abbrev pub is_rest : ValueKind → Bool
is_rest positionals = true
is_rest _ = false

-- "TEXT", "INT" and "NUMBER"
abbrev pub default_value_name : ValueKind → Option Text
default_value_name string = some (0x54 ∷ 0x45 ∷ 0x58 ∷ 0x54 ∷ [])
default_value_name strings = some (0x54 ∷ 0x45 ∷ 0x58 ∷ 0x54 ∷ [])
default_value_name int = some (0x49 ∷ 0x4e ∷ 0x54 ∷ [])
default_value_name ints = some (0x49 ∷ 0x4e ∷ 0x54 ∷ [])
default_value_name double = some (0x4e ∷ 0x55 ∷ 0x4d ∷ 0x42 ∷ 0x45 ∷ 0x52 ∷ [])
default_value_name doubles = some (0x4e ∷ 0x55 ∷ 0x4d ∷ 0x42 ∷ 0x45 ∷ 0x52 ∷ [])
default_value_name _ = none

-- The text of a default, or the status of its failure.
unfoldable pub capture_default : Memory → OptionData → Status × Option Text
capture_default memory option =
    if not option.spec.show_default
      || not (takes_value option.kind)
      || is_list option.kind
      || is_rest option.kind
    then (ok, none)
    else elim (memory.value_text option.kind option.destination) [
      | none ↦ (ok, none)
      | some text ↦ elim (memory.assigned text) [ ok ↦ (ok, some text) | failed ↦ (failed, none) ]
    ]

abbrev pub with_value_name : Spec → ValueKind → Option Text → Spec
with_value_name option kind none = record option { value_name = default_value_name kind }
with_value_name option kind (some name) = option

-- The specification that is kept, with what the kind settles.
abbrev pub settled : Spec → ValueKind → Spec
settled option flag = record option { value_name = none; show_default = false }
settled option count = record option { value_name = none; show_default = false; repeatable = true }
settled option kind =
    let named = with_value_name option kind option.value_name in
    if is_list kind then record named { repeatable = true; show_default = false } else named

abbrev pub new_option : Spec → ValueKind → ℕ → OptionData
new_option option kind destination = record {
  spec = settled option kind;
  kind = kind;
  destination = destination;
  occurrences = 0;
  default_text = none;
}

-- A parser that changes where a call succeeds.
abbrev pub when_ok : Status → Cli → Cli → Status × Cli
when_ok ok before after = (ok, after)
when_ok failed before after = (failed, before)

-- `lor_array_push` of an option after its default is captured.
abbrev pub push_option : Memory → OptionData → Status × Option Text → Cli → Status × Cli
push_option memory option (captured, text) cli =
    when_ok (also captured memory.pushed) cli
      (record cli { options = cli.options ++ (record option { default_text = text } ∷ []) })

abbrev pub is_given : Option Text → Bool
is_given none = false
is_given (some text) = true

abbrev pub option_is_refused : Cli → Spec → ℕ → Bool
option_is_refused cli option destination =
    destination == 0
    || cli.parsed
    || (option.short_name == 0 && not (is_given option.long_name))
    || not (short_name_valid option.short_name)
    || (is_given option.long_name && not (long_name_valid option.long_name))
    || option_conflicts cli.options option

unfoldable pub add_option : Memory → Cli → Spec → ValueKind → ℕ → Status × Cli
unfolding capture_default
add_option memory cli option kind destination =
    let made = new_option option kind destination in
    if option_is_refused cli option destination
    then (invalid_argument, cli)
    else push_option memory made (capture_default memory made) cli

abbrev pub has_rest : List PositionalData → Bool
has_rest [] = false
has_rest (item ∷ []) = is_rest item.kind
has_rest (item ∷ next ∷ items) = has_rest (next ∷ items)

-- Whether the last positional, if there is one, is required.
abbrev pub last_required : List PositionalData → Bool
last_required [] = true
last_required (item ∷ []) = item.spec.required
last_required (item ∷ next ∷ items) = last_required (next ∷ items)

abbrev pub has_name : Option Text → Bool
has_name none = false
has_name (some []) = false
has_name (some (c ∷ cs)) = true

unfoldable pub add_positional : Status → Cli → Positional → ValueKind → ℕ → Status × Cli
add_positional pushed cli positional kind destination =
    let made : PositionalData = record {
      spec = positional;
      kind = kind;
      destination = destination;
      occurrences = 0;
    } in
    if destination == 0 || cli.parsed || not (has_name positional.name) || has_rest cli.positionals
    then (invalid_argument, cli)
    else if positional.required && not (last_required cli.positionals)
    then (invalid_argument, cli)
    else when_ok pushed cli (record cli { positionals = cli.positionals ++ (made ∷ []) })

-- `lor_cli__simple_option`: an option of a name and a help text, else as LOR_CLI_OPTION_INIT.
abbrev pub simple_option : ℕ → Option Text → Option Text → Spec
simple_option short_name long_name help = record {
  short_name = short_name;
  long_name = long_name;
  value_name = none;
  help = help;
  required = false;
  repeatable = false;
  show_default = true;
}

-- The functions of a flag, a string, an int or a double.
abbrev pub add_simple : Memory → Cli → ℕ → Option Text → ValueKind → ℕ → Option Text → Status × Cli
add_simple memory cli short_name long_name kind destination help =
    add_option memory cli (simple_option short_name long_name help) kind destination

abbrev pub add_count : Memory → Cli → ℕ → Option Text → ℕ → Option Text → Status × Cli
add_count memory cli short_name long_name destination help =
    add_option memory cli (record (simple_option short_name long_name help) { repeatable = true })
      count destination

-- The functions of strings, ints and doubles: `handle` is what the destination holds.
abbrev pub add_list_option : Memory → Cli → Spec → ValueKind → ℕ → ℕ → Status × Cli
add_list_option memory cli option kind destination handle =
    if destination == 0 || not (handle == 0)
    then (invalid_argument, cli)
    else add_option memory cli option kind destination

abbrev pub add_positionals : Status → Cli → Option Text → ℕ → ℕ → Option Text → Status × Cli
add_positionals pushed cli name destination handle help =
    if destination == 0 || not (handle == 0)
    then (invalid_argument, cli)
    else add_positional pushed cli (record { name = name; help = help; required = false })
        positionals destination
