-- ===== src/Cli/Registered.antt =====
-- src/cli.c: what stays true of a parser while options and positionals are added.
use liblor.Common.{
  ◌==◌, Bool-cases, ℕ, ◌≡◌, refl, inl, inr, true, false, not, ◌&&◌, ◌||◌, Option, none, some, List,
  [], ◌∷◌, ◌++◌, arith,
}
use liblor.Status.{
  Status, ok, invalid_argument, out_of_memory, overflow, system_error, timed_out, closed,
}
use liblor.Cli.{
  Text, ValueKind, flag, count, string, int, double, strings, ints, doubles, positionals, Spec,
  OptionData, Positional, PositionalData, Cli, cli_init, long_name_valid, short_name_valid,
  option_conflicts,
}
use liblor.Cli.Names.{IsDistinct, IsNew, append-IsDistinct, option_conflicts-IsNew}
use liblor.Cli.Registration.{
  Memory, is_rest, capture_default, with_value_name, settled, new_option, when_ok, is_given,
  option_is_refused, add_option, has_rest, last_required, has_name, add_positional,
}
use liblor.Channel.{also}

-- The names that an option may have: one at least, and only allowed ones.
pub record IsNamed (spec : Spec) : Type 0 where
  pub some_name : (spec.short_name == 0 && not (is_given spec.long_name)) ≡ false
  pub short_valid : short_name_valid spec.short_name ≡ true
  pub long_valid : (is_given spec.long_name && not (long_name_valid spec.long_name)) ≡ false

abbrev pub AllNamed : List OptionData → Type 0
AllNamed [] = Unit
AllNamed (option ∷ options) = IsNamed option.spec × AllNamed options

-- A required positional follows only required ones, and the one that takes the rest is the last.
abbrev pub IsOrdered : List PositionalData → Type 0
IsOrdered [] = Unit
IsOrdered (item ∷ []) = Unit
IsOrdered (item ∷ next ∷ items) =
    (is_rest item.kind ≡ false)
    × (next.spec.required ≡ true → item.spec.required ≡ true)
    × IsOrdered (next ∷ items)

pub record IsRegistered (cli : Cli) : Type 0 where
  pub distinct : IsDistinct cli.options
  pub named : AllNamed cli.options
  pub ordered : IsOrdered cli.positionals

-- A parser after calls that add to it, whichever succeed.
pub data Registers : Cli → Type 0 where
  inits : (program_name description : Option Text) → Registers (cli_init program_name description)
  adds_option :
      {cli : Cli} (memory : Memory) (option : Spec) (kind : ValueKind) (destination : ℕ)
      → Registers cli
      → Registers (add_option memory cli option kind destination).1
  adds_positional :
      {cli : Cli} (pushed : Status) (positional : Positional) (kind : ValueKind) (destination : ℕ)
      → Registers cli
      → Registers (add_positional pushed cli positional kind destination).1

append-AllNamed :
    (options : List OptionData) (last : OptionData)
    → AllNamed options
    → IsNamed last.spec
    → AllNamed (options ++ (last ∷ []))
append-AllNamed [] last named new = (new, tt)
append-AllNamed (option ∷ options) last (own, rest) new =
    (own, append-AllNamed options last rest new)

append-IsOrdered :
    (items : List PositionalData) (last : PositionalData)
    → IsOrdered items
    → has_rest items ≡ false
    → (last.spec.required ≡ true → last_required items ≡ true)
    → IsOrdered (items ++ (last ∷ []))
append-IsOrdered [] last ordered no_rest required = tt
append-IsOrdered (item ∷ []) last ordered no_rest required = (no_rest, required, tt)
append-IsOrdered (item ∷ next ∷ items) last (not_rest, own, rest) no_rest required =
    (not_rest, own, append-IsOrdered (next ∷ items) last rest no_rest required)

when_ok_keeps :
    (status : Status) {before after : Cli}
    → IsRegistered before
    → IsRegistered after
    → IsRegistered (when_ok status before after).1
when_ok_keeps ok old new = new
when_ok_keeps invalid_argument old new = old
when_ok_keeps out_of_memory old new = old
when_ok_keeps overflow old new = old
when_ok_keeps system_error old new = old
when_ok_keeps timed_out old new = old
when_ok_keeps closed old new = old

value_name_names :
    (option : Spec) (kind : ValueKind) (name : Option Text)
    → ((with_value_name option kind name).short_name ≡ option.short_name)
      × ((with_value_name option kind name).long_name ≡ option.long_name)
value_name_names option kind none = (refl, refl)
value_name_names option kind (some name) = (refl, refl)

-- The specification that is kept has the names that were passed.
settled_names :
    (option : Spec) (kind : ValueKind)
    → ((settled option kind).short_name ≡ option.short_name)
      × ((settled option kind).long_name ≡ option.long_name)
settled_names option flag = (refl, refl)
settled_names option count = (refl, refl)
settled_names option string = value_name_names option string option.value_name
settled_names option int = value_name_names option int option.value_name
settled_names option double = value_name_names option double option.value_name
settled_names option strings = value_name_names option strings option.value_name
settled_names option ints = value_name_names option ints option.value_name
settled_names option doubles = value_name_names option doubles option.value_name
settled_names option positionals = value_name_names option positionals option.value_name

-- An option of a name that is allowed and new.
new_IsRegistered :
    (cli : Cli) (made : OptionData) (option : Spec)
    → IsRegistered cli
    → (made.spec.short_name ≡ option.short_name) × (made.spec.long_name ≡ option.long_name)
    → IsNew option cli.options
    → IsNamed option
    → IsRegistered (record cli { options = cli.options ++ (made ∷ []) })
new_IsRegistered cli made option registered (short, long) new named = record {
  distinct =
      append-IsDistinct cli.options made registered.distinct
        (record { short_new = rw short new.short_new; long_new = rw long new.long_new });
  named = append-AllNamed cli.options made registered.named (record {
    some_name = rw (short, long) named.some_name;
    short_valid = rw short named.short_valid;
    long_valid = rw long named.long_valid;
  });
  ordered = registered.ordered;
}

add_option-IsRegistered :
    (memory : Memory) (cli : Cli) (option : Spec) (kind : ValueKind) (destination : ℕ)
    → IsRegistered cli
    → IsRegistered (add_option memory cli option kind destination).1
unfolding add_option
add_option-IsRegistered memory cli option kind destination registered =
    elim (Bool-cases (option_is_refused cli option destination)) [
      | inl refused ↦ rw (add_option, refused) registered
      | inr taken ↦
          let some_name : option.short_name == 0 && not (is_given option.long_name) ≡ false =
            ground arith in
          let short_valid : short_name_valid option.short_name ≡ true = ground arith in
          let long_valid : is_given option.long_name && not (long_name_valid option.long_name)
              ≡ false =
            ground arith in
          let clear : option_conflicts cli.options option ≡ false = ground arith in
          let out = capture_default memory (new_option option kind destination) in
          rw (add_option, taken)
            (when_ok_keeps (also out.0 memory.pushed) registered (
              new_IsRegistered cli
                (record (new_option option kind destination) { default_text = out.1 }) option
                registered (settled_names option kind)
                (option_conflicts-IsNew cli.options option clear)
                (record {
                  some_name = some_name;
                  short_valid = short_valid;
                  long_valid = long_valid;
                })))
    ]

add_positional-IsRegistered :
    (pushed : Status) (cli : Cli) (positional : Positional) (kind : ValueKind) (destination : ℕ)
    → IsRegistered cli
    → IsRegistered (add_positional pushed cli positional kind destination).1
unfolding add_positional
add_positional-IsRegistered pushed cli positional kind destination registered =
    elim (Bool-cases (
      destination == 0
      || cli.parsed
      || not (has_name positional.name)
      || has_rest cli.positionals)) [
        | inl refused ↦ rw (add_positional, refused) registered
        | inr taken ↦
            elim (Bool-cases (positional.required && not (last_required cli.positionals))) [
              | inl refused ↦ rw (add_positional, taken, refused) registered
              | inr in_order ↦
                  let no_rest : has_rest cli.positionals ≡ false = ground arith in
                  let made : PositionalData = record {
                    spec = positional;
                    kind = kind;
                    destination = destination;
                    occurrences = 0;
                  } in
                  rw (add_positional, taken, in_order)
                    (when_ok_keeps pushed registered (record {
                      distinct = registered.distinct;
                      named = registered.named;
                      ordered =
                          append-IsOrdered cli.positionals made registered.ordered no_rest
                            (λ required. ground arith);
                    }))
            ]
      ]

-- However options and positionals are added to a parser, and whichever of these calls are refused or
-- run out of memory: no two of its options share a short or a long name; each option has a name, and
-- only allowed names; a required positional follows only required ones; and only the last positional
-- takes the rest of the arguments.
pub Registers-IsRegistered : {cli : Cli} → Registers cli → IsRegistered cli
Registers-IsRegistered (inits program_name description) = record {
  distinct = tt;
  named = tt;
  ordered = tt;
}
Registers-IsRegistered (adds_option memory option kind destination before) =
    add_option-IsRegistered memory _ option kind destination (Registers-IsRegistered before)
Registers-IsRegistered (adds_positional pushed positional kind destination before) =
    add_positional-IsRegistered pushed _ positional kind destination (Registers-IsRegistered before)
