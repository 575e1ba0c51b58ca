-- ===== src/Cli/Names.antt =====
-- src/cli.c: options of distinct names.
use liblor.Common.{
  ◌==◌, Bool-cases, Option-cases, ℕ, ◌≡◌, refl, sym, ap₂, subst, ◌∙◌, inl, inr, Bool, true, false,
  ◌&&◌, ◌||◌, Option, none, some, List, [], ◌∷◌, ◌++◌, arith,
}
use liblor.Cli.{
  Text, Spec, OptionData, same_text, find_short, is_long, find_long, is_found, short_conflicts,
  long_conflicts, option_conflicts,
}

-- Each option's names are found at no later option.
abbrev pub IsDistinct : List OptionData → Type 0
IsDistinct [] = Unit
IsDistinct (option ∷ options) =
    (option.spec.short_name == 0 ≡ false → find_short options option.spec.short_name ≡ none)
    × ((name : Text) → option.spec.long_name ≡ some name → find_long options name ≡ none)
    × IsDistinct options

-- No option has a name of a specification.
pub record IsNew (spec : Spec) (options : List OptionData) : Type 0 where
  pub short_new : spec.short_name == 0 ≡ false → find_short options spec.short_name ≡ none
  pub long_new : (name : Text) → spec.long_name ≡ some name → find_long options name ≡ none

eq_sym : (m n : ℕ) → (m == n) ≡ (n == m)
eq_sym m n = elim (Bool-cases (n == m)) [
  | inl e ↦ let back : m == n ≡ true = ground arith in back ∙ sym e
  | inr e ↦ let back : m == n ≡ false = ground arith in back ∙ sym e
]

same_text_sym : (a b : Text) → same_text a b ≡ same_text b a
same_text_sym [] [] = refl
same_text_sym [] (y ∷ ys) = refl
same_text_sym (x ∷ xs) [] = refl
same_text_sym (x ∷ xs) (y ∷ ys) = ap₂ (λ p q. p && q) (eq_sym x y) (same_text_sym xs ys)

find_short_tail :
    (name : ℕ) (option : OptionData) (options : List OptionData)
    → find_short (option ∷ options) name ≡ none
    → (option.spec.short_name == name ≡ false) × (find_short options name ≡ none)
find_short_tail name option options e = elim (Bool-cases (option.spec.short_name == name)) [
  | inl this ↦ let clash = simp this at e in cc
  | inr other ↦ elim (Option-cases (find_short options name)) [
    | inl nothing ↦ (other, nothing)
    | inr (i, found) ↦ let clash = simp (other, found) at e in cc
  ]
]

find_long_tail :
    (name : Text) (option : OptionData) (options : List OptionData)
    → find_long (option ∷ options) name ≡ none
    → (is_long option name ≡ false) × (find_long options name ≡ none)
find_long_tail name option options e = elim (Bool-cases (is_long option name)) [
  | inl this ↦ let clash = simp this at e in cc
  | inr other ↦ elim (Option-cases (find_long options name)) [
    | inl nothing ↦ (other, nothing)
    | inr (i, found) ↦ let clash = simp (other, found) at e in cc
  ]
]

find_short-append :
    (name : ℕ) (options : List OptionData) (last : OptionData)
    → find_short options name ≡ none
    → last.spec.short_name == name ≡ false
    → find_short (options ++ (last ∷ [])) name ≡ none
find_short-append name [] last e other = rw other refl
find_short-append name (option ∷ options) last e other =
    let (not_this, rest) = find_short_tail name option options e in
    rw (not_this, find_short-append name options last rest other) refl

find_long-append :
    (name : Text) (options : List OptionData) (last : OptionData)
    → find_long options name ≡ none
    → is_long last name ≡ false
    → find_long (options ++ (last ∷ [])) name ≡ none
find_long-append name [] last e other = rw other refl
find_long-append name (option ∷ options) last e other =
    let (not_this, rest) = find_long_tail name option options e in
    rw (not_this, find_long-append name options last rest other) refl

is_long-some :
    (option : OptionData) (own name : Text)
    → option.spec.long_name ≡ some own
    → is_long option name ≡ same_text own name
is_long-some option own name e = rw e refl

-- An option that has not the long name of another is not called by that of the other.
is_long_other :
    (option last : OptionData) (options : List OptionData) (name : Text)
    → IsNew last.spec (option ∷ options)
    → option.spec.long_name ≡ some name
    → is_long last name ≡ false
is_long_other option last options name new own = elim (Option-cases (last.spec.long_name)) [
  | inl nothing ↦ rw nothing refl
  | inr (text, its) ↦
      let other = (find_long_tail text option options (new.long_new text its)).0 in
      let apart = sym (is_long-some option name text own) ∙ other in
      rw (its, same_text_sym text name, apart) refl
]

IsNew-tail :
    (spec : Spec) (option : OptionData) (options : List OptionData)
    → IsNew spec (option ∷ options)
    → IsNew spec options
IsNew-tail spec option options new = record {
  short_new = λ given. (find_short_tail spec.short_name option options (new.short_new given)).1;
  long_new = λ name its. (find_long_tail name option options (new.long_new name its)).1;
}

short_other :
    (option last : OptionData) (options : List OptionData)
    → IsNew last.spec (option ∷ options)
    → option.spec.short_name == 0 ≡ false
    → last.spec.short_name == option.spec.short_name ≡ false
short_other option last options new given = elim (Bool-cases (last.spec.short_name == 0)) [
  | inl null ↦ ground arith
  | inr named ↦
      let other = (find_short_tail last.spec.short_name option options (new.short_new named)).0 in
      eq_sym last.spec.short_name option.spec.short_name ∙ other
]

-- A new option is distinct from those that are there.
pub append-IsDistinct :
    (options : List OptionData) (last : OptionData)
    → IsDistinct options
    → IsNew last.spec options
    → IsDistinct (options ++ (last ∷ []))
append-IsDistinct [] last distinct new = ((λ given. refl), (λ name its. refl), tt)
append-IsDistinct (option ∷ options) last (short, long, rest) new = (
  (λ given.
      find_short-append option.spec.short_name options last (short given)
        (short_other option last options new given)),
  (λ name its.
      find_long-append name options last (long name its)
        (is_long_other option last options name new its)),
  append-IsDistinct options last rest (IsNew-tail last.spec option options new),
)

pub both_false : (a b : Bool) → a || b ≡ false → (a ≡ false) × (b ≡ false)
both_false true b e = cc
both_false false b e = (refl, e)

not_found : {found : Option ℕ} → is_found found ≡ false → found ≡ none
not_found {found = none} e = refl
not_found {found = some i} e = cc

-- Where the code finds no conflict, a specification is new.
pub option_conflicts-IsNew :
    (options : List OptionData) (spec : Spec)
    → option_conflicts options spec ≡ false
    → IsNew spec options
unfolding option_conflicts
option_conflicts-IsNew options spec clear =
    let (short, long) =
      both_false (short_conflicts options spec.short_name) (long_conflicts options spec.long_name)
        clear in
    record {
      short_new = λ given. not_found (simp given at short);
      long_new = λ name its. not_found (subst (λ o. long_conflicts options o ≡ false) its long);
    }
