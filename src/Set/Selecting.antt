-- ===== src/Set/Selecting.antt =====
-- src/set.c: looking for keys in a set, and the loops that add keys to one.
use mathlib.Core.Option
use liblor.Common.{
  ◌==◌, if◌then◌else◌, length, set, size_max, ℕ, ◌+◌, ◌≤◌, ◌≡◌, refl, sym, ◌∙◌, ◌↔◌, ◌⊎◌, inl, inr,
  Bool, true, false, not, Option, none, some, List, [], ◌∷◌, arith,
}
use liblor.Map.{key_is_valid}
use liblor.Map.Reserve.{Allocator}
use liblor.Map.Ops.{find_entry, contains_key}
use liblor.Map.Inv.{entries_of}
use liblor.Map.Looking.{Finds, find_entry_lem}
use liblor.Set.{Set, key_address, has_layout, add_key, set_contains}
use liblor.Set.Ops.{and_then, add_all, add_selected}
use liblor.Set.Policy.{
  IsEquality, Holds, SetHandleIsSound, Agrees-Respects, SetIsValid, SetHandleIsValid,
  SetHandleIsValid-IsSound, Holds-at, not_Holds, Holds-same,
}
use liblor.Set.Adding.{Ends, Ends-nothing, Ends-map, Ends-then, add_key_lem}

module _ {K : Type 0} where
  -- The set's test of keys accepts this one.
  abbrev pub Accepts : Option (Set K) → K → Type 0
  Accepts none key = Unit {0}
  Accepts (some s) key = key_is_valid s key ≡ true

  abbrev pub AllAccepted : Option (Set K) → List (K × Unit {0}) → Type 0
  AllAccepted set [] = Unit {0}
  AllAccepted set (entry ∷ entries) = Accepts set entry.0 × AllAccepted set entries

  -- The keys of a list that are selected: those that the other set holds, or those it does not.
  abbrev pub Selected : (K → K → Bool) → Bool → List (K × Unit {0}) → K → Type 0
  Selected same true other key = Holds same other key
  Selected same false other key = Holds same other key → ⊥

module _ {K : Type 0} (bytes : K → List ℕ) (same : K → K → Bool) where
  -- Looking for a key that a sound set accepts, with the set's layout, loses no search and answers
  -- whether the set holds the key; a NULL set holds none.
  pub set_contains_lem :
      (element_size : ℕ) (key : K) (set : Option (Set K))
      → SetHandleIsSound bytes same set
      → (element_size == 0) ≡ false
      → has_layout set element_size ≡ true
      → Accepts set key
      → (there : Bool) × (set_contains bytes element_size (some key) set ≡ some there)
        × ((there ≡ true) ↔ Holds same (entries_of set) key)
  unfolding set_contains contains_key find_entry
  set_contains_lem element_size key none v nonzero fits good =
      (false, refl, ((λ e. absurd (cc)), (λ h. absurd h)))
  set_contains_lem element_size key (some s) v nonzero fits good =
      let (out, is, finds) =
        find_entry_lem bytes element_size element_size s key v.valid
          (Agrees-Respects bytes same s v.means) in
      rw is (answered out finds)
    where
      answered :
          (out : Option ℕ)
          → Finds bytes element_size element_size s key out
          → (there : Bool) × (Option.map
                (λ at_index. elim at_index [ none ↦ false | some index ↦ true ])
                (some out)
              ≡ some there)
            × ((there ≡ true) ↔ Holds same s.entries key)
      answered (some j) finds =
          let (old, found_at, e) = finds.hits j refl in
          (
            true,
            refl,
            (
              (λ _.
                  Holds-at same s.entries j old key found_at
                    (sym (v.means.equal_is old.0 key) ∙ e)),
              (λ _. refl),
            ),
          )
      answered none finds =
          let none_same = finds.misses refl (ground arith) good in
          (
            false,
            refl,
            (
              (λ e. absurd (cc)),
              (λ h. absurd (
                  not_Holds same s.entries key
                    (λ j old e. sym (v.means.equal_is old.0 key) ∙ none_same j old e) h)),
            ),
          )

  module _ (memory : Allocator) (equality : IsEquality same) where
    add_all-step :
        (element_size base : ℕ) (entry : K × Unit {0}) (entries : List (K × Unit {0})) (i : ℕ)
        (result : Option (Set K))
        → add_all memory bytes element_size base (entry ∷ entries) i result
          ≡ Option.bind
              (add_key memory bytes element_size (key_address base element_size i) entry.0 result)
              (λ out. and_then out (add_all memory bytes element_size base entries (i + 1)))
    unfolding add_all
    add_all-step element_size base entry entries i result = refl

    -- Adding all keys of a list.
    pub add_all_lem :
        (element_size base : ℕ) (entries : List (K × Unit {0})) (i : ℕ) (s : Set K)
        → SetIsValid bytes same s
        → length s.entries + length entries ≤ size_max
        → Ends bytes same s
            (Holds same entries)
            (length entries)
            (add_all memory bytes element_size base entries i (some s))
    add_all_lem element_size base [] i s v small =
        unfold add_all in Ends-nothing bytes same s _ v (λ key h. h)
    add_all_lem element_size base (entry ∷ entries) i s v small =
        rw (add_all-step element_size base entry entries i (some s)) (
          Ends-map bytes same s _ (Holds same (entry ∷ entries)) (1 + length entries) _ _
            (omega arith) (λ key h. h) (λ key h. h)
            (Ends-then bytes same s (λ k. same entry.0 k ≡ true) (Holds same entries) 1
              (length entries) _ (add_all memory bytes element_size base entries (i + 1))
              (add_key_lem bytes same memory equality element_size _ entry.0 s v (omega arith))
              (λ t p.
                add_all_lem element_size base entries (i + 1) t p.valid (omega (arith, p.longer)))))

    Selected-same :
        (wanted : Bool) (other : List (K × Unit {0})) (x y : K)
        → same x y ≡ true
        → Selected same wanted other x
        → Selected same wanted other y
    Selected-same true other x y e h = Holds-same same equality other x y e h
    Selected-same false other x y e never =
        λ h. never (Holds-same same equality other y x (equality.symmetric x y e) h)

    Selected-answer :
        (wanted there : Bool) (other : List (K × Unit {0})) (key : K)
        → ((there ≡ true) ↔ Holds same other key)
        → (((if there then wanted else not wanted) ≡ true) × Selected same wanted other key)
          ⊎ (((if there then wanted else not wanted) ≡ false)
              × (Selected same wanted other key → ⊥))
    Selected-answer true true other key (f, g) = inl (refl, f refl)
    Selected-answer true false other key (f, g) = inr (refl, (λ h. let e = g h in cc))
    Selected-answer false true other key (f, g) = inr (refl, (λ never. never (f refl)))
    Selected-answer false false other key (f, g) = inl (refl, (λ h. let e = g h in cc))

    add_selected-step :
        (element_size base : ℕ) (wanted : Bool) (other : Option (Set K)) (entry : K × Unit {0})
        (entries : List (K × Unit {0})) (i : ℕ) (result : Option (Set K)) (there picked : Bool)
        → set_contains bytes element_size (some entry.0) other ≡ some there
        → (if there then wanted else not wanted) ≡ picked
        → add_selected memory bytes element_size base wanted other (entry ∷ entries) i result ≡ (
            if picked
            then Option.bind
                (add_key memory bytes element_size (key_address base element_size i) entry.0 result)
                (λ out.
                  and_then out
                    (add_selected memory bytes element_size base wanted other entries (i + 1)))
            else add_selected memory bytes element_size base wanted other entries (i + 1) result)
    unfolding add_selected Option.bind
    add_selected-step element_size base wanted other entry entries i result there picked is e =
        rw (is, e) refl

    -- Adding the selected keys of a list.
    pub add_selected_lem :
        (element_size base : ℕ) (wanted : Bool) (other : Option (Set K))
        (entries : List (K × Unit {0})) (i : ℕ) (s : Set K)
        → SetIsValid bytes same s
        → SetHandleIsValid bytes same other
        → (element_size == 0) ≡ false
        → has_layout other element_size ≡ true
        → AllAccepted other entries
        → length s.entries + length entries ≤ size_max
        → Ends bytes same s
            (λ key. Holds same entries key × Selected same wanted (entries_of other) key)
            (length entries)
            (add_selected memory bytes element_size base wanted other entries i (some s))
    add_selected_lem element_size base wanted other [] i s v w nonzero fits accepted small =
        unfold add_selected in Ends-nothing bytes same s _ v (λ key (h, _). h)
    add_selected_lem element_size base wanted other (entry ∷ entries) i s v w nonzero fits accepted
          small =
        let (there, is, answer) =
          set_contains_lem element_size entry.0 other (SetHandleIsValid-IsSound bytes same other w)
            nonzero fits accepted.0 in
        let step = λ (picked : Bool) (e : (if there then wanted else not wanted) ≡ picked).
          add_selected-step element_size base wanted other entry entries i (some s) there picked is
            e in
        let All : K → Type 0 =
          λ key. Holds same (entry ∷ entries) key × Selected same wanted (entries_of other) key in
        let Rest : K → Type 0 =
          λ key. Holds same entries key × Selected same wanted (entries_of other) key in
        let rest =
          λ (t : Set K) (vt : SetIsValid bytes same t)
              (m : length t.entries + length entries ≤ size_max).
            add_selected_lem element_size base wanted other entries (i + 1) t vt w nonzero fits
              accepted.1 m in
        elim (Selected-answer wanted there (entries_of other) entry.0 answer) [
          | inl (taken, chosen) ↦ rw (step true taken) (
              Ends-map bytes same s _ All (1 + length entries) _ _ (omega arith)
                (λ key h. elim h [
                  | inl e ↦ (inl e, Selected-same wanted (entries_of other) entry.0 key e chosen)
                  | inr (held, sel) ↦ (inr held, sel)
                ])
                (λ key (held, sel). elim held [ inl e ↦ inl e | inr h ↦ inr (h, sel) ])
                (Ends-then bytes same s (λ k. same entry.0 k ≡ true) Rest 1 (length entries) _
                  (add_selected memory bytes element_size base wanted other entries (i + 1))
                  (add_key_lem bytes same memory equality element_size _ entry.0 s v (omega arith))
                  (λ t p. rest t p.valid (omega (arith, p.longer)))))
          | inr (left, never) ↦ rw (step false left) (
              Ends-map bytes same s Rest All (length entries) _ _ (omega arith)
                (λ key (h, sel). (inr h, sel))
                (λ key (held, sel). elim held [
                  | inl e ↦ absurd (
                      never (
                        Selected-same wanted (entries_of other) key entry.0
                          (equality.symmetric entry.0 key e) sel))
                  | inr h ↦ (h, sel)
                ])
                (rest s v (omega arith)))
        ]
