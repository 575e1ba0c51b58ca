-- ===== src/Set/Policy.antt =====
-- What a set holds, by the equality that its callbacks decide.
use liblor.Common.{
  length, get_elem?, set, ℕ, zero, suc, ◌≡◌, refl, sym, ◌∙◌, ◌↔◌, ◌⊎◌, inl, inr, Bool, true, false,
  Option, none, some, List, [], ◌∷◌, ◌++◌,
}
use liblor.Map.{Config, hash_of, keys_equal}
use liblor.Map.Reserve.{empty_map}
use liblor.Map.Inv.{entries_of, MapIsValid}
use liblor.Map.Looking.{Respects}
use liblor.Set.{Set, set_size}

pub record IsEquality {K : Type 0} (same : K → K → Bool) : Type 0 where
  pub reflexive : (x : K) → same x x ≡ true
  pub symmetric : (x y : K) → same x y ≡ true → same y x ≡ true
  pub transitive : (x y z : K) → same x y ≡ true → same y z ≡ true → same x z ≡ true

module _ {K : Type 0} where
  -- Whether one of the entries has the same key.
  abbrev pub Holds : (K → K → Bool) → List (K × Unit {0}) → K → Type 0
  Holds same [] key = ⊥
  Holds same (entry ∷ entries) key = (same entry.0 key ≡ true) ⊎ Holds same entries key

  pub size-entries : (a : Option (Set K)) → set_size a ≡ length (entries_of a)
  size-entries none = refl
  size-entries (some a) = refl

  -- No key is held by the entries after it.
  abbrev pub Distinct : (K → K → Bool) → List (K × Unit {0}) → Type 0
  Distinct same [] = Unit {0}
  Distinct same (entry ∷ entries) = (Holds same entries entry.0 → ⊥) × Distinct same entries

  -- An empty set with these callbacks.
  abbrev policy : Config K → ℕ → Set K
  policy config size = empty_map size size config 0

  -- The callbacks decide this equality and hash the same keys alike.
  pub record Agrees (bytes : K → List ℕ) (same : K → K → Bool) (config : Config K) (size : ℕ)
      : Type 0 where
    pub equal_is : (x y : K) → keys_equal bytes (policy config size) x y ≡ same x y
    pub hash_is :
        (x y : K)
        → same x y ≡ true
        → hash_of bytes (policy config size) x ≡ hash_of bytes (policy config size) y

  -- A set that can be searched, whether it copies its keys as they are or clones them.
  pub record SetIsSound (bytes : K → List ℕ) (same : K → K → Bool) (s : Set K) : Type 0 where
    pub valid : MapIsValid bytes s
    pub means : Agrees bytes same s.config s.key_size
    pub distinct : Distinct same s.entries

  abbrev pub SetHandleIsSound : (K → List ℕ) → (K → K → Bool) → Option (Set K) → Type 0
  SetHandleIsSound bytes same none = Unit {0}
  SetHandleIsSound bytes same (some s) = SetIsSound bytes same s

  pub Agrees-Respects :
      (bytes : K → List ℕ) (same : K → K → Bool) (s : Set K)
      → Agrees bytes same s.config s.key_size
      → Respects bytes s
  Agrees-Respects bytes same s m = λ a b e. m.hash_is a b (sym (m.equal_is a b) ∙ e)

  -- The callbacks also copy keys as they are.
  pub record Means (bytes : K → List ℕ) (same : K → K → Bool) (config : Config K) (size : ℕ)
      : Type 0 where
    pub equal_is : (x y : K) → keys_equal bytes (policy config size) x y ≡ same x y
    pub hash_is :
        (x y : K)
        → same x y ≡ true
        → hash_of bytes (policy config size) x ≡ hash_of bytes (policy config size) y
    pub borrowed : config.clone ≡ none

  pub record SetIsValid (bytes : K → List ℕ) (same : K → K → Bool) (s : Set K) : Type 0 where
    pub valid : MapIsValid bytes s
    pub means : Means bytes same s.config s.key_size
    pub distinct : Distinct same s.entries

  abbrev pub SetHandleIsValid : (K → List ℕ) → (K → K → Bool) → Option (Set K) → Type 0
  SetHandleIsValid bytes same none = Unit {0}
  SetHandleIsValid bytes same (some s) = SetIsValid bytes same s

  pub SetHandleIsValid-IsSound :
      (bytes : K → List ℕ) (same : K → K → Bool) (a : Option (Set K))
      → SetHandleIsValid bytes same a
      → SetHandleIsSound bytes same a
  SetHandleIsValid-IsSound bytes same none v = tt
  SetHandleIsValid-IsSound bytes same (some s) v = record {
    valid = v.valid;
    means = record { equal_is = v.means.equal_is; hash_is = v.means.hash_is };
    distinct = v.distinct;
  }

  pub Means-Respects :
      (bytes : K → List ℕ) (same : K → K → Bool) (s : Set K)
      → Means bytes same s.config s.key_size
      → Respects bytes s
  Means-Respects bytes same s m = λ a b e. m.hash_is a b (sym (m.equal_is a b) ∙ e)

  module _ (same : K → K → Bool) where
    pub Holds-at :
        (entries : List (K × Unit {0})) (j : ℕ) (old : K × Unit {0}) (key : K)
        → get_elem? entries j ≡ some old
        → same old.0 key ≡ true
        → Holds same entries key
    Holds-at [] j old key e h = absurd (cc)
    Holds-at (entry ∷ entries) zero old key e h = inl (let it : entry ≡ old = cc in rw it h)
    Holds-at (entry ∷ entries) (suc j) old key e h = inr (Holds-at entries j old key e h)

    pub not_Holds :
        (entries : List (K × Unit {0})) (key : K)
        → ((j : ℕ) (old : K × Unit {0}) → get_elem? entries j ≡ some old → same old.0 key ≡ false)
        → Holds same entries key
        → ⊥
    not_Holds [] key none_same h = h
    not_Holds (entry ∷ entries) key none_same (inl e) =
        let d = sym e ∙ none_same zero entry refl in cc
    not_Holds (entry ∷ entries) key none_same (inr h) =
        not_Holds entries key (λ j old e. none_same (suc j) old e) h

    pub Holds-append :
        (entries : List (K × Unit {0})) (entry : K × Unit {0}) (key : K)
        → Holds same entries key ⊎ (same entry.0 key ≡ true)
        → Holds same (entries ++ (entry ∷ [])) key
    Holds-append [] entry key (inr e) = inl e
    Holds-append [] entry key (inl h) = absurd h
    Holds-append (first ∷ entries) entry key (inl (inl e)) = inl e
    Holds-append (first ∷ entries) entry key (inl (inr h)) =
        inr (Holds-append entries entry key (inl h))
    Holds-append (first ∷ entries) entry key (inr e) = inr (Holds-append entries entry key (inr e))

    pub Holds-before :
        (entries : List (K × Unit {0})) (entry : K × Unit {0}) (key : K)
        → Holds same (entries ++ (entry ∷ [])) key
        → Holds same entries key ⊎ (same entry.0 key ≡ true)
    Holds-before [] entry key (inl e) = inr e
    Holds-before [] entry key (inr h) = inl h
    Holds-before (first ∷ entries) entry key (inl e) = inl (inl e)
    Holds-before (first ∷ entries) entry key (inr h) = elim (Holds-before entries entry key h) [
      | inl there ↦ inl (inr there)
      | inr e ↦ inr e
    ]

    module _ (equality : IsEquality same) where
      -- The same key is held as well.
      pub Holds-same :
          (entries : List (K × Unit {0})) (x y : K)
          → same x y ≡ true
          → Holds same entries x
          → Holds same entries y
      Holds-same [] x y e h = h
      Holds-same (entry ∷ entries) x y e (inl h) = inl (equality.transitive entry.0 x y h e)
      Holds-same (entry ∷ entries) x y e (inr h) = inr (Holds-same entries x y e h)

      -- An entry that replaces one of the same key changes nothing.
      pub Holds-set :
          (entries : List (K × Unit {0})) (j : ℕ) (old entry : K × Unit {0}) (key : K)
          → get_elem? entries j ≡ some old
          → same old.0 entry.0 ≡ true
          → Holds same entries key ↔ Holds same (set entries j entry) key
      Holds-set [] j old entry key e h = absurd (cc)
      Holds-set (first ∷ entries) zero old entry key e h =
          let it : first ≡ old = cc in
          let there : same first.0 entry.0 ≡ true = rw it h in
          let back = equality.symmetric first.0 entry.0 there in
          (
            (λ held. elim held [
              | inl a ↦ inl (equality.transitive entry.0 first.0 key back a)
              | inr b ↦ inr b
            ]),
            (λ held. elim held [
              | inl a ↦ inl (equality.transitive first.0 entry.0 key there a)
              | inr b ↦ inr b
            ]),
          )
      Holds-set (first ∷ entries) (suc j) old entry key e h =
          let (there, back) = Holds-set entries j old entry key e h in
          (
            (λ held. elim held [ inl a ↦ inl a | inr b ↦ inr (there b) ]),
            (λ held. elim held [ inl a ↦ inl a | inr b ↦ inr (back b) ]),
          )
