-- ===== src/Set/Relating.antt =====
-- src/set.c: the relations between sets are those of what they hold.
use mathlib.Core.Option
use liblor.Common.{
  ltb, leb, ◌==◌, if◌then◌else◌, Bool-cases, ℕ, ◌≡◌, refl, sym, ◌∙◌, ◌↔◌, inl, inr, Bool, true,
  false, Option, none, some, List, [], ◌∷◌, arith,
}
use liblor.Map.Inv.{entries_of}
use liblor.Set.{Set, set_size, has_layout, set_contains}
use liblor.Set.Relations.{relations_valid, all_in, none_in, is_subset, is_disjoint}
use liblor.Set.Policy.{IsEquality, Holds, size-entries, Distinct, SetHandleIsSound, Holds-same}
use liblor.Set.Distinct.{Distinct-length}
use liblor.Set.Selecting.{AllAccepted, set_contains_lem}

-- A test that loses no search and answers whether a statement holds.
abbrev pub Decides : Option Bool → Type 0 → Type 0
Decides result P = (answer : Bool) × (result ≡ some answer) × ((answer ≡ true) ↔ P)

pub says_no : {P : Type 0} → (P → ⊥) → Decides (some false) P
says_no never = (false, refl, ((λ e. absurd (cc)), (λ p. absurd (never p))))

module _ {K : Type 0} (bytes : K → List ℕ) (same : K → K → Bool) where
  pub Distinct-entries :
      (a : Option (Set K)) → SetHandleIsSound bytes same a → Distinct same (entries_of a)
  Distinct-entries none v = tt
  Distinct-entries (some a) v = v.distinct

  all_in-step :
      (element_size : ℕ) (entry : K × Unit {0}) (entries : List (K × Unit {0})) (b : Option (Set K))
      (there : Bool)
      → set_contains bytes element_size (some entry.0) b ≡ some there
      → all_in bytes element_size (entry ∷ entries) b
        ≡ (if there then all_in bytes element_size entries b else some false)
  unfolding all_in Option.bind
  all_in-step element_size entry entries b there is = rw is refl

  none_in-step :
      (element_size : ℕ) (entry : K × Unit {0}) (entries : List (K × Unit {0})) (b : Option (Set K))
      (there : Bool)
      → set_contains bytes element_size (some entry.0) b ≡ some there
      → none_in bytes element_size (entry ∷ entries) b
        ≡ (if there then some false else none_in bytes element_size entries b)
  unfolding none_in Option.bind
  none_in-step element_size entry entries b there is = rw is refl

  module _ (equality : IsEquality same) where
    all_in_lem :
        (element_size : ℕ) (entries : List (K × Unit {0})) (b : Option (Set K))
        → SetHandleIsSound bytes same b
        → (element_size == 0) ≡ false
        → has_layout b element_size ≡ true
        → AllAccepted b entries
        → Decides
            (all_in bytes element_size entries b)
            ((key : K) → Holds same entries key → Holds same (entries_of b) key)
    all_in_lem element_size [] b v nonzero fits accepted =
        unfold all_in in (true, refl, ((λ _ key h. absurd h), (λ _. refl)))
    all_in_lem element_size (entry ∷ entries) b v nonzero fits accepted =
        let (there, is, answer) =
          set_contains_lem bytes same element_size entry.0 b v nonzero fits accepted.0 in
        let (others, is', answer') = all_in_lem element_size entries b v nonzero fits accepted.1 in
        elim (Bool-cases there) [
          | inr missing ↦
              rw (all_in-step element_size entry entries b there is, missing)
                (says_no (λ inside.
                  let e = answer.1 (inside entry.0 (inl (equality.reflexive entry.0))) in
                  let d = sym e ∙ missing in cc))
          | inl held ↦
              rw (all_in-step element_size entry entries b there is, held)
                (
                  others,
                  is',
                  (
                    (λ e key h. elim h [
                      | inl k ↦
                          Holds-same same equality (entries_of b) entry.0 key k (answer.0 held)
                      | inr h' ↦ answer'.0 e key h'
                    ]),
                    (λ inside. answer'.1 (λ key h. inside key (inr h))),
                  ),
                )
        ]

    none_in_lem :
        (element_size : ℕ) (entries : List (K × Unit {0})) (b : Option (Set K))
        → SetHandleIsSound bytes same b
        → (element_size == 0) ≡ false
        → has_layout b element_size ≡ true
        → AllAccepted b entries
        → Decides
            (none_in bytes element_size entries b)
            ((key : K) → Holds same entries key → Holds same (entries_of b) key → ⊥)
    none_in_lem element_size [] b v nonzero fits accepted =
        unfold none_in in (true, refl, ((λ _ key h. absurd h), (λ _. refl)))
    none_in_lem element_size (entry ∷ entries) b v nonzero fits accepted =
        let (there, is, answer) =
          set_contains_lem bytes same element_size entry.0 b v nonzero fits accepted.0 in
        let (others, is', answer') = none_in_lem element_size entries b v nonzero fits accepted.1 in
        elim (Bool-cases there) [
          | inl held ↦
              rw (none_in-step element_size entry entries b there is, held)
                (says_no
                  (λ apart. apart entry.0 (inl (equality.reflexive entry.0)) (answer.0 held)))
          | inr missing ↦
              rw (none_in-step element_size entry entries b there is, missing)
                (
                  others,
                  is',
                  (
                    (λ e key h hb. elim h [
                      | inl k ↦
                          let e' = answer.1 (
                            Holds-same same equality (entries_of b) key entry.0
                              (equality.symmetric entry.0 key k) hb) in
                          let d = sym e' ∙ missing in cc
                      | inr h' ↦ answer'.0 e key h' hb
                    ]),
                    (λ apart. answer'.1 (λ key h. apart key (inr h))),
                  ),
                )
        ]

    -- For two sound sets of one equality where the second accepts the keys of the first, and which the
    -- code takes for comparable, the test of being a subset loses no search, and answers whether every key that the first set
    -- holds is held by the second.
    pub is_subset_lem :
        (a b : Option (Set K)) (element_size : ℕ)
        → SetHandleIsSound bytes same a
        → SetHandleIsSound bytes same b
        → AllAccepted b (entries_of a)
        → relations_valid a b element_size ≡ true
        → Decides
            (is_subset bytes a b element_size)
            ((key : K) → Holds same (entries_of a) key → Holds same (entries_of b) key)
    unfolding is_subset relations_valid
    is_subset_lem a b element_size va vb accepted fits =
        elim (Bool-cases (ltb (set_size b) (set_size a))) [
          | inl larger ↦
              rw (fits, larger)
                (says_no (λ inside. absurd (
                  let l =
                    Distinct-length same equality (entries_of a) (entries_of b)
                      (Distinct-entries a va) inside in
                  ground (arith, size-entries a, size-entries b))))
          | inr room ↦
              rw (fits, room)
                (all_in_lem element_size (entries_of a) b vb (ground arith) (ground arith) accepted)
        ]

    -- For two sets, NULL or with valid buckets and distinct keys, whose callbacks decide one equality
    -- and hash equal keys alike, whether they clone their keys or not, where each accepts the keys of
    -- the other, and which the code takes for comparable (a positive element size that both have, and
    -- compatible callbacks if both hold keys): the test of being disjoint loses no search and answers
    -- whether no key is held by both, whichever set it passes over.
    pub is_disjoint_lem :
        (a b : Option (Set K)) (element_size : ℕ)
        → SetHandleIsSound bytes same a
        → SetHandleIsSound bytes same b
        → AllAccepted b (entries_of a)
        → AllAccepted a (entries_of b)
        → relations_valid a b element_size ≡ true
        → Decides
            (is_disjoint bytes a b element_size)
            ((key : K) → Holds same (entries_of a) key → Holds same (entries_of b) key → ⊥)
    unfolding is_disjoint relations_valid
    is_disjoint_lem a b element_size va vb accepted accepted' fits =
        elim (Bool-cases (leb (set_size a) (set_size b))) [
          | inl small ↦
              rw (fits, small)
                (none_in_lem element_size (entries_of a) b vb (ground arith) (ground arith)
                  accepted)
          | inr large ↦
              let (answer, is, decides) =
                none_in_lem element_size (entries_of b) a va (ground arith) (ground arith)
                  accepted' in
              rw (fits, large)
                (
                  answer,
                  is,
                  (
                    (λ e key ha hb. decides.0 e key hb ha),
                    (λ apart. decides.1 (λ key hb ha. apart key ha hb)),
                  ),
                )
        ]
