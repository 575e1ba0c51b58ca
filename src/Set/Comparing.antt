-- ===== src/Set/Comparing.antt =====
-- src/set.c: equality of sets and proper subsets, by what the sets hold.
use liblor.Common.{
  ltb, ◌==◌, Bool-cases, ℕ, ◌≡◌, refl, ◌↔◌, inl, inr, Bool, true, Option, List, arith,
}
use liblor.Map.Inv.{entries_of}
use liblor.Set.{Set, set_size}
use liblor.Set.Relations.{relations_valid, sets_equal, is_proper_subset}
use liblor.Set.Policy.{IsEquality, Holds, size-entries, SetHandleIsSound}
use liblor.Set.Distinct.{Distinct-length, Distinct-all}
use liblor.Set.Selecting.{AllAccepted}
use liblor.Set.Relating.{Decides, says_no, Distinct-entries, is_subset_lem}

module _ {K : Type 0} (bytes : K → List ℕ) (same : K → K → Bool) where
  module _ (equality : IsEquality same) where
    -- For two sets, NULL or with valid buckets and distinct keys, whose callbacks decide one equality
    -- and hash equal keys alike, whether they clone their keys or not, where the second accepts the
    -- keys of the first, and which the code takes for comparable (a positive element size that both
    -- have, and compatible callbacks if both hold keys): the test of equality loses no search and
    -- answers whether both sets hold the same keys.
    pub sets_equal_lem :
        (a b : Option (Set K)) (element_size : ℕ)
        → SetHandleIsSound bytes same a
        → SetHandleIsSound bytes same b
        → AllAccepted b (entries_of a)
        → relations_valid a b element_size ≡ true
        → Decides
            (sets_equal bytes a b element_size)
            ((key : K) → Holds same (entries_of a) key ↔ Holds same (entries_of b) key)
    unfolding sets_equal
    sets_equal_lem a b element_size va vb accepted fits =
        let na = size-entries a in
        let nb = size-entries b in
        let da = Distinct-entries bytes same a va in
        let db = Distinct-entries bytes same b vb in
        elim (Bool-cases (set_size a == set_size b)) [
          | inr differ ↦ rw differ (
              says_no (λ both.
                let l = Distinct-length same equality _ _ da (λ key. (both key).0) in
                let m = Distinct-length same equality _ _ db (λ key. (both key).1) in
                absurd (ground arith)))
          | inl as_many ↦
              let (answer, is, decides) =
                is_subset_lem bytes same equality a b element_size va vb accepted fits in
              rw (as_many, is)
                (
                  answer,
                  refl,
                  (
                    (λ e key. (
                      decides.0 e key,
                      Distinct-all same equality (entries_of a) (entries_of b) key da (decides.0 e)
                          (ground arith),
                    )),
                    (λ both. decides.1 (λ key. (both key).0)),
                  ),
                )
        ]

    -- Under the same conditions, the test of being a proper subset answers whether the first set's keys
    -- are held by the second, but not all of the second's by the first.
    pub is_proper_subset_lem :
        (a b : Option (Set K)) (element_size : ℕ)
        → SetHandleIsSound bytes same a
        → SetHandleIsSound bytes same b
        → AllAccepted b (entries_of a)
        → relations_valid a b element_size ≡ true
        → Decides (is_proper_subset bytes a b element_size) (
            ((key : K) → Holds same (entries_of a) key → Holds same (entries_of b) key)
            × (((key : K) → Holds same (entries_of b) key → Holds same (entries_of a) key) → ⊥))
    unfolding is_proper_subset
    is_proper_subset_lem a b element_size va vb accepted fits =
        let na = size-entries a in
        let nb = size-entries b in
        let da = Distinct-entries bytes same a va in
        let db = Distinct-entries bytes same b vb in
        elim (Bool-cases (ltb (set_size a) (set_size b))) [
          | inr as_many ↦ rw as_many (
              says_no (λ (inside, more). more (λ key.
                Distinct-all same equality (entries_of a) (entries_of b) key da inside
                  (ground arith))))
          | inl fewer ↦
              let (answer, is, decides) =
                is_subset_lem bytes same equality a b element_size va vb accepted fits in
              rw (fewer, is)
                (
                  answer,
                  refl,
                  (
                    (λ e. (
                      decides.0 e,
                      (λ back.
                          let l = Distinct-length same equality _ _ db back in
                          absurd (ground arith)),
                    )),
                    (λ (inside, more). decides.1 inside),
                  ),
                )
        ]
