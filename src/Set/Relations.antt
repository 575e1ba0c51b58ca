-- ===== src/Set/Relations.antt =====
-- src/set.c: the relations between two sets.
use mathlib.Core.Option
use liblor.Common.{
  ltb, leb, ◌==◌, if◌then◌else◌, ℕ, Bool, true, false, not, ◌&&◌, Option, some, List, [], ◌∷◌,
}
use liblor.Map.Inv.{entries_of}
use liblor.Set.{Set, set_size, has_layout, nonempty_configs_compatible, set_contains}

module _ {K : Type 0} where
  unfoldable pub relations_valid : Option (Set K) → Option (Set K) → ℕ → Bool
  unfolding nonempty_configs_compatible
  relations_valid a b element_size =
      not (element_size == 0)
      && has_layout a element_size
      && has_layout b element_size
      && nonempty_configs_compatible a b

  module _ (bytes : K → List ℕ) where
    -- The loop of `is_subset`, over the keys that are left: whether all of them are in `b`.
    unfoldable pub all_in : ℕ → List (K × Unit {0}) → Option (Set K) → Option Bool
    unfolding set_contains
    all_in element_size [] b = some true
    all_in element_size (entry ∷ entries) b =
        Option.bind (set_contains bytes element_size (some (entry.0)) b)
          (λ there. if there then all_in element_size entries b else some false)

    -- The loop of `is_disjoint`: whether none of them is in `large`.
    unfoldable pub none_in : ℕ → List (K × Unit {0}) → Option (Set K) → Option Bool
    unfolding set_contains
    none_in element_size [] large = some true
    none_in element_size (entry ∷ entries) large =
        Option.bind (set_contains bytes element_size (some (entry.0)) large)
          (λ there. if there then some false else none_in element_size entries large)

    unfoldable pub is_subset : Option (Set K) → Option (Set K) → ℕ → Option Bool
    unfolding relations_valid all_in
    is_subset a b element_size =
        if not (relations_valid a b element_size)
        then some false
        else if ltb (set_size b) (set_size a)
        then some false
        else all_in element_size (entries_of a) b

    -- `lor_set_equal_raw`
    unfoldable pub sets_equal : Option (Set K) → Option (Set K) → ℕ → Option Bool
    unfolding is_subset
    sets_equal a b element_size =
        if set_size a == set_size b then is_subset a b element_size else some false

    unfoldable pub is_proper_subset : Option (Set K) → Option (Set K) → ℕ → Option Bool
    unfolding is_subset
    is_proper_subset a b element_size =
        if ltb (set_size a) (set_size b) then is_subset a b element_size else some false

    unfoldable pub is_superset : Option (Set K) → Option (Set K) → ℕ → Option Bool
    unfolding is_subset
    is_superset a b element_size = is_subset b a element_size

    unfoldable pub is_proper_superset : Option (Set K) → Option (Set K) → ℕ → Option Bool
    unfolding is_proper_subset
    is_proper_superset a b element_size = is_proper_subset b a element_size

    -- The smaller set is the one that is passed over.
    unfoldable pub is_disjoint : Option (Set K) → Option (Set K) → ℕ → Option Bool
    unfolding relations_valid none_in
    is_disjoint a b element_size =
        if not (relations_valid a b element_size)
        then some false
        else if leb (set_size a) (set_size b)
        then none_in element_size (entries_of a) b
        else none_in element_size (entries_of b) a
