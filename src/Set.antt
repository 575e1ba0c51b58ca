-- ===== src/Set.antt =====
-- src/set.c and include/lor/set.h: a hash set is a hash map whose entries are their keys only. A
-- result of `none` means that a search among the buckets is lost.
pub mod Ops
pub mod Relations
pub mod Policy
pub mod Distinct
pub mod Relating
pub mod Comparing
pub mod ByteKeys
mod Tests
pub mod Adding
pub mod Selecting
pub mod Operating
pub mod Refining
use mathlib.Core.Option
use liblor.Common.{
  ◌==◌, set, ℕ, ◌+◌, ◌*◌, ◌%◌, ◌^◌, Bool, true, false, not, ◌&&◌, ◌||◌, Option, none, some, List,
}
use liblor.Status.{Status}
use liblor.Map.{Config, Map, same_address, same_pointer, get_config, map_size, map_capacity}
use liblor.Map.Reserve.{Allocator, init_map, reserve_map}
use liblor.Map.Ops.{contains_key, set_entry}
use liblor.Map.Removal.{remove_key, clear_map, deinit_map}

-- The entries of a set carry nothing besides their keys.
abbrev pub Set : Type 0 → Type 0
Set K = Map K (Unit {0})

-- Whether a pointer is NULL.
abbrev pub is_null {ℓ} : {A : Type ℓ} → Option A → Bool
is_null none = true
is_null (some a) = false

-- The address of the key at an index, of a set whose keys begin at `base`.
abbrev pub key_address : ℕ → ℕ → ℕ → ℕ
key_address base element_size index = (base + index * element_size) % 2 ^ 64

module _ {K : Type 0} where
  abbrev pub set_size : Option (Set K) → ℕ
  set_size set = map_size set

  abbrev pub set_capacity : Option (Set K) → ℕ
  set_capacity set = map_capacity set

  unfoldable pub clear_set : Option (Set K) → Option (Set K) × List K
  unfolding clear_map
  clear_set set = clear_map set

  unfoldable pub deinit_set : Option (Option (Set K)) → Option (Option (Set K)) × List K
  unfolding deinit_map
  deinit_set set_ref = deinit_map set_ref

  -- `lor_set__layout_valid`
  abbrev pub has_layout : Option (Set K) → ℕ → Bool
  has_layout none element_size = true
  has_layout (some set) element_size =
      not (element_size == 0) && set.entry_size == element_size && set.key_size == element_size

  -- Whether the hashes, equalities and tests of two sets are the same, and they can share keys.
  unfoldable pub configs_compatible : Config K → Config K → Bool
  configs_compatible a b =
      same_address a.hash b.hash
      && same_address a.equal b.equal
      && same_address a.key_valid b.key_valid
      && a.context == b.context
      && (is_null a.clone
          || is_null b.clone
          || same_address a.clone b.clone && same_pointer a.drop b.drop)

  unfoldable pub nonempty_configs_compatible : Option (Set K) → Option (Set K) → Bool
  unfolding configs_compatible
  nonempty_configs_compatible a b =
      set_size a == 0 || set_size b == 0 || configs_compatible (get_config a) (get_config b)

  module _ (memory : Allocator) where
    unfoldable pub init_set : ℕ → Config K → Option (Set K) → Status × Option (Set K)
    unfolding init_map
    init_set element_size config set = init_map memory element_size element_size config set

    module _ (bytes : K → List ℕ) where
      unfoldable pub reserve_set : ℕ → ℕ → Option (Set K) → Option (Status × Option (Set K))
      unfolding reserve_map
      reserve_set element_size capacity set =
          reserve_map memory bytes element_size element_size capacity set

      -- `p` is the key's address, 0 for NULL.
      unfoldable pub add_key :
          ℕ → ℕ → K → Option (Set K) → Option (Status × Option (Set K) × List K)
      unfolding set_entry
      add_key element_size p key set =
          set_entry memory bytes element_size element_size p (key, tt) set

  module _ (bytes : K → List ℕ) where
    unfoldable pub set_contains : ℕ → Option K → Option (Set K) → Option Bool
    unfolding contains_key
    set_contains element_size key set = contains_key bytes element_size element_size key set

    unfoldable pub discard_key :
        ℕ → Option K → Option (Set K) → Option (Bool × Option (Set K) × List K)
    unfolding remove_key
    discard_key element_size key set = remove_key bytes element_size element_size key set
