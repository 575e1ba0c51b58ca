-- ===== src/Set/Ops.antt =====
-- src/set.c: union, intersection and the differences of two sets.
use mathlib.Core.Option
use liblor.Common.{
  ltb, ◌==◌, if◌then◌else◌, set, size_max, ℕ, ◌+◌, ◌-◌, Bool, true, false, not, ◌||◌, Option, none,
  some, List, [], ◌∷◌, ◌++◌,
}
use liblor.Status.{Status, ok, invalid_argument, overflow}
use liblor.Map.{Config, config_bytes}
use liblor.Map.Reserve.{Allocator}
use liblor.Map.Inv.{entries_of}
use liblor.Set.{
  Set, is_null, key_address, set_size, deinit_set, has_layout, nonempty_configs_compatible,
  init_set, reserve_set, add_key, set_contains,
}

pub data Operation : Type 0 where
  union intersection difference symmetric_difference : Operation

-- A status, the set that results and the keys that are dropped, unless a search is lost.
abbrev pub Outcome : Type 0 → Type 0
Outcome K = Option (Status × Option (Set K) × List K)

-- The capacity that `reserve_for_operation` asks for; `none` is the overflow.
abbrev pub operation_capacity : ℕ → ℕ → Operation → Option ℕ
operation_capacity a_size b_size union =
    if ltb (size_max - a_size) b_size then none else some (a_size + b_size)
operation_capacity a_size b_size symmetric_difference =
    if ltb (size_max - a_size) b_size then none else some (a_size + b_size)
operation_capacity a_size b_size intersection = some (if ltb a_size b_size then a_size else b_size)
operation_capacity a_size b_size difference = some a_size

module _ {K : Type 0} where
  -- What follows a step that succeeded.
  abbrev pub and_then : Status × Option (Set K) × List K → (Option (Set K) → Outcome K) → Outcome K
  and_then (ok, set, keys) next = Option.map (λ out. (out.0, out.1, keys ++ out.2)) (next set)
  and_then (status, set, keys) next = some (status, set, keys)

  abbrev pub base_of : Option (Set K) → ℕ
  base_of none = 0
  base_of (some set) = set.base

  -- The policy of the result: of an operand that clones, of one with keys, or of one at all.
  unfoldable pub result_config : Option (Set K) → Option (Set K) → Config K
  result_config none none = config_bytes
  result_config (some a) none = a.config
  result_config none (some b) = b.config
  result_config (some a) (some b) =
      if not (is_null (a.config.clone))
      then a.config
      else if not (is_null (b.config.clone))
      then b.config
      else if not (set_size (some a) == 0)
      then a.config
      else if not (set_size (some b) == 0)
      then b.config
      else a.config

  module _ (memory : Allocator) (bytes : K → List ℕ) where
    unfoldable pub reserve_for_operation :
        ℕ → ℕ → ℕ → Operation → Option (Set K) → Option (Status × Option (Set K))
    unfolding reserve_set
    reserve_for_operation element_size a_size b_size operation result =
        elim (operation_capacity a_size b_size operation) [
          | none ↦ some (overflow, result)
          | some capacity ↦
              if capacity == 0
              then some (ok, result)
              else reserve_set memory bytes element_size capacity result
        ]

    -- The loop of `add_all` over the keys from index `i` on, of a set at `base`.
    unfoldable pub add_all : ℕ → ℕ → List (K × Unit {0}) → ℕ → Option (Set K) → Outcome K
    unfolding add_key
    add_all element_size base [] i result = some (ok, result, [])
    add_all element_size base (entry ∷ entries) i result =
        Option.bind
          (add_key memory bytes element_size (key_address base element_size i) (entry.0) result)
          (λ out. and_then out (add_all element_size base entries (i + 1)))

    -- The loops over one operand: a key is added when the other has it or has it not, as `wanted`
    -- says.
    unfoldable pub add_selected :
        ℕ → ℕ → Bool → Option (Set K) → List (K × Unit {0}) → ℕ → Option (Set K) → Outcome K
    unfolding add_key set_contains
    add_selected element_size base wanted other [] i result = some (ok, result, [])
    add_selected element_size base wanted other (entry ∷ entries) i result =
        Option.bind (set_contains bytes element_size (some (entry.0)) other) (λ there.
          if (if there then wanted else not wanted)
          then Option.bind
              (add_key memory bytes element_size (key_address base element_size i) (entry.0) result)
              (λ out. and_then out (add_selected element_size base wanted other entries (i + 1)))
          else add_selected element_size base wanted other entries (i + 1) result)

    -- The loops of an operation.
    abbrev pub combine :
        ℕ → Option (Set K) → Option (Set K) → Operation → Option (Set K) → Outcome K
    combine element_size a b union result =
        Option.bind (add_all element_size (base_of a) (entries_of a) 0 result)
          (λ out. and_then out (add_all element_size (base_of b) (entries_of b) 0))
    combine element_size a b intersection result =
        add_selected element_size (base_of a) true b (entries_of a) 0 result
    combine element_size a b difference result =
        add_selected element_size (base_of a) false b (entries_of a) 0 result
    combine element_size a b symmetric_difference result =
        Option.bind (add_selected element_size (base_of a) false b (entries_of a) 0 result)
          (λ out. and_then out (add_selected element_size (base_of b) false a (entries_of b) 0))

    -- A result that failed is deinitialized, and the reference keeps its NULL.
    abbrev pub finished : Status × Option (Set K) × List K → Status × Option (Set K) × List K
    finished (ok, result, keys) = (ok, result, keys)
    finished (status, result, keys) = (status, none, keys ++ (deinit_set (some result)).1)

    -- The part behind the reservation.
    abbrev pub combine_reserved :
        ℕ → Option (Set K) → Option (Set K) → Operation → Status × Option (Set K) → Outcome K
    combine_reserved element_size a b operation (ok, result) =
        Option.map finished (combine element_size a b operation result)
    combine_reserved element_size a b operation (status, result) =
        some (finished (status, result, []))

    -- The part behind the creation of the result.
    abbrev pub operate_on :
        ℕ → Option (Set K) → Option (Set K) → Operation → Status × Option (Set K) → Outcome K
    operate_on element_size a b operation (ok, result) =
        Option.bind (reserve_for_operation element_size (set_size a) (set_size b) operation result)
          (combine_reserved element_size a b operation)
    operate_on element_size a b operation (status, result) = some (status, none, [])

    -- `lor_set__operation`, for a reference to a NULL handle: what it leaves there.
    unfoldable pub operate : ℕ → Option (Set K) → Option (Set K) → Operation → Outcome K
    unfolding reserve_for_operation add_all add_selected result_config
    operate element_size a b operation =
        if element_size == 0
          || not (has_layout a element_size)
          || not (has_layout b element_size)
          || not (nonempty_configs_compatible a b)
        then some (invalid_argument, none, [])
        else operate_on element_size a b operation
            (init_set memory element_size (result_config a b) none)

    -- With its reference: a NULL one and one that holds a set already are refused.
    unfoldable pub set_operation :
        Option (Option (Set K))
        → ℕ
        → Option (Set K)
        → Option (Set K)
        → Operation
        → Option (Status × Option (Option (Set K)) × List K)
    unfolding operate
    set_operation none element_size a b operation = some (invalid_argument, none, [])
    set_operation (some (some old)) element_size a b operation =
        some (invalid_argument, some (some old), [])
    set_operation (some none) element_size a b operation =
        Option.map (λ out. (out.0, some (out.1), out.2)) (operate element_size a b operation)

    abbrev pub SetOperation : Type 0
    SetOperation =
        Option (Option (Set K))
        → ℕ
        → Option (Set K)
        → Option (Set K)
        → Option (Status × Option (Option (Set K)) × List K)

    unfoldable pub set_union : SetOperation
    unfolding set_operation
    set_union result element_size a b = set_operation result element_size a b union

    unfoldable pub set_intersection : SetOperation
    unfolding set_operation
    set_intersection result element_size a b = set_operation result element_size a b intersection

    unfoldable pub set_difference : SetOperation
    unfolding set_operation
    set_difference result element_size a b = set_operation result element_size a b difference

    unfoldable pub set_symmetric_difference : SetOperation
    unfolding set_operation
    set_symmetric_difference result element_size a b =
        set_operation result element_size a b symmetric_difference
