-- ===== src/Set/Refining.antt =====
-- src/set.c: the operations on two sets refine those on the keys that the sets hold.
use mathlib.Core.Option
use liblor.Common.{
  ◌==◌, Bool-cases, Option-cases, size_max, ℕ, ◌≤◌, ◌≡◌, refl, sym, subst, subst₂, ◌∙◌, ◌≢◌, ◌⊎◌,
  inl, inr, Bool, true, false, Option, none, some, List, [], arith,
}
use liblor.Status.{
  Status, ok, invalid_argument, out_of_memory, overflow, system_error, timed_out, closed,
}
use liblor.Map.{Config, map_header_size, layout_valid, config_valid}
use liblor.Map.Reserve.{Allocator, empty_map, init_map}
use liblor.Map.Inv.{entries_of}
use liblor.Map.Growing.{ReservesMap, reserve_map_lem}
use liblor.Set.{Set, set_size, has_layout, nonempty_configs_compatible, init_set, reserve_set}
use liblor.Set.Ops.{
  Operation, union, intersection, difference, symmetric_difference, operation_capacity,
  result_config, reserve_for_operation, combine_reserved, operate_on, operate,
}
use liblor.Set.Policy.{IsEquality, Means, SetIsValid, SetHandleIsValid}
use liblor.Set.Operating.{
  Operates, OperatesTo, failed_operation, result_config-Means, empty-SetIsValid, combine_lem,
  finished_lem,
}
use liblor.Set.Selecting.{AllAccepted}

operation_capacity-le :
    (a b : ℕ) (operation : Operation) (capacity : ℕ)
    → a ≤ size_max
    → operation_capacity a b operation ≡ some capacity
    → capacity ≤ size_max
operation_capacity-le a b union capacity r e = ground arith
operation_capacity-le a b intersection capacity r e = ground arith
operation_capacity-le a b difference capacity r e = ground arith
operation_capacity-le a b symmetric_difference capacity r e = ground arith

module _ {K : Type 0} (bytes : K → List ℕ) (same : K → K → Bool) where
  -- A result that is reserved: it fails, or it is an empty valid set and the sizes fit.
  record Reserved (a b : ℕ) (operation : Operation) (out : Status × Option (Set K)) : Type 0 where
    ready :
        out.0 ≡ ok
        → (s : Set K) × (out.1 ≡ some s)
          × SetIsValid bytes same s
          × (s.entries ≡ [])
          × (capacity : ℕ) × (operation_capacity a b operation ≡ some capacity)

  abbrev ReservedTo : ℕ → ℕ → Operation → Option (Status × Option (Set K)) → Type 0
  ReservedTo a b operation result =
      (out : Status × Option (Set K)) × (result ≡ some out) × Reserved a b operation out

  module _ (memory : Allocator) where
    grown_set :
        (element_size a b : ℕ) (operation : Operation) (capacity : ℕ) (s : Set K)
        (h : Option (Set K))
        → operation_capacity a b operation ≡ some capacity
        → (capacity == 0) ≡ false
        → SetIsValid bytes same s
        → s.entries ≡ []
        → s.key_size ≡ element_size
        → ReservesMap bytes element_size element_size capacity (some s) (ok, h)
        → (t : Set K) × (h ≡ some t)
          × SetIsValid bytes same t
          × (t.entries ≡ [])
          × (capacity : ℕ) × (operation_capacity a b operation ≡ some capacity)
    grown_set element_size a b operation capacity s none c pos v e n r =
        absurd (let m = r.enough refl in ground arith)
    grown_set element_size a b operation capacity s (some t) c pos v e n r =
        let fits = r.fits refl in
        let size : t.key_size ≡ s.key_size = ground arith in
        (
          t,
          refl,
          record {
            valid = r.valid;
            means = subst₂ (λ k m. Means bytes same k m) (sym (r.config)) (sym size) v.means;
            distinct = rw (r.same ∙ e) tt;
          },
          r.same ∙ e,
          capacity,
          c,
        )

    reserve_for_operation_lem :
        (element_size a b : ℕ) (operation : Operation) (s : Set K)
        → a ≤ size_max
        → SetIsValid bytes same s
        → s.entries ≡ []
        → s.key_size ≡ element_size
        → ReservedTo a b operation
            (reserve_for_operation memory bytes element_size a b operation (some s))
    unfolding reserve_for_operation reserve_set
    reserve_for_operation_lem element_size a b operation s small v e n =
        elim (Option-cases (operation_capacity a b operation)) [
          | inl over ↦
              rw (reserve_for_operation, over)
                ((overflow, some s), refl, record { ready = λ good. absurd (cc) })
          | inr (capacity, c) ↦ elim (Bool-cases (capacity == 0)) [
            | inl zero_size ↦
                rw (reserve_for_operation, c, zero_size)
                  ((ok, some s), refl, record { ready = λ _. (s, refl, v, e, capacity, c) })
            | inr pos ↦
                let ((status, h), is, r) =
                  reserve_map_lem bytes memory element_size element_size capacity (some s)
                    (operation_capacity-le a b operation capacity small c) v.valid in
                rw (reserve_for_operation, c, pos, is)
                  (
                    (status, h),
                    refl,
                    record {
                      ready = λ good.
                          grown_set element_size a b operation capacity s h c pos v e n (
                            subst
                              (λ t.
                                ReservesMap bytes element_size element_size capacity (some s)
                                  (t, h))
                              good r);
                    },
                  )
          ]
        ]

    init_set_cases :
        (P : Status × Option (Set K) → Type 0) (element_size : ℕ) (config : Config K)
        → P (invalid_argument, none)
        → P (out_of_memory, none)
        → ((header : ℕ) → P (ok, some (empty_map element_size element_size config header)))
        → P (init_set memory element_size config none)
    unfolding init_set init_map
    init_set_cases P element_size config refused failed made =
        elim (Bool-cases (layout_valid element_size element_size)) [
          | inr bad ↦ rw bad refused
          | inl fits ↦ elim (Bool-cases (config_valid config)) [
            | inr bad ↦ rw (fits, bad) refused
            | inl good ↦ elim (Option-cases (memory.malloc map_header_size)) [
              | inl none_left ↦ rw (fits, good, none_left) failed
              | inr (header, e) ↦ rw (fits, good, e) (made header)
            ]
          ]
        ]

    module _ (equality : IsEquality same) where
      -- The part behind the creation of the result.
      made_lem :
          (element_size : ℕ) (a b : Option (Set K)) (operation : Operation) (s : Set K)
          → SetHandleIsValid bytes same a
          → SetHandleIsValid bytes same b
          → (element_size == 0) ≡ false
          → has_layout a element_size ≡ true
          → has_layout b element_size ≡ true
          → AllAccepted b (entries_of a)
          → AllAccepted a (entries_of b)
          → set_size a ≤ size_max
          → SetIsValid bytes same s
          → s.entries ≡ []
          → s.key_size ≡ element_size
          → OperatesTo bytes same a b operation
              (operate_on memory bytes element_size a b operation (ok, some s))
      unfolding Option.bind
      made_lem element_size a b operation s va vb nonzero fa fb ab ba small v e n =
          let ((status, h), is, r) =
            reserve_for_operation_lem element_size (set_size a) (set_size b) operation s small v e
              n in
          rw (operate_on, is) (status_case status h (r.ready))
        where
          status_case :
              (status : Status) (h : Option (Set K))
              → (status ≡ ok
                  → (t : Set K) × (h ≡ some t)
                    × SetIsValid bytes same t
                    × (t.entries ≡ [])
                    × (capacity : ℕ) × (operation_capacity (set_size a) (set_size b) operation
                        ≡ some capacity))
              → OperatesTo bytes same a b operation
                  (combine_reserved memory bytes element_size a b operation (status, h))
          status_case ok h ready =
              let (t, at, vt, et, capacity, c) = ready refl in
              rw at (
                finished_lem bytes same memory equality a b operation t _ _ et (
                  combine_lem bytes same memory equality element_size a b operation t capacity va vb
                    nonzero fa fb ab ba small c vt et))
          status_case invalid_argument h ready =
              failed_operation bytes same a b operation _ _ (λ d. cc)
          status_case out_of_memory h ready =
              failed_operation bytes same a b operation _ _ (λ d. cc)
          status_case overflow h ready = failed_operation bytes same a b operation _ _ (λ d. cc)
          status_case system_error h ready = failed_operation bytes same a b operation _ _ (λ d. cc)
          status_case timed_out h ready = failed_operation bytes same a b operation _ _ (λ d. cc)
          status_case closed h ready = failed_operation bytes same a b operation _ _ (λ d. cc)

      -- A union, intersection, difference or symmetric difference of two valid sets of one equality,
      -- of which one is initialized, whose keys are not cloned and are accepted by the other set and
      -- whose number fits `size_t`, loses no search, whichever of its allocations fail. On success the
      -- result is a valid set, and it holds exactly the keys of the mathematical operation on what
      -- the operands hold; a call that fails leaves no set.
      pub operate_lem :
          (element_size : ℕ) (a b : Option (Set K)) (operation : Operation)
          → SetHandleIsValid bytes same a
          → SetHandleIsValid bytes same b
          → (a ≢ none) ⊎ (b ≢ none)
          → AllAccepted b (entries_of a)
          → AllAccepted a (entries_of b)
          → set_size a ≤ size_max
          → (out : Status × Option (Set K) × List K) × (operate memory bytes element_size a b
                operation
              ≡ some out)
            × Operates bytes same a b operation out
      unfolding operate
      operate_lem element_size a b operation va vb one ab ba small =
          let refused = failed_operation bytes same a b operation invalid_argument [] (λ d. cc) in
          elim (Bool-cases (element_size == 0)) [
            | inl null ↦ rw (operate, null) refused
            | inr nonzero ↦ elim (Bool-cases (has_layout a element_size)) [
              | inr bad ↦ rw (operate, nonzero, bad) refused
              | inl fa ↦ elim (Bool-cases (has_layout b element_size)) [
                | inr bad ↦ rw (operate, nonzero, fa, bad) refused
                | inl fb ↦ elim (Bool-cases (nonempty_configs_compatible a b)) [
                  | inr bad ↦ rw (operate, nonzero, fa, fb, bad) refused
                  | inl fits ↦
                      rw (operate, nonzero, fa, fb, fits)
                        (init_set_cases
                          (λ made.
                            OperatesTo bytes same a b operation
                              (operate_on memory bytes element_size a b operation made))
                          element_size (result_config a b)
                          (failed_operation bytes same a b operation invalid_argument [] (λ d. cc))
                          (failed_operation bytes same a b operation out_of_memory [] (λ d. cc))
                          (λ header.
                            made_lem element_size a b operation
                              (empty_map element_size element_size (result_config a b) header) va vb
                              nonzero fa fb ab ba small
                              (empty-SetIsValid bytes same (result_config a b) element_size header
                                (result_config-Means bytes same a b element_size va vb one fa fb))
                              refl refl))
                ]
              ]
            ]
          ]
