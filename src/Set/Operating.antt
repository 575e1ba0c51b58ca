-- ===== src/Set/Operating.antt =====
-- src/set.c: what union, intersection and the differences make of two sets.
use mathlib.Core.Option
use liblor.Common.{
  ◌==◌, Bool-cases, length, size_max, ℕ, ◌+◌, ◌≤◌, ◌≡◌, refl, ap, subst, ◌≢◌, ◌↔◌, ◌⊎◌, inl, inr,
  Bool, true, false, Option, none, some, List, [], arith,
}
use liblor.Status.{
  Status, ok, invalid_argument, out_of_memory, overflow, system_error, timed_out, closed,
}
use liblor.Map.{Config}
use liblor.Map.Reserve.{Allocator, empty_map}
use liblor.Map.Inv.{entries_of}
use liblor.Set.{Set, set_size, has_layout}
use liblor.Set.Ops.{
  Operation, union, intersection, difference, symmetric_difference, Outcome, operation_capacity,
  base_of, result_config, add_all, add_selected, combine, finished,
}
use liblor.Set.Policy.{IsEquality, Holds, size-entries, Means, SetIsValid, SetHandleIsValid}
use liblor.Set.Adding.{Grows, Ends, Ends-map, Ends-then}
use liblor.Set.Selecting.{AllAccepted, Selected, add_all_lem, add_selected_lem}

-- The keys of an operation's result, by what the operands hold.
abbrev pub Combined : Operation → Type 0 → Type 0 → Type 0
Combined union A B = A ⊎ B
Combined intersection A B = A × B
Combined difference A B = A × (B → ⊥)
Combined symmetric_difference A B = (A × (B → ⊥)) ⊎ (B × (A → ⊥))

module _ {K : Type 0} (bytes : K → List ℕ) (same : K → K → Bool) where
  -- What an operation makes: a valid set of the keys it should have, or a failure and no set.
  pub record Operates (a b : Option (Set K)) (operation : Operation)
      (out : Status × Option (Set K) × List K) : Type 0 where
    pub makes :
        out.0 ≡ ok
        → (s : Set K) × (out.1 ≡ some s)
          × SetIsValid bytes same s
          × ((key : K)
              → Holds same s.entries key
                ↔ Combined operation
                    (Holds same (entries_of a) key)
                    (Holds same (entries_of b) key))
    pub kept : out.0 ≢ ok → out.1 ≡ none

  abbrev pub OperatesTo : Option (Set K) → Option (Set K) → Operation → Outcome K → Type 0
  OperatesTo a b operation result =
      (out : Status × Option (Set K) × List K) × (result ≡ some out) × Operates a b operation out

  pub failed_operation :
      (a b : Option (Set K)) (operation : Operation) (s : Status) (keys : List K)
      → s ≢ ok
      → OperatesTo a b operation (some (s, none, keys))
  failed_operation a b operation s keys bad =
      ((s, none, keys), refl, record { makes = λ good. absurd (bad good); kept = λ _. refl })

  -- The result's callbacks are those of an operand.
  pub result_config-Means :
      (a b : Option (Set K)) (element_size : ℕ)
      → SetHandleIsValid bytes same a
      → SetHandleIsValid bytes same b
      → (a ≢ none) ⊎ (b ≢ none)
      → has_layout a element_size ≡ true
      → has_layout b element_size ≡ true
      → Means bytes same (result_config a b) element_size
  unfolding result_config
  result_config-Means none none element_size v w (inl one) fits fits' = absurd (one refl)
  result_config-Means none none element_size v w (inr one) fits fits' = absurd (one refl)
  result_config-Means (some a) none element_size v w one fits fits' =
      subst (λ n. Means bytes same a.config n) {x = a.key_size} {y = element_size} (ground arith)
        v.means
  result_config-Means none (some b) element_size v w one fits fits' =
      subst (λ n. Means bytes same b.config n) {x = b.key_size} {y = element_size} (ground arith)
        w.means
  result_config-Means (some a) (some b) element_size v w one fits fits' =
      let first =
        subst (λ n. Means bytes same a.config n) {x = a.key_size} {y = element_size} (ground arith)
          v.means in
      let second =
        subst (λ n. Means bytes same b.config n) {x = b.key_size} {y = element_size} (ground arith)
          w.means in
      elim (Bool-cases (set_size (some a) == 0)) [
        | inr full ↦ simp (v.means.borrowed, w.means.borrowed, full) first
        | inl none_a ↦ elim (Bool-cases (set_size (some b) == 0)) [
          | inr full ↦ simp (v.means.borrowed, w.means.borrowed, none_a, full) second
          | inl none_b ↦ simp (v.means.borrowed, w.means.borrowed, none_a, none_b) first
        ]
      ]

  pub empty-SetIsValid :
      (config : Config K) (element_size header : ℕ)
      → Means bytes same config element_size
      → SetIsValid bytes same (empty_map element_size element_size config header)
  empty-SetIsValid config element_size header means = record {
    valid = record {
      within = omega arith;
      filled = λ pos. absurd (omega arith);
      spare = λ pos. absurd (omega arith);
      used = λ pos. absurd (omega arith);
      placed = tt;
      none_yet = λ _. refl;
    };
    means = means;
    distinct = tt;
  }

  module _ (memory : Allocator) (equality : IsEquality same) where
    -- The loops of an operation, from an empty set.
    pub combine_lem :
        (element_size : ℕ) (a b : Option (Set K)) (operation : Operation) (s : Set K) (capacity : ℕ)
        → SetHandleIsValid bytes same a
        → SetHandleIsValid bytes same b
        → (element_size == 0) ≡ false
        → has_layout a element_size ≡ true
        → has_layout b element_size ≡ true
        → AllAccepted b (entries_of a)
        → AllAccepted a (entries_of b)
        → set_size a ≤ size_max
        → operation_capacity (set_size a) (set_size b) operation ≡ some capacity
        → SetIsValid bytes same s
        → s.entries ≡ []
        → Ends bytes same s
            (λ key.
              Combined operation (Holds same (entries_of a) key) (Holds same (entries_of b) key))
            (length (entries_of a) + length (entries_of b))
            (combine memory bytes element_size a b operation (some s))
    combine_lem element_size a b union s capacity va vb nonzero fa fb ab ba small c v e =
        let sum : set_size a + set_size b ≤ size_max = ground arith in
        let len : length s.entries ≡ 0 = ap length e in
        let na = size-entries a in
        let nb = size-entries b in
        Ends-then bytes same s (Holds same (entries_of a)) (Holds same (entries_of b))
          (length (entries_of a)) (length (entries_of b)) _
          (add_all memory bytes element_size (base_of b) (entries_of b) 0)
          (add_all_lem bytes same memory equality element_size (base_of a) (entries_of a) 0 s v
            (omega arith))
          (λ t p.
            add_all_lem bytes same memory equality element_size (base_of b) (entries_of b) 0 t
              p.valid (omega (arith, p.longer)))
    combine_lem element_size a b intersection s capacity va vb nonzero fa fb ab ba small c v e =
        let len : length s.entries ≡ 0 = ap length e in
        Ends-map bytes same s _ _ _ _ _ (omega arith) (λ key h. h) (λ key h. h)
          (add_selected_lem bytes same memory equality element_size (base_of a) true b
            (entries_of a) 0 s v vb nonzero fb ab (omega (arith, size-entries a)))
    combine_lem element_size a b difference s capacity va vb nonzero fa fb ab ba small c v e =
        let len : length s.entries ≡ 0 = ap length e in
        Ends-map bytes same s _ _ _ _ _ (omega arith) (λ key h. h) (λ key h. h)
          (add_selected_lem bytes same memory equality element_size (base_of a) false b
            (entries_of a) 0 s v vb nonzero fb ab (omega (arith, size-entries a)))
    combine_lem element_size a b symmetric_difference s capacity va vb nonzero fa fb ab ba small c v
          e =
        let sum : set_size a + set_size b ≤ size_max = ground arith in
        let len : length s.entries ≡ 0 = ap length e in
        let na = size-entries a in
        let nb = size-entries b in
        Ends-then bytes same s
          (λ key. Holds same (entries_of a) key × Selected same false (entries_of b) key)
          (λ key. Holds same (entries_of b) key × Selected same false (entries_of a) key)
          (length (entries_of a)) (length (entries_of b)) _
          (add_selected memory bytes element_size (base_of b) false a (entries_of b) 0)
          (add_selected_lem bytes same memory equality element_size (base_of a) false b
            (entries_of a) 0 s v vb nonzero fb ab (omega arith))
          (λ t p.
            add_selected_lem bytes same memory equality element_size (base_of b) false a
              (entries_of b) 0 t p.valid va nonzero fa ba (omega (arith, p.longer)))

    -- A loop from an empty set, and what follows it.
    pub finished_lem :
        (a b : Option (Set K)) (operation : Operation) (s : Set K) (more : ℕ) (result : Outcome K)
        → s.entries ≡ []
        → Ends bytes same s
            (λ key.
              Combined operation (Holds same (entries_of a) key) (Holds same (entries_of b) key))
            more
            result
        → OperatesTo a b operation (Option.map (finished memory bytes) result)
    finished_lem a b operation s more result e ((status, h, keys), is, grows) =
        rw is (status_case status grows)
      where
        status_case :
            (status : Status)
            → (status ≡ ok
                → (grown : Set K) × (h ≡ some grown)
                  × Grows bytes same s
                      (λ key.
                        Combined operation
                          (Holds same (entries_of a) key)
                          (Holds same (entries_of b) key))
                      more
                      grown)
            → OperatesTo a b operation (some (finished memory bytes (status, h, keys)))
        status_case ok grows =
            let (grown, at, g) = grows refl in
            (
              (ok, h, keys),
              refl,
              record {
                makes = λ _. (
                  grown,
                  at,
                  g.valid,
                  (λ key. (
                    (λ held. elim (g.only key held) [
                      | inl old ↦ absurd (subst (λ l. Holds same l key) e old)
                      | inr wanted ↦ wanted
                    ]),
                    g.gains key,
                  )),
                );
                kept = λ bad. absurd (bad refl);
              },
            )
        status_case invalid_argument grows = failed_operation a b operation _ _ (λ e. cc)
        status_case out_of_memory grows = failed_operation a b operation _ _ (λ e. cc)
        status_case overflow grows = failed_operation a b operation _ _ (λ e. cc)
        status_case system_error grows = failed_operation a b operation _ _ (λ e. cc)
        status_case timed_out grows = failed_operation a b operation _ _ (λ e. cc)
        status_case closed grows = failed_operation a b operation _ _ (λ e. cc)
