-- ===== src/Set/Adding.antt =====
-- src/set.c: what a set holds after keys are added to it.
use mathlib.Core.Option
use liblor.Common.{
  length, get_elem?, set, length-append, length-set, size_max, ℕ, ◌+◌, ◌≤◌, ◌≡◌, refl, sym, ap,
  subst, subst₂, ◌∙◌, ◌≢◌, ◌⊎◌, inl, inr, Bool, true, Option, some, List, [], ◌∷◌, ◌++◌, arith,
}
use liblor.Status.{
  Status, ok, invalid_argument, out_of_memory, overflow, system_error, timed_out, closed,
}
use liblor.Map.{get_config, map_key_size, keys_equal}
use liblor.Map.Reserve.{Allocator}
use liblor.Map.Inv.{entries_of, MapIsValid, MapHandleIsValid}
use liblor.Map.Looking.{NoEntry}
use liblor.Map.Setting.{set_entry_lem}
use liblor.Set.{Set, add_key}
use liblor.Set.Ops.{Outcome, and_then}
use liblor.Set.Policy.{
  IsEquality, Holds, Means, SetIsValid, Means-Respects, Holds-at, not_Holds, Holds-append,
  Holds-before, Holds-set,
}
use liblor.Set.Distinct.{Distinct-append, Distinct-set}

module _ {K : Type 0} (bytes : K → List ℕ) (same : K → K → Bool) where
  -- A set that holds the wanted keys besides those it held, with so many entries more at most.
  pub record Grows (s : Set K) (Wanted : K → Type 0) (more : ℕ) (out : Set K) : Type 0 where
    pub valid : SetIsValid bytes same out
    pub keeps : (key : K) → Holds same s.entries key → Holds same out.entries key
    pub gains : (key : K) → Wanted key → Holds same out.entries key
    pub only : (key : K) → Holds same out.entries key → Holds same s.entries key ⊎ Wanted key
    pub longer : length out.entries ≤ length s.entries + more

  -- A loop that loses no search, and whose set has grown if it succeeds.
  abbrev pub Ends : Set K → (K → Type 0) → ℕ → Outcome K → Type 0
  Ends s Wanted more result =
      (out : Status × Option (Set K) × List K) × (result ≡ some out)
      × (out.0 ≡ ok → (grown : Set K) × (out.1 ≡ some grown) × Grows s Wanted more grown)

  pub Ends-nothing :
      (s : Set K) (Wanted : K → Type 0)
      → SetIsValid bytes same s
      → ((key : K) → Wanted key → ⊥)
      → Ends s Wanted 0 (some (ok, some s, []))
  Ends-nothing s Wanted v never = (
    (ok, some s, []),
    refl,
    (λ _. (
      s,
      refl,
      record {
        valid = v;
        keeps = λ key h. h;
        gains = λ key w. absurd (never key w);
        only = λ key h. inl h;
        longer = omega arith;
      },
    )),
  )

  -- The same growth, with the wanted keys said in another way.
  pub Ends-map :
      (s : Set K) (Wanted Said : K → Type 0) (more many : ℕ) (result : Outcome K)
      → more ≤ many
      → ((key : K) → Wanted key → Said key)
      → ((key : K) → Said key → Wanted key)
      → Ends s Wanted more result
      → Ends s Said many result
  Ends-map s Wanted Said more many result le f g (out, is, grows) = (
    out,
    is,
    (λ good.
        let (grown, at, r) = grows good in
        (
          grown,
          at,
          record {
            valid = r.valid;
            keeps = r.keeps;
            gains = λ key w. r.gains key (g key w);
            only = λ key h. elim (r.only key h) [ inl a ↦ inl a | inr w ↦ inr (f key w) ];
            longer = omega (arith, r.longer, le);
          },
        )),
  )

  pub Grows-trans :
      (s t u : Set K) (First Second : K → Type 0) (m n : ℕ)
      → Grows s First m t
      → Grows t Second n u
      → Grows s (λ key. First key ⊎ Second key) (m + n) u
  Grows-trans s t u First Second m n p q = record {
    valid = q.valid;
    keeps = λ key h. q.keeps key (p.keeps key h);
    gains = λ key w. elim w [ inl a ↦ q.keeps key (p.gains key a) | inr b ↦ q.gains key b ];
    only = λ key h. elim (q.only key h) [
      | inr b ↦ inr (inr b)
      | inl there ↦ elim (p.only key there) [ inl old ↦ inl old | inr a ↦ inr (inl a) ]
    ];
    longer = omega (arith, p.longer, q.longer);
  }

  -- One loop after another.
  pub Ends-then :
      (s : Set K) (First Second : K → Type 0) (m n : ℕ) (result : Outcome K)
      (next : Option (Set K) → Outcome K)
      → Ends s First m result
      → ((t : Set K) → Grows s First m t → Ends t Second n (next (some t)))
      → Ends s
          (λ key. First key ⊎ Second key)
          (m + n)
          (Option.bind result (λ out. and_then out next))
  unfolding Option.bind
  Ends-then s First Second m n result next ((status, h, keys), is, grows) rest =
      rw is (after status grows)
    where
      failed :
          (e : Status) → e ≢ ok → Ends s (λ key. First key ⊎ Second key) (m + n) (some (e, h, keys))
      failed e bad = ((e, h, keys), refl, (λ good. absurd (bad good)))

      after :
          (status : Status)
          → (status ≡ ok → (grown : Set K) × (h ≡ some grown) × Grows s First m grown)
          → Ends s (λ key. First key ⊎ Second key) (m + n) (and_then (status, h, keys) next)
      after ok grows =
          let (t, at, p) = grows refl in
          let ((status', h', keys'), is', grows') = rest t p in
          rw (at, is')
            (
              (status', h', keys ++ keys'),
              refl,
              (λ good.
                  let (u, at', q) = grows' good in
                  (u, at', Grows-trans s t u First Second m n p q)),
            )
      after invalid_argument grows = failed _ (λ e. cc)
      after out_of_memory grows = failed _ (λ e. cc)
      after overflow grows = failed _ (λ e. cc)
      after system_error grows = failed _ (λ e. cc)
      after timed_out grows = failed _ (λ e. cc)
      after closed grows = failed _ (λ e. cc)

  module _ (memory : Allocator) (equality : IsEquality same) where
    -- Adding a key to a valid set whose keys are not cloned and whose number fits `size_t` loses no
    -- search, whichever of its allocations fail: if it succeeds, the set is valid, with callbacks of
    -- the same meaning, and holds that key and those it held, and no other key.
    pub add_key_lem :
        (element_size p : ℕ) (key : K) (s : Set K)
        → SetIsValid bytes same s
        → length s.entries ≤ size_max
        → Ends s (λ k. same key k ≡ true) 1 (add_key memory bytes element_size p key (some s))
    unfolding add_key
    add_key_lem element_size p key s v small =
        let ((status, h, keys), is, r) =
          set_entry_lem bytes memory element_size element_size p (key, tt) s v.valid
            (Means-Respects bytes same s v.means) (v.means.borrowed) small in
        rw is (
          (status, h, keys),
          refl,
          (λ good.
              let (out, at) = r.stays in
              (
                out,
                at,
                grown out (subst (MapHandleIsValid bytes) at r.valid)
                    (ap get_config (sym at) ∙ r.policy) (ap map_key_size (sym at) ∙ r.sizes)
                    (elim (r.stores good) [
                      | inl (j, old, found_at, e, is') ↦
                          inl (j, old, found_at, e, ap entries_of (sym at) ∙ is')
                      | inr (none_same, is') ↦ inr (none_same, ap entries_of (sym at) ∙ is')
                    ]),
              )),
        )
      where
        grown :
            (out : Set K)
            → MapIsValid bytes out
            → out.config ≡ s.config
            → out.key_size ≡ s.key_size
            → ((j : ℕ) × (old : K × Unit {0}) × (get_elem? s.entries j ≡ some old)
                × (keys_equal bytes s old.0 key ≡ true)
                × (out.entries ≡ set s.entries j (key, tt)))
              ⊎ (NoEntry bytes s key × (out.entries ≡ s.entries ++ ((key, tt) ∷ [])))
            → Grows s (λ k. same key k ≡ true) 1 out
        grown out valid e n stored =
            let means : Means bytes same out.config out.key_size =
              subst₂ (λ c m. Means bytes same c m) (sym e) (sym n) v.means in
            elim stored [
              | inl (j, old, found_at, eq, is') ↦
                  let eq' = sym (v.means.equal_is old.0 key) ∙ eq in
                  let held =
                    λ (k : K). Holds-set same equality s.entries j old (key, tt) k found_at eq' in
                  record {
                    valid = record {
                      valid = valid;
                      means = means;
                      distinct = rw is' (
                          Distinct-set same equality s.entries j old (key, tt) found_at eq'
                            v.distinct);
                    };
                    keeps = λ k h. rw is' ((held k).0 h);
                    gains = λ k w. rw is' (
                        (held k).0 (
                          Holds-at same s.entries j old k found_at
                            (equality.transitive old.0 key k eq' w)));
                    only = λ k h. inl ((held k).1 (subst (λ l. Holds same l k) is' h));
                    longer = omega (arith, ap length is', length-set s.entries j (key, tt));
                  }
              | inr (none_same, is') ↦ record {
                valid = record {
                  valid = valid;
                  means = means;
                  distinct = rw is' (
                      Distinct-append same equality s.entries (key, tt) v.distinct
                        (not_Holds same s.entries key
                          (λ j old e. sym (v.means.equal_is old.0 key) ∙ none_same j old e)));
                };
                keeps = λ k h. rw is' (Holds-append same s.entries (key, tt) k (inl h));
                gains = λ k w. rw is' (Holds-append same s.entries (key, tt) k (inr w));
                only = λ k h.
                    Holds-before same s.entries (key, tt) k (subst (λ l. Holds same l k) is' h);
                longer = omega (arith, ap length is', length-append s.entries ((key, tt) ∷ []));
              }
            ]
