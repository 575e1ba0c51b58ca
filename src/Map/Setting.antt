-- ===== src/Map/Setting.antt =====
-- `lor_map_set_raw` replaces the entry of an equal key or adds one, and keeps the map valid.
use mathlib.Core.Option
use liblor.Common.{
  ◌==◌, Bool-cases, Option-cases, length, get_elem?, get_or, set, size_max, ℕ, ◌+◌, ◌-◌, ◌≤◌, ◌≡◌,
  refl, ap, ◌∙◌, ◌≢◌, ◌⊎◌, inl, inr, true, false, Option, none, some, List, [], ◌∷◌, ◌++◌, arith,
}
use liblor.Status.{
  Status, ok, invalid_argument, out_of_memory, overflow, system_error, timed_out, closed,
}
use liblor.Array.{Alias, separate, beyond, inside}
use liblor.Map.{
  Map, Probe, found, absent, lost, get_config, map_key_size, matches_layout, key_is_valid,
  keys_equal, find_bucket,
}
use liblor.Map.Reserve.{Allocator}
use liblor.Map.Ops.{entry_alias, prepare_entry, replace_entry, append_entry, store_entry, set_entry}
use liblor.Map.Probing.{Hits}
use liblor.Map.Inv.{entries_of, MapIsValid, MapHandleIsValid}
use liblor.Map.Growing.{ReservesMap, reserve_map_lem}
use liblor.Map.Placing.{replaced-IsValid, added_lem}
use liblor.Map.Looking.{Respects, NoEntry, Looked, find_in_valid}

-- A map that matches a layout has its key size.
key_size_of_layout :
    {K V : Type 0} (map : Map K V) (entry_size key_size : ℕ)
    → matches_layout (some map) entry_size key_size ≡ true
    → map.key_size ≡ key_size
key_size_of_layout map entry_size key_size fits = ground arith

module _ {K V : Type 0} (bytes : K → List ℕ) where
  -- What setting an entry does to a valid map.
  pub record Sets (map : Map K V) (entry : K × V) (out : Status × Option (Map K V) × List K)
      : Type 0 where
    pub valid : MapHandleIsValid bytes out.1
    pub stays : (left : Map K V) × (out.1 ≡ some left)
    pub policy : get_config out.1 ≡ map.config
    pub sizes : map_key_size out.1 ≡ map.key_size
    pub stores :
        out.0 ≡ ok
        → ((j : ℕ) × (old : K × V) × (get_elem? map.entries j ≡ some old)
            × (keys_equal bytes map old.0 entry.0 ≡ true)
            × (entries_of out.1 ≡ set map.entries j entry))
          ⊎ (NoEntry bytes map entry.0 × (entries_of out.1 ≡ map.entries ++ (entry ∷ [])))
    pub kept : out.0 ≢ ok → out.1 ≡ some map

  abbrev SetsTo : Map K V → K × V → Option (Status × Option (Map K V) × List K) → Type 0
  SetsTo map entry result =
      (out : Status × Option (Map K V) × List K) × (result ≡ some out) × Sets map entry out

  refused :
      (map : Map K V) (entry : K × V) (s : Status) (keys : List K)
      → MapIsValid bytes map
      → s ≢ ok
      → SetsTo map entry (some (s, some map, keys))
  refused map entry s keys v bad = (
    (s, some map, keys),
    refl,
    record {
      valid = v;
      stays = (map, refl);
      policy = refl;
      sizes = refl;
      stores = λ e. absurd (bad e);
      kept = λ _. refl;
    },
  )

  module _ (memory : Allocator) where
    appended :
        (map : Map K V) (entry : K × V) (out : Status × Option (Map K V))
        → MapIsValid bytes map
        → NoEntry bytes map entry.0
        → ReservesMap bytes map.entry_size map.key_size (length map.entries + 1) (some map) out
        → SetsTo map entry (append_entry memory bytes false map entry out)
    appended map entry (ok, some grown) v no_entry r =
        let (result, puts, more, policy, sizes, valid) =
          added_lem bytes grown entry r.valid (omega (arith, r.enough refl, ap length r.same)) in
        (
          (ok, some result, []),
          rw (← ap length r.same, puts) refl,
          record {
            valid = valid;
            stays = (result, refl);
            policy = policy ∙ r.config;
            sizes = sizes ∙ key_size_of_layout grown map.entry_size map.key_size (r.fits refl);
            stores = λ _. inr (no_entry, more ∙ ap (λ l. l ++ (entry ∷ [])) r.same);
            kept = λ bad. absurd (bad refl);
          },
        )
    appended map entry (ok, none) v no_entry r = absurd (omega (arith, r.enough refl))
    appended map entry (invalid_argument, h) v no_entry r = refused map entry _ _ v (λ e. cc)
    appended map entry (out_of_memory, h) v no_entry r = refused map entry _ _ v (λ e. cc)
    appended map entry (overflow, h) v no_entry r = refused map entry _ _ v (λ e. cc)
    appended map entry (system_error, h) v no_entry r = refused map entry _ _ v (λ e. cc)
    appended map entry (timed_out, h) v no_entry r = refused map entry _ _ v (λ e. cc)
    appended map entry (closed, h) v no_entry r = refused map entry _ _ v (λ e. cc)

    -- The part behind the search, for a map that does not clone keys.
    stored_lem :
        (map : Map K V) (entry : K × V) (where_key : Probe) (prepared : Status × (K × V))
        → MapIsValid bytes map
        → Respects bytes map
        → length map.entries ≤ size_max
        → Looked bytes map entry.0 where_key
        → (prepared ≡ (ok, entry)) ⊎ ((s : Status) × (s ≢ ok) × (prepared ≡ (s, entry)))
        → SetsTo map entry (store_entry memory bytes false map where_key prepared)
    unfolding Looked Hits Option.bind
    stored_lem map entry where_key prepared v respects small looked (inr (s, bad, e)) =
        rw e (failed s bad)
      where
        failed :
            (s : Status)
            → s ≢ ok
            → SetsTo map entry (store_entry memory bytes false map where_key (s, entry))
        failed ok bad' = absurd (bad' refl)
        failed invalid_argument bad' = refused map entry _ _ v bad'
        failed out_of_memory bad' = refused map entry _ _ v bad'
        failed overflow bad' = refused map entry _ _ v bad'
        failed system_error bad' = refused map entry _ _ v bad'
        failed timed_out bad' = refused map entry _ _ v bad'
        failed closed bad' = refused map entry _ _ v bad'
    stored_lem map entry lost prepared v respects small looked (inl e) = absurd looked
    stored_lem map entry (found b) prepared v respects small looked (inl e) =
        let index = get_or map.buckets b 0 - 1 in
        let (nonzero, (old, at_index, same)) = looked in
        rw e (
          replace_entry memory bytes map entry index,
          refl,
          record {
            valid =
                replaced-IsValid bytes map old entry index v at_index (respects old.0 entry.0 same);
            stays = (record map { entries = set map.entries index entry }, refl);
            policy = refl;
            sizes = refl;
            stores = λ _. inl (index, old, at_index, same, refl);
            kept = λ bad. absurd (bad refl);
          },
        )
    stored_lem map entry absent prepared v respects small looked (inl e) =
        elim (Bool-cases (length map.entries == size_max)) [
          | inl full ↦ rw (e, full) (refused map entry overflow _ v (λ d. cc))
          | inr room ↦
              let (out, puts, r) =
                reserve_map_lem bytes memory map.entry_size map.key_size (length map.entries + 1)
                  (some map) (ground arith) v in
              rw (e, room, puts) (appended map entry out v looked r)
        ]

    -- A key that is not cloned is stored as it is; an entry of the map itself is copied first.
    prepared_lem :
        (map : Map K V) (entry : K × V) (alias : Alias)
        → map.config.clone ≡ none
        → let prepared = prepare_entry memory bytes map entry alias in
          (prepared ≡ (ok, entry)) ⊎ ((s : Status) × (s ≢ ok) × (prepared ≡ (s, entry)))
    prepared_lem map entry separate c = rw c (inl refl)
    prepared_lem map entry beyond c = rw c (inl refl)
    prepared_lem map entry (inside offset) c = elim (Option-cases (memory.malloc map.entry_size)) [
      | inl failed ↦ rw (c, failed) (inr (out_of_memory, (λ e. cc), refl))
      | inr (copy, e) ↦ rw (c, e) (inl refl)
    ]

    -- Setting an entry in a valid map that does not clone keys and whose equal keys have the same hash,
    -- with a number of entries that fits `size_t`, never loses a search, whichever of its allocations
    -- fail. The map stays valid. On success the entry replaces one with an equal key, or there was
    -- none and it is added at the end; a call that fails leaves the map as it was.
    pub set_entry_lem :
        (entry_size key_size p : ℕ) (entry : K × V) (map : Map K V)
        → MapIsValid bytes map
        → Respects bytes map
        → map.config.clone ≡ none
        → length map.entries ≤ size_max
        → (out : Status × Option (Map K V) × List K) × (set_entry memory bytes entry_size key_size p
              entry
              (some map)
            ≡ some out)
          × Sets map entry out
    unfolding set_entry
    set_entry_lem entry_size key_size p entry map v respects c small =
        let where_key = find_bucket bytes map entry.0 in
        let looked = find_in_valid bytes map entry.0 v respects in
        elim (Bool-cases (p == 0)) [
          | inl null ↦ rw null (refused map entry invalid_argument [] v (λ e. cc))
          | inr real ↦ elim (Bool-cases (matches_layout (some map) entry_size key_size)) [
            | inr bad ↦ rw (real, bad) (refused map entry invalid_argument [] v (λ e. cc))
            | inl fits ↦ elim (Bool-cases (key_is_valid map entry.0)) [
              | inr bad ↦ rw (real, fits, bad) (refused map entry invalid_argument [] v (λ e. cc))
              | inl good ↦ rw (real, fits, good) (alias_case (entry_alias map p) where_key looked)
            ]
          ]
        ]
      where
        alias_case :
            (alias : Alias) (where_key : Probe)
            → Looked bytes map entry.0 where_key
            → SetsTo map entry (elim alias [
              | beyond ↦ elim where_key [ lost ↦ none | _ ↦ some (invalid_argument, some map, []) ]
              | separate ↦
                  store_entry memory bytes false map where_key
                    (prepare_entry memory bytes map entry Alias.separate)
              | inside offset ↦
                  store_entry memory bytes false map where_key
                    (prepare_entry memory bytes map entry (Alias.inside offset))
            ])
        alias_case separate where_key looked' =
            stored_lem map entry where_key _ v respects small looked'
              (prepared_lem map entry separate c)
        alias_case (inside offset) where_key looked' =
            stored_lem map entry where_key _ v respects small looked'
              (prepared_lem map entry (inside offset) c)
        alias_case beyond (found b) looked' = refused map entry invalid_argument [] v (λ e. cc)
        alias_case beyond absent looked' = refused map entry invalid_argument [] v (λ e. cc)
        alias_case beyond lost looked' = absurd (unfold Looked in looked')
