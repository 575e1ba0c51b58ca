-- ===== src/Map/Ops.antt =====
-- src/map.c: `lor_map_set_raw`, and finding. Operations that drop keys say which, in order. A result
-- of `none` means that a search among the buckets is lost.
use mathlib.Core.Option
use liblor.Common.{
  ltb, ◌==◌, if◌then◌else◌, length, get_elem?, get_or, set, size_max, add_size, sub_size, mul_size,
  ℕ, ◌+◌, ◌-◌, ◌/◌, Bool, true, false, not, ◌||◌, Option, none, some, List, [], ◌∷◌, ◌++◌,
}
use liblor.Status.{Status, ok, invalid_argument, out_of_memory, overflow}
use liblor.Array.{Alias, separate, beyond, inside}
use liblor.Map.{
  Config, Map, Probe, found, absent, lost, config_bytes, matches_layout, key_is_valid, find_bucket,
  insert_bucket,
}
use liblor.Map.Reserve.{Allocator, init_map, reserve_map}

-- Where an entry's address lies: elsewhere, at an entry of the map, or partly in its entries.
unfoldable pub entry_alias : {K V : Type 0} → Map K V → ℕ → Alias
entry_alias map entry =
    let initialized_bytes = mul_size (length map.entries) map.entry_size in
    if entry == 0
    then Alias.separate
    else if ltb (size_max / map.entry_size) (length map.entries)
    then Alias.beyond
    else if ltb (size_max - map.base) initialized_bytes
    then Alias.separate
    else if ltb entry map.base || ltb (add_size map.base initialized_bytes) entry
    then Alias.separate
    else let offset = sub_size entry map.base in
      if ltb initialized_bytes offset || ltb (initialized_bytes - offset) map.entry_size
      then Alias.beyond
      else Alias.inside offset

-- The keys that a call of `drop` releases, if there is one.
abbrev pub dropped : {K : Type 0} → Config K → List K → List K
dropped config keys = elim (config.drop) [ none ↦ [] | some p ↦ keys ]

module _ {K V : Type 0} where
  module _ (bytes : K → List ℕ) where
    -- `lor_map_find_raw`: the index of the entry whose address it returns. The outer `none` is a
    -- lost search, the inner one NULL; so is a key of `none`.
    unfoldable pub find_entry : ℕ → ℕ → Option K → Option (Map K V) → Option (Option ℕ)
    find_entry entry_size key_size key none = some none
    find_entry entry_size key_size none (some map) = some none
    find_entry entry_size key_size (some key) (some map) =
        if not (matches_layout (some map) entry_size key_size)
        then some none
        else if not (key_is_valid map key)
        then some none
        else elim (find_bucket bytes map key) [
          | lost ↦ none
          | absent ↦ some none
          | found bucket ↦ some (some (get_or map.buckets bucket 0 - 1))
        ]

    unfoldable pub contains_key : ℕ → ℕ → Option K → Option (Map K V) → Option Bool
    unfolding find_entry
    contains_key entry_size key_size key handle =
        Option.map (λ at_index. elim at_index [ none ↦ false | some index ↦ true ])
          (find_entry entry_size key_size key handle)

  module _ (memory : Allocator) where
    module _ (bytes : K → List ℕ) where
      -- The entry to store, or why it cannot be made: an entry of the map is copied, and the key is
      -- cloned where the configuration says so.
      abbrev pub cloned : Map K V → K × V → Option ℕ → Status × (K × V)
      cloned map entry none = (out_of_memory, entry)
      cloned map entry (some copy) = elim (map.config.clone) [
        | none ↦ (ok, entry)
        | some f ↦
            let (status, key) = f.call entry.0 map.key_size map.config.context in
            (status, (key, entry.1))
      ]

      abbrev pub prepare_entry : Map K V → K × V → Alias → Status × (K × V)
      prepare_entry map entry alias = elim (map.config.clone) [
        | some f ↦ cloned map entry (memory.malloc map.entry_size)
        | none ↦ elim alias [
          | separate ↦ (ok, entry)
          | beyond ↦ (ok, entry)
          | inside offset ↦ cloned map entry (memory.malloc map.entry_size)
        ]
      ]

      -- What a prepared entry that is not stored drops.
      abbrev pub drop_prepared : Map K V → K × V → List K
      drop_prepared map source = elim (map.config.clone) [
        | none ↦ []
        | some f ↦ dropped map.config (source.0 ∷ [])
      ]

      -- What a failed insertion leaves: a map that this call created is deinitialized.
      abbrev pub left_after : Bool → Map K V → Option (Map K V)
      left_after created map = if created then none else some map

      -- Replacing the entry at an index.
      abbrev pub replace_entry : Map K V → K × V → ℕ → Status × Option (Map K V) × List K
      replace_entry map source index =
          let old : List K = elim (get_elem? map.entries index) [
            | none ↦ []
            | some entry ↦ drop_prepared map entry
          ] in
          (ok, some (record map { entries = set map.entries index source }), old)

      -- Storing a new entry in the grown map.
      abbrev pub append_entry :
          Bool
          → Map K V
          → K × V
          → Status × Option (Map K V)
          → Option (Status × Option (Map K V) × List K)
      append_entry created map source (ok, some grown) =
          Option.map (λ stored. (ok, some stored, []))
            (insert_bucket bytes (record grown { entries = grown.entries ++ (source ∷ []) })
              source.0 (length map.entries))
      append_entry created map source (status, handle) =
          some (status, left_after created map, drop_prepared map source)

      -- The part of `set` behind the prepared entry.
      abbrev pub store_entry :
          Bool → Map K V → Probe → Status × (K × V) → Option (Status × Option (Map K V) × List K)
      store_entry created map where_key (ok, source) = elim where_key [
        | lost ↦ none
        | found bucket ↦ some (replace_entry map source (get_or map.buckets bucket 0 - 1))
        | absent ↦
            if length map.entries == size_max
            then some (overflow, left_after created map, drop_prepared map source)
            else Option.bind
                (reserve_map memory bytes map.entry_size map.key_size (length map.entries + 1)
                  (some map))
                (append_entry created map source)
      ]
      store_entry created map where_key (status, source) = some (status, some map, [])

      abbrev pub set_in : Bool → Map K V → ℕ → K × V → Option (Status × Option (Map K V) × List K)
      set_in created map p entry =
          let where_key = find_bucket bytes map entry.0 in
          if not (key_is_valid map entry.0)
          then some (invalid_argument, some map, [])
          else elim (entry_alias map p) [
            | beyond ↦ elim where_key [ lost ↦ none | _ ↦ some (invalid_argument, some map, []) ]
            | separate ↦ store_entry created map where_key (prepare_entry map entry Alias.separate)
            | inside offset ↦
                store_entry created map where_key (prepare_entry map entry (Alias.inside offset))
          ]

      -- A map that the call creates is one of byte keys.
      abbrev pub set_created :
          ℕ → K × V → Status × Option (Map K V) → Option (Status × Option (Map K V) × List K)
      set_created p entry (ok, some map) = set_in true map p entry
      set_created p entry (status, created) = some (status, created, [])

      -- `p` is the entry's address, 0 for NULL.
      unfoldable pub set_entry :
          ℕ → ℕ → ℕ → K × V → Option (Map K V) → Option (Status × Option (Map K V) × List K)
      set_entry entry_size key_size p entry handle =
          if p == 0
          then some (invalid_argument, handle, [])
          else if not (matches_layout handle entry_size key_size)
          then some (invalid_argument, handle, [])
          else elim handle [
            | some map ↦ set_in false map p entry
            | none ↦ set_created p entry (init_map memory entry_size key_size config_bytes none)
          ]
