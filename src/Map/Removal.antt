-- ===== src/Map/Removal.antt =====
-- src/map.c: `lor_map_remove_raw`, clear and deinit. They say which keys they drop, in order. A result
-- of `none` means that a search among the buckets is lost.
use Prim.Native.Nat.{bit_and}
use mathlib.Core.Option
use liblor.Common.{
  ltb, ◌==◌, if◌then◌else◌, length, get_elem?, get_or, set, take, replicate, ℕ, zero, suc, ◌+◌, ◌-◌,
  Bool, true, false, not, Option, none, some, List, [], ◌∷◌,
}
use liblor.Map.{
  Map, probe_distance, Probe, found, absent, lost, matches_layout, key_is_valid, bucket_for,
  hash_of, find_bucket,
}
use liblor.Map.Ops.{dropped}

module _ {K V : Type 0} where
  module _ (bytes : K → List ℕ) where
    -- Whether the entry of a bucket moves into the hole: it is nearer to where its search begins.
    abbrev pub moves_back : Map K V → K → ℕ → ℕ → Bool
    moves_back map key hole next =
        let mask = length map.buckets - 1 in
        let ideal = bucket_for map (hash_of bytes map key) in
        ltb (probe_distance ideal hole mask) (probe_distance ideal next mask)

    -- The loop of `erase_bucket`: the later entries of the run are moved back over the hole.
    unfoldable pub erase_from : ℕ → Map K V → ℕ → ℕ → Option (Map K V)
    erase_from zero map hole next = none
    erase_from (suc fuel) map hole next =
        let stored = get_or map.buckets next 0 in
        let after = bit_and (next + 1) (length map.buckets - 1) in
        if stored == 0
        then some (record map { buckets = set map.buckets hole 0 })
        else elim (get_elem? map.entries (stored - 1)) [
          | none ↦ none
          | some entry ↦
              let back = moves_back map entry.0 hole next in
              erase_from fuel
                (if back then record map { buckets = set map.buckets hole stored } else map)
                (if back then next else hole) after
        ]

    -- The loop passes the other buckets once at most.
    unfoldable pub erase_bucket : Map K V → ℕ → Option (Map K V)
    unfolding erase_from
    erase_bucket map bucket =
        erase_from (length map.buckets) map bucket (bit_and (bucket + 1) (length map.buckets - 1))

    -- The bucket of the entry that moved to an index is made to say so.
    abbrev pub point_to : Map K V → ℕ → Probe → Option (Map K V)
    point_to map index lost = none
    point_to map index absent = some map
    point_to map index (found bucket) =
        some (record map { buckets = set map.buckets bucket (index + 1) })

    -- The last entry is copied over the one at an index.
    abbrev pub fill_gap : ℕ → ℕ → Map K V → Option (Map K V)
    fill_gap index last map = elim (get_elem? map.entries last) [
      | none ↦ none
      | some entry ↦
          let filled = record map { entries = set map.entries index entry } in
          if index == last
          then some map
          else point_to filled index (find_bucket bytes filled entry.0)
    ]

    -- What removing the entry of a bucket drops and leaves.
    abbrev pub remove_at : Map K V → ℕ → Option (Bool × Option (Map K V) × List K)
    remove_at map bucket =
        let index = get_or map.buckets bucket 0 - 1 in
        let last = length map.entries - 1 in
        let keys : List K = elim (get_elem? map.entries index) [
          | none ↦ []
          | some entry ↦ dropped map.config (entry.0 ∷ [])
        ] in
        Option.map
          (λ filled. (true, some (record filled { entries = take last filled.entries }), keys))
          (Option.bind (erase_bucket map bucket) (fill_gap index last))

    unfoldable pub remove_key :
        ℕ → ℕ → Option K → Option (Map K V) → Option (Bool × Option (Map K V) × List K)
    remove_key entry_size key_size key none = some (false, none, [])
    remove_key entry_size key_size none (some map) = some (false, some map, [])
    remove_key entry_size key_size (some key) (some map) =
        if not (matches_layout (some map) entry_size key_size)
        then some (false, some map, [])
        else if not (key_is_valid map key)
        then some (false, some map, [])
        else elim (find_bucket bytes map key) [
          | lost ↦ none
          | absent ↦ some (false, some map, [])
          | found bucket ↦ remove_at map bucket
        ]

  abbrev pub keys_of : List (K × V) → List K
  keys_of [] = []
  keys_of (entry ∷ entries) = entry.0 ∷ keys_of entries

  unfoldable pub clear_map : Option (Map K V) → Option (Map K V) × List K
  clear_map none = (none, [])
  clear_map (some map) = (
    some (record map { entries = []; buckets = replicate (length map.buckets) 0 }),
    dropped map.config (keys_of map.entries),
  )

  -- `none` is a NULL reference; else the handle becomes NULL.
  unfoldable pub deinit_map : Option (Option (Map K V)) → Option (Option (Map K V)) × List K
  unfolding clear_map
  deinit_map none = (none, [])
  deinit_map (some handle) = (some none, (clear_map handle).1)
