-- ===== src/Map/Reserve.antt =====
-- src/map.c: creating a map and growing it. A result of `none` means that a search among the buckets
-- is lost.
use mathlib.Core.Option
use liblor.Common.{
  ltb, leb, ◌==◌, if◌then◌else◌, replicate, size_max, add_size, mul_size, Realloc, double_until, ℕ,
  zero, suc, ◌+◌, ◌-◌, ◌*◌, ◌/◌, ◌%◌, ◌^◌, not, ◌||◌, Option, none, some, List, [],
}
use liblor.Status.{Status, ok, invalid_argument, out_of_memory, overflow}
use liblor.Map.{
  Config, Map, map_header_size, layout_valid, config_bytes, config_valid, map_capacity,
  matches_layout, fill_buckets,
}

-- The allocator, by whether and where its calls succeed.
pub record Allocator : Type 0 where
  pub malloc : ℕ → Option ℕ
  pub calloc : ℕ → ℕ → Option ℕ
  pub realloc : Realloc

abbrev pub entry_capacity : ℕ → ℕ → ℕ
entry_capacity current required = double_until 64 (if ltb current 8 then 8 else current) required

-- The doubling loop of `bucket_capacity`, on fuel; `none` is the overflow.
unfoldable pub double_buckets : ℕ → ℕ → ℕ → Option ℕ
double_buckets zero result required = none
double_buckets (suc fuel) result required =
    let rest = double_buckets fuel (result * 2 % 2 ^ 64) required in
    if ltb result required then if ltb (size_max / 2) result then none else rest else some result

unfoldable pub bucket_capacity : ℕ → Option ℕ
unfolding double_buckets
bucket_capacity required_entries =
    if required_entries == 0
    then some 0
    else if ltb (size_max / 4) required_entries
    then none
    else double_buckets 64 8 (add_size (add_size required_entries (required_entries / 3)) 1)

module _ {K V : Type 0} where
  -- `lor_map__allocate_header`, at the address of the header.
  abbrev pub empty_map : ℕ → ℕ → Config K → ℕ → Map K V
  empty_map entry_size key_size config header = record {
    entries = [];
    capacity = 0;
    entry_size = entry_size;
    key_size = key_size;
    base = header + map_header_size;
    buckets = [];
    config = config;
  }

  module _ (memory : Allocator) where
    unfoldable pub init_map : ℕ → ℕ → Config K → Option (Map K V) → Status × Option (Map K V)
    init_map entry_size key_size config (some map) = (invalid_argument, some map)
    init_map entry_size key_size config none =
        if not (layout_valid entry_size key_size) || not (config_valid config)
        then (invalid_argument, none)
        else elim (memory.malloc map_header_size) [
          | none ↦ (out_of_memory, none)
          | some header ↦ (ok, some (empty_map entry_size key_size config header))
        ]

    module _ (bytes : K → List ℕ) where
      -- The grown block, with all entries put into the new buckets.
      abbrev pub regrown : Map K V → ℕ → ℕ → ℕ → Option (Status × Option (Map K V))
      regrown map new_capacity new_bucket_capacity header =
          Option.map (λ filled. (ok, some filled))
            (fill_buckets bytes
              (record map { capacity = new_capacity; base = header + map_header_size })
              (replicate new_bucket_capacity 0))

      -- The part of `reserve` that allocates; `handle` is what a failure leaves.
      abbrev pub reserve_blocks :
          Option (Map K V) → Map K V → Option ℕ → ℕ → ℕ → Option (Status × Option (Map K V))
      reserve_blocks handle map old_header new_capacity new_bucket_capacity =
          let size = add_size map_header_size (mul_size new_capacity map.entry_size) in
          elim (memory.realloc old_header size) [
            | none ↦ some (out_of_memory, handle)
            | some header ↦ regrown map new_capacity new_bucket_capacity header
          ]

      -- A NULL map gets a header of byte keys first.
      abbrev pub reserve_header :
          ℕ → ℕ → Option (Map K V) → ℕ → ℕ → Option (Status × Option (Map K V))
      reserve_header entry_size key_size (some map) new_capacity new_bucket_capacity =
          reserve_blocks (some map) map (some (map.base - map_header_size)) new_capacity
            new_bucket_capacity
      reserve_header entry_size key_size none new_capacity new_bucket_capacity =
          elim (memory.malloc map_header_size) [
            | none ↦ some (out_of_memory, none)
            | some header ↦
                reserve_blocks none (empty_map entry_size key_size config_bytes header)
                  (some header) new_capacity new_bucket_capacity
          ]

      -- The part of `reserve` behind the number of buckets.
      abbrev pub reserve_buckets :
          ℕ → ℕ → Option (Map K V) → ℕ → Option ℕ → Option (Status × Option (Map K V))
      reserve_buckets entry_size key_size handle new_capacity none = some (overflow, handle)
      reserve_buckets entry_size key_size handle new_capacity (some new_bucket_capacity) =
          if ltb (size_max / 8) new_bucket_capacity
          then some (overflow, handle)
          else elim (memory.calloc new_bucket_capacity 8) [
            | none ↦ some (out_of_memory, handle)
            | some p ↦ reserve_header entry_size key_size handle new_capacity new_bucket_capacity
          ]

      unfoldable pub reserve_map : ℕ → ℕ → ℕ → Option (Map K V) → Option (Status × Option (Map K V))
      reserve_map entry_size key_size capacity handle =
          let new_capacity = entry_capacity (map_capacity handle) capacity in
          if not (matches_layout handle entry_size key_size)
          then some (invalid_argument, handle)
          else if leb capacity (map_capacity handle)
          then some (ok, handle)
          else if ltb ((size_max - map_header_size) / entry_size) new_capacity
          then some (overflow, handle)
          else reserve_buckets entry_size key_size handle new_capacity
              (bucket_capacity new_capacity)
