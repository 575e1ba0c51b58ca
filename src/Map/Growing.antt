-- ===== src/Map/Growing.antt =====
-- `lor_map_reserve_raw` keeps the entries, each where the search for its key comes.
use liblor.Common.{
  ltb, leb, ◌==◌, if◌then◌else◌, Bool-cases, Option-cases, length, size_max, add_size, mul_size,
  double_until_enough, double_until_bounds, ℕ, ◌+◌, ◌-◌, ◌/◌, ◌^◌, ◌≤◌, ◌<◌, ◌≡◌, refl, sym, ap,
  subst, ◌∙◌, ◌≢◌, inl, inr, true, Option, none, some, List, arith,
}
use liblor.Status.{Status, ok, invalid_argument, out_of_memory, overflow}
use liblor.Map.{
  Map, map_header_size, layout_valid, config_bytes, get_config, map_capacity, matches_layout,
}
use liblor.Map.Reserve.{
  Allocator, entry_capacity, bucket_capacity, empty_map, regrown, reserve_blocks, reserve_header,
  reserve_buckets, reserve_map,
}
use liblor.Map.Capacity.{bucket_capacity-some}
use liblor.Map.Refilling.{fill_buckets_lem}
use liblor.Map.Inv.{entries_of, MapHandleIsValid}

same_number : (n : ℕ) → (n == n) ≡ true
same_number n = ground arith

created_fits :
    (K V : Type 0) (entry_size key_size p : ℕ)
    → layout_valid entry_size key_size ≡ true
    → matches_layout
        (some (empty_map {K = K} {V = V} entry_size key_size config_bytes p))
        entry_size
        key_size
      ≡ true
created_fits K V entry_size key_size p valid =
    rw (valid, same_number entry_size, same_number key_size) refl

module _ {K V : Type 0} (bytes : K → List ℕ) where
  pub record ReservesMap (entry_size key_size capacity : ℕ) (handle : Option (Map K V))
      (out : Status × Option (Map K V)) : Type 0 where
    pub valid : MapHandleIsValid bytes out.1
    pub same : entries_of out.1 ≡ entries_of handle
    pub config : get_config out.1 ≡ get_config handle
    pub fits : out.0 ≡ ok → matches_layout out.1 entry_size key_size ≡ true
    pub enough : out.0 ≡ ok → capacity ≤ map_capacity out.1
    pub kept : out.0 ≢ ok → out.1 ≡ handle

  -- Growing a block to a power of two of buckets.
  regrown_lem :
      (memory : Allocator) (map : Map K V) (handle : Option (Map K V))
      (entry_size key_size capacity nc c header k : ℕ)
      → matches_layout (some map) entry_size key_size ≡ true
      → entries_of handle ≡ map.entries
      → get_config handle ≡ map.config
      → length map.entries ≤ nc
      → 0 < nc
      → capacity ≤ nc
      → nc < c
      → c ≡ 2 ^ k
      → (out : Status × Option (Map K V)) × (regrown memory bytes map nc c header ≡ some out)
        × ReservesMap entry_size key_size capacity handle out
  regrown_lem memory map handle entry_size key_size capacity nc c header k shape entries config
        within pos enough more power =
      let block = record map { capacity = nc; base = header + map_header_size } in
      let (filled, is, valid, width, used, placed) = fill_buckets_lem bytes block k (omega arith) in
      let result = record block { buckets = filled } in
      (
        (ok, some result),
        rw (power, is) refl,
        record {
          valid = record {
            within = within;
            filled = λ _. valid;
            spare = λ _. omega arith;
            used = λ _. used ∙ sym width;
            placed = placed;
            none_yet = λ z. absurd (omega arith);
          };
          same = sym entries;
          config = sym config;
          fits = λ _. shape;
          enough = λ _. enough;
          kept = λ bad. absurd (bad refl);
        },
      )

  -- The branches of `reserve_map`, by what they leave to show: it fails, there is room, or a block
  -- at `header` is grown, which is that of the handle or a new one.
  reserve_map_cases :
      (P : Option (Status × Option (Map K V)) → Type 0) (memory : Allocator)
      (entry_size key_size capacity : ℕ) (handle : Option (Map K V))
      → capacity ≤ size_max
      → ((s : Status) → s ≢ ok → P (some (s, handle)))
      → (matches_layout handle entry_size key_size ≡ true
          → capacity ≤ map_capacity handle
          → P (some (ok, handle)))
      → ((map : Map K V) (nc c header k : ℕ)
          → matches_layout (some map) entry_size key_size ≡ true
          → entries_of handle ≡ map.entries
          → get_config handle ≡ map.config
          → map_capacity handle ≤ nc
          → 0 < nc
          → capacity ≤ nc
          → nc < c
          → c ≡ 2 ^ k
          → P (regrown memory bytes map nc c header))
      → P (reserve_map memory bytes entry_size key_size capacity handle)
  unfolding reserve_map
  reserve_map_cases P memory entry_size key_size capacity handle r refuse keep grow =
      let current = map_capacity handle in
      let start = if ltb current 8 then 8 else current in
      let nc = entry_capacity current capacity in
      let enough = double_until_enough 64 start capacity r (ground arith) in
      let bounds = double_until_bounds 64 start capacity r in
      let pos : 0 < nc = ground arith in
      let more : current ≤ nc = ground arith in
      elim (Bool-cases (matches_layout handle entry_size key_size)) [
        | inr bad ↦ rw bad (refuse invalid_argument (λ e. cc))
        | inl fits ↦ elim (Bool-cases (leb capacity current)) [
          | inl room ↦ rw (fits, room) (keep fits (ground arith))
          | inr short ↦ elim (Bool-cases (ltb ((size_max - map_header_size) / entry_size) nc)) [
            | inl large ↦ rw (fits, short, large) (refuse overflow (λ e. cc))
            | inr small ↦ elim (Option-cases (bucket_capacity nc)) [
              | inl over ↦ rw (fits, short, small, over) (refuse overflow (λ e. cc))
              | inr (c, e) ↦
                  let (wide, (k, power)) = bucket_capacity-some nc c pos e in
                  rw (fits, short, small, e) (buckets_case nc c k fits pos enough more wide power)
            ]
          ]
        ]
      ]
    where
      header_case :
          (handle' : Option (Map K V)) (nc c k : ℕ)
          → handle' ≡ handle
          → matches_layout handle' entry_size key_size ≡ true
          → 0 < nc
          → capacity ≤ nc
          → map_capacity handle ≤ nc
          → nc < c
          → c ≡ 2 ^ k
          → P (reserve_header memory bytes entry_size key_size handle' nc c)
      header_case (some map) nc c k same fits pos enough more wide power =
          let size = add_size map_header_size (mul_size nc map.entry_size) in
          elim (Option-cases (memory.realloc (some (map.base - map_header_size)) size)) [
            | inl failed ↦
                rw (reserve_header, reserve_blocks, failed)
                  (subst (λ h. P (some (out_of_memory, h))) (sym same)
                    (refuse out_of_memory (λ e. cc)))
            | inr (header, e) ↦
                rw (reserve_header, reserve_blocks, e)
                  (grow map nc c header k fits (ap entries_of (sym same)) (ap get_config (sym same))
                    more pos enough wide power)
          ]
      header_case none nc c k same fits pos enough more wide power =
          elim (Option-cases (memory.malloc map_header_size)) [
            | inl failed ↦
                rw (reserve_header, failed)
                  (subst (λ h. P (some (out_of_memory, h))) (sym same)
                    (refuse out_of_memory (λ e. cc)))
            | inr (p, got) ↦
                let size = add_size map_header_size (mul_size nc entry_size) in
                elim (Option-cases (memory.realloc (some p) size)) [
                  | inl failed ↦
                      rw (reserve_header, got, reserve_blocks, failed)
                        (subst (λ h. P (some (out_of_memory, h))) (sym same)
                          (refuse out_of_memory (λ e. cc)))
                  | inr (header, e) ↦
                      rw (reserve_header, got, reserve_blocks, e)
                        (grow (empty_map entry_size key_size config_bytes p) nc c header k
                          (created_fits K V entry_size key_size p fits) (ap entries_of (sym same))
                          (ap get_config (sym same)) more pos enough wide power)
                ]
          ]

      buckets_case :
          (nc c k : ℕ)
          → matches_layout handle entry_size key_size ≡ true
          → 0 < nc
          → capacity ≤ nc
          → map_capacity handle ≤ nc
          → nc < c
          → c ≡ 2 ^ k
          → P (reserve_buckets memory bytes entry_size key_size handle nc (some c))
      buckets_case nc c k fits pos enough more wide power =
          elim (Bool-cases (ltb (size_max / 8) c)) [
            | inl large ↦ rw large (refuse overflow (λ e. cc))
            | inr small ↦ elim (Option-cases (memory.calloc c 8)) [
              | inl failed ↦ rw (small, failed) (refuse out_of_memory (λ e. cc))
              | inr (p, e) ↦
                  rw (small, e) (header_case handle nc c k refl fits pos enough more wide power)
            ]
          ]

  -- Reserving a capacity that fits `size_t` in a valid map never loses a search, whichever of its
  -- allocations fail: the map stays valid, each entry in a bucket that the search for its key
  -- comes to, with the same entries and configuration; on success the map has the layout that was
  -- passed and at least the capacity asked for; a call that fails leaves the map as it was.
  pub reserve_map_lem :
      (memory : Allocator) (entry_size key_size capacity : ℕ) (handle : Option (Map K V))
      → capacity ≤ size_max
      → MapHandleIsValid bytes handle
      → (out : Status × Option (Map K V)) × (reserve_map memory bytes entry_size key_size capacity
            handle
          ≡ some out)
        × ReservesMap entry_size key_size capacity handle out
  reserve_map_lem memory entry_size key_size capacity handle r v =
      reserve_map_cases
        (λ result.
          (out : Status × Option (Map K V)) × (result ≡ some out)
          × ReservesMap entry_size key_size capacity handle out)
        memory entry_size key_size capacity handle r
        (λ s bad. (
          (s, handle),
          refl,
          record {
            valid = v;
            same = refl;
            config = refl;
            fits = λ e. absurd (bad e);
            enough = λ e. absurd (bad e);
            kept = λ _. refl;
          },
        ))
        (λ fits room. (
          (ok, handle),
          refl,
          record {
            valid = v;
            same = refl;
            config = refl;
            fits = λ _. fits;
            enough = λ _. room;
            kept = λ _. refl;
          },
        ))
        (λ map nc c header k shape entries config more pos enough wide power.
          regrown_lem memory map handle entry_size key_size capacity nc c header k shape entries
            config (entries_fit handle map nc v entries more) pos enough wide power)
    where
      entries_fit :
          (handle : Option (Map K V)) (map : Map K V) (nc : ℕ)
          → MapHandleIsValid bytes handle
          → entries_of handle ≡ map.entries
          → map_capacity handle ≤ nc
          → length map.entries ≤ nc
      entries_fit none map nc v e h = omega (arith, ap length e)
      entries_fit (some old) map nc v e h = omega (arith, ap length e, v.within)
