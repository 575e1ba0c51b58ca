-- ===== src/Map/Inv.antt =====
-- The invariant of a map.
use liblor.Common.{length, ℕ, ◌+◌, ◌≤◌, ◌<◌, ◌≡◌, Option, none, some, List, []}
use liblor.Map.{Map}
use liblor.Map.Probing.{BucketsAreValid, empties}
use liblor.Map.Refilling.{Placed}

module _ {K V : Type 0} where
  abbrev pub entries_of : Option (Map K V) → List (K × V)
  entries_of none = []
  entries_of (some map) = map.entries

module _ {K V : Type 0} (bytes : K → List ℕ) where
  -- A map without buckets is empty; else there are more buckets than the capacity, as many are used as
  -- there are entries, and each entry is where the search for its key comes.
  pub record MapIsValid (map : Map K V) : Type 0 where
    pub within : length map.entries ≤ map.capacity
    pub filled : 0 < map.capacity → BucketsAreValid map
    pub spare : 0 < map.capacity → map.capacity < length map.buckets
    pub used : 0 < map.capacity → empties map.buckets + length map.entries ≡ length map.buckets
    pub placed : Placed bytes map map.entries 0
    pub none_yet : map.capacity ≡ 0 → map.buckets ≡ []

  abbrev pub MapHandleIsValid : Option (Map K V) → Type 0
  MapHandleIsValid none = Unit {0}
  MapHandleIsValid (some map) = MapIsValid map
