-- ===== src/Map.antt =====
-- src/map.c and include/lor/map.h: the hash map, its layout, callbacks and buckets. The entries are
-- a dense sequence, and a bucket holds 0 or an index into it plus one.
pub mod Reserve
pub mod Ops
pub mod Removal
pub mod Views
pub mod Capacity
pub mod Probing
pub mod Finding
pub mod Inserting
pub mod Refilling
pub mod Inv
pub mod Growing
pub mod Placing
pub mod Looking
pub mod Setting
pub mod ByteKeys
mod Tests
mod KeyTests
use Prim.Native.Nat.{bit_and, bit_xor}
use mathlib.Core.Option
use liblor.Common.{
  leb, ◌==◌, if◌then◌else◌, length, get_elem?, get_or, set, sub_size, ℕ, zero, suc, ◌+◌, ◌-◌, ◌*◌,
  ◌%◌, ◌^◌, Bool, true, false, not, ◌&&◌, Option, none, some, List, [], ◌∷◌,
}
use liblor.Status.{Status}

-- A function pointer: where the function lies, and what it does.
pub record Callback {ℓ} (F : Type ℓ) : Type ℓ where
  pub address : ℕ
  pub call : F

-- Every callback takes the key size and the context. `clone` gives the status and the new key;
-- dropping a key is recorded by the operations.
pub record Config (K : Type 0) : Type 0 where
  pub hash : Option (Callback (K → ℕ → ℕ → ℕ))
  pub equal : Option (Callback (K → K → ℕ → ℕ → Bool))
  pub key_valid : Option (Callback (K → ℕ → ℕ → Bool))
  pub clone : Option (Callback (K → ℕ → ℕ → Status × K))
  pub drop : Option ℕ
  pub context : ℕ

-- The entries that are initialized, each with its key first; `base` is the address of the first.
pub record Map (K V : Type 0) : Type 0 where
  pub entries : List (K × V)
  pub capacity : ℕ
  pub entry_size : ℕ
  pub key_size : ℕ
  pub base : ℕ
  pub buckets : List ℕ
  pub config : Config K

-- `sizeof(LorMapHeader)`: twelve words of 8 bytes.
abbrev pub map_header_size : ℕ
map_header_size = 96

-- FNV-1a.
unfoldable pub hash_from : ℕ → List ℕ → ℕ
hash_from h [] = h
hash_from h (byte ∷ bytes) = hash_from (bit_xor h byte * 1099511628211 % 2 ^ 64) bytes

unfoldable pub hash_bytes : List ℕ → ℕ
unfolding hash_from
hash_bytes bytes = hash_from 14695981039346656037 bytes

-- `memcmp(a, b, n) == 0` of as many bytes.
abbrev pub same_list : List ℕ → List ℕ → Bool
same_list [] [] = true
same_list [] (y ∷ ys) = false
same_list (x ∷ xs) [] = false
same_list (x ∷ xs) (y ∷ ys) = x == y && same_list xs ys

-- Whether two function pointers are the same; NULL is `none`.
abbrev pub same_address {ℓ} : {F : Type ℓ} → Option (Callback F) → Option (Callback F) → Bool
same_address none none = true
same_address none (some g) = false
same_address (some f) none = false
same_address (some f) (some g) = f.address == g.address

abbrev pub same_pointer : Option ℕ → Option ℕ → Bool
same_pointer none none = true
same_pointer none (some q) = false
same_pointer (some p) none = false
same_pointer (some p) (some q) = p == q

-- Whether two pointers are both NULL or both set.
abbrev pub both_or_none {ℓ ℓ'} : {A : Type ℓ} {B : Type ℓ'} → Option A → Option B → Bool
both_or_none none none = true
both_or_none none (some b) = false
both_or_none (some a) none = false
both_or_none (some a) (some b) = true

abbrev pub layout_valid : ℕ → ℕ → Bool
layout_valid entry_size key_size = not (key_size == 0) && leb key_size entry_size

abbrev pub probe_distance : ℕ → ℕ → ℕ → ℕ
probe_distance ideal actual mask = bit_and (sub_size actual ideal) mask

-- Where a key is: at a bucket, or nowhere. `lost` is a search that does not end, or that reads an
-- entry which is not there.
pub data Probe : Type 0 where
  found : ℕ → Probe
  absent : Probe
  lost : Probe

-- The first empty bucket from `bucket` on.
unfoldable pub free_bucket : ℕ → List ℕ → ℕ → Option ℕ
free_bucket zero buckets bucket = none
free_bucket (suc fuel) buckets bucket =
    let rest = free_bucket fuel buckets (bit_and (bucket + 1) (length buckets - 1)) in
    if get_or buckets bucket 0 == 0 then some bucket else rest

module _ {K : Type 0} where
  abbrev pub config_bytes : Config K
  config_bytes = record {
    hash = none;
    equal = none;
    key_valid = none;
    clone = none;
    drop = none;
    context = 0;
  }

  unfoldable pub config_equal : Config K → Config K → Bool
  config_equal a b =
      same_address a.hash b.hash
      && same_address a.equal b.equal
      && same_address a.key_valid b.key_valid
      && same_address a.clone b.clone
      && same_pointer a.drop b.drop
      && a.context == b.context

  abbrev pub config_valid : Config K → Bool
  config_valid config =
      both_or_none config.hash config.equal && both_or_none config.clone config.drop

module _ {K V : Type 0} where
  abbrev pub get_config : Option (Map K V) → Config K
  get_config none = config_bytes
  get_config (some map) = map.config

  abbrev pub map_size : Option (Map K V) → ℕ
  map_size none = 0
  map_size (some map) = length map.entries

  abbrev pub map_capacity : Option (Map K V) → ℕ
  map_capacity none = 0
  map_capacity (some map) = map.capacity

  abbrev pub map_entry_size : Option (Map K V) → ℕ
  map_entry_size none = 0
  map_entry_size (some map) = map.entry_size

  abbrev pub map_key_size : Option (Map K V) → ℕ
  map_key_size none = 0
  map_key_size (some map) = map.key_size

  abbrev pub matches_layout : Option (Map K V) → ℕ → ℕ → Bool
  matches_layout none entry_size key_size = layout_valid entry_size key_size
  matches_layout (some map) entry_size key_size =
      layout_valid entry_size key_size && map.entry_size == entry_size && map.key_size == key_size

  -- `lor_map__key_valid`
  abbrev pub key_is_valid : Map K V → K → Bool
  key_is_valid map key = elim (map.config.key_valid) [
    | none ↦ true
    | some f ↦ f.call key map.key_size map.config.context
  ]

  abbrev pub bucket_for : Map K V → ℕ → ℕ
  bucket_for map h = bit_and h (length map.buckets - 1)

  -- `bytes` are the bytes of a key in memory, which the default callbacks read.
  module _ (bytes : K → List ℕ) where
    abbrev pub hash_of : Map K V → K → ℕ
    hash_of map key = elim (map.config.hash) [
      | none ↦ hash_bytes (bytes key)
      | some f ↦ f.call key map.key_size map.config.context
    ]

    abbrev pub keys_equal : Map K V → K → K → Bool
    keys_equal map a b = elim (map.config.equal) [
      | none ↦ same_list (bytes a) (bytes b)
      | some f ↦ f.call a b map.key_size map.config.context
    ]

    -- The buckets from `bucket` on, over as many as the fuel says.
    unfoldable pub probe : ℕ → Map K V → K → ℕ → Probe
    probe zero map key bucket = lost
    probe (suc fuel) map key bucket =
        let rest = probe fuel map key (bit_and (bucket + 1) (length map.buckets - 1)) in
        let stored = get_or map.buckets bucket 0 in
        if stored == 0 then absent else elim (get_elem? map.entries (stored - 1)) [
          | none ↦ lost
          | some entry ↦ if keys_equal map entry.0 key then found bucket else rest
        ]

    -- Every bucket is looked at once.
    unfoldable pub find_bucket : Map K V → K → Probe
    unfolding probe
    find_bucket map key =
        if length map.buckets == 0
        then absent
        else probe (length map.buckets) map key (bucket_for map (hash_of map key))

    -- `insert_bucket` of an entry with this key at an index.
    unfoldable pub insert_bucket : Map K V → K → ℕ → Option (Map K V)
    unfolding free_bucket
    insert_bucket map key index =
        Option.map (λ bucket. record map { buckets = set map.buckets bucket (index + 1) })
          (free_bucket (length map.buckets) map.buckets (bucket_for map (hash_of map key)))

    -- The loop of `fill_buckets` over the entries from index `i` on.
    unfoldable pub fill_from : List (K × V) → ℕ → Map K V → Option (Map K V)
    unfolding insert_bucket
    fill_from [] i map = some map
    fill_from ((key, value) ∷ entries) i map =
        Option.bind (insert_bucket map key i) (fill_from entries (i + 1))

    unfoldable pub fill_buckets : Map K V → List ℕ → Option (Map K V)
    unfolding fill_from
    fill_buckets map buckets = fill_from map.entries 0 (record map { buckets = buckets })
