-- ===== src/Map/Tests.antt =====
-- Runs and instances of the theorems on a map from one byte to a number.
use mathlib.Core.Option
use liblor.Common.{
  get_or, replicate, get_or-le, mul_size, double_until, ℕ, ◌%◌, ◌≡◌, refl, sym, ap, ◌∙◌, true,
  Option, none, some, List, [], ◌∷◌, ◌++◌, arith,
}
use liblor.Status.{Status, ok}
use liblor.Map.{
  Map, hash_bytes, found, config_bytes, hash_of, find_bucket, insert_bucket, fill_buckets,
}
use liblor.Map.Reserve.{Allocator, bucket_capacity, init_map, reserve_map}
use liblor.Map.Ops.{entry_alias, find_entry, set_entry}
use liblor.Map.Removal.{erase_bucket, remove_key}
use liblor.Map.Probing.{BucketsAreValid, around}
use liblor.Map.Finding.{Searched, find_bucket_lem}
use liblor.Map.Inv.{MapIsValid}
use liblor.Map.Growing.{ReservesMap, reserve_map_lem}
use liblor.Map.Looking.{Respects, Finds, find_entry_lem}
use liblor.Map.Setting.{Sets, set_entry_lem}
use liblor.Map.ByteKeys.{same_list_lem}

abbrev plenty : Allocator
plenty = record {
  malloc = λ n. some 1000;
  calloc = λ count size. some 2000;
  realloc = λ old n. some 3000;
}

abbrev one_byte : ℕ → List ℕ
one_byte key = key ∷ []

-- The keys 7 and 15 with 8 buckets.
abbrev two_keys : Map ℕ ℕ
two_keys = record {
  entries = (7, 70) ∷ (15, 150) ∷ [];
  capacity = 3;
  entry_size = 16;
  key_size = 1;
  base = 3096;
  buckets = 0 ∷ 0 ∷ 0 ∷ 0 ∷ 0 ∷ 0 ∷ 1 ∷ 2 ∷ [];
  config = config_bytes;
}

-- Both keys' searches begin at bucket 6.
same_start : (hash_of one_byte two_keys 7 % 8 ≡ 6) × (hash_of one_byte two_keys 15 % 8 ≡ 6)
unfolding hash_bytes
same_start = (refl, refl)

second_found : find_bucket one_byte two_keys 15 ≡ found 7
unfolding find_bucket hash_bytes
second_found = refl

abbrev entry_7 : ℕ × ℕ
entry_7 = (7, 70)

-- The first entry of a NULL map.
first_set :
    set_entry plenty one_byte 16 1 500 entry_7 none
    ≡ some (
      ok,
      some (record {
        entries = (7, 70) ∷ [];
        capacity = 8;
        entry_size = 16;
        key_size = 1;
        base = 3096;
        buckets = replicate 6 0 ++ (1 ∷ replicate 9 0);
        config = config_bytes;
      }),
      [],
    )
unfolding set_entry init_map find_bucket entry_alias reserve_map bucket_capacity double_until
    fill_buckets insert_bucket hash_bytes mul_size Option.bind
first_set = refl

-- Removing the first key moves the last entry into its place.
first_removed :
    remove_key one_byte 16 1 (some 7) (some two_keys)
    ≡ some (
      true,
      some (record two_keys {
        entries = (15, 150) ∷ [];
        buckets = 0 ∷ 0 ∷ 0 ∷ 0 ∷ 0 ∷ 0 ∷ 1 ∷ 0 ∷ [];
      }),
      [],
    )
unfolding remove_key find_bucket erase_bucket hash_bytes Option.bind
first_removed = refl

two_keys-BucketsAreValid : BucketsAreValid two_keys
two_keys-BucketsAreValid = record {
  exponent = 3;
  power = refl;
  refers = λ b. get_or-le two_keys.buckets 2 b refl;
}

find_bucket_lem_example :
    Searched one_byte two_keys 15
      (hash_of one_byte two_keys 15 % 8)
      (find_bucket one_byte two_keys 15)
find_bucket_lem_example =
    find_bucket_lem one_byte two_keys 15 0 two_keys-BucketsAreValid (omega arith) refl

-- The run of the second key: bucket 6 is full.
two_keys-MapIsValid : MapIsValid one_byte two_keys
unfolding hash_bytes
two_keys-MapIsValid = record {
  within = omega arith;
  filled = λ _. two_keys-BucketsAreValid;
  spare = λ _. omega arith;
  used = λ _. refl;
  placed = (
    (6, refl, record { steps = 0; there = refl; full = λ d h. absurd (omega arith) }),
    (
      (
        7,
        refl,
        record {
          steps = 1;
          there = refl;
          full = λ d h z.
              let e : d ≡ 0 = omega arith in
              let at_6 : ◌≡◌ {A = ℕ} 1 0 =
                ap (λ (t : ℕ). get_or two_keys.buckets (around 8 6 t) 0) (sym e) ∙ z in
              absurd (omega arith);
        },
      ),
      tt,
    ),
  );
  none_yet = λ z. absurd (omega arith);
}

reserve_map_lem_example :
    (out : Status × Option (Map ℕ ℕ)) × (reserve_map plenty one_byte 16 1 9 (some two_keys)
      ≡ some out)
    × ReservesMap one_byte 16 1 9 (some two_keys) out
reserve_map_lem_example =
    reserve_map_lem one_byte plenty 16 1 9 (some two_keys) (omega arith) two_keys-MapIsValid

two_keys-Respects : Respects one_byte two_keys
two_keys-Respects a b e = ap hash_bytes (same_list_lem (a ∷ []) (b ∷ []) e)

find_entry_lem_example :
    (out : Option ℕ) × (find_entry one_byte 16 1 (some 15) (some two_keys) ≡ some out)
    × Finds one_byte 16 1 two_keys 15 out
find_entry_lem_example =
    find_entry_lem one_byte 16 1 two_keys 15 two_keys-MapIsValid two_keys-Respects

set_entry_lem_example :
    (out : Status × Option (Map ℕ ℕ) × List ℕ) × (set_entry plenty one_byte 16 1 500 entry_7
        (some two_keys)
      ≡ some out)
    × Sets one_byte two_keys entry_7 out
set_entry_lem_example =
    set_entry_lem one_byte plenty 16 1 500 entry_7 two_keys two_keys-MapIsValid two_keys-Respects
      refl (omega arith)
