-- ===== src/Set/Tests.antt =====
-- Runs and instances of the theorems on sets of bytes.
use liblor.Common.{
  get_or, get_or-le, ℕ, ◌≡◌, refl, sym, ap, ◌∙◌, ◌↔◌, inl, inr, Bool, true, Option, some, List, [],
  ◌∷◌, arith,
}
use liblor.Status.{Status}
use liblor.Map.{hash_bytes, config_bytes}
use liblor.Map.Reserve.{Allocator}
use liblor.Map.Inv.{MapIsValid}
use liblor.Map.Probing.{around}
use liblor.Set.{Set}
use liblor.Set.Ops.{difference, operate}
use liblor.Set.Relations.{relations_valid, sets_equal, is_disjoint}
use liblor.Set.Policy.{Holds, SetIsSound, SetIsValid, SetHandleIsValid-IsSound}
use liblor.Set.ByteKeys.{same_bytes, same_bytes-IsEquality, config_bytes-Means}
use liblor.Set.Operating.{Operates}
use liblor.Set.Refining.{operate_lem}
use liblor.Set.Relating.{Decides, is_disjoint_lem}
use liblor.Set.Comparing.{sets_equal_lem}

abbrev plenty : Allocator
plenty = record {
  malloc = λ n. some 1000;
  calloc = λ count size. some 2000;
  realloc = λ old n. some 3000;
}

abbrev one_byte : ℕ → List ℕ
one_byte key = key ∷ []

-- The keys 7 and 15 with 8 buckets.
abbrev both_keys : Set ℕ
both_keys = record {
  entries = (7, tt) ∷ (15, tt) ∷ [];
  capacity = 3;
  entry_size = 1;
  key_size = 1;
  base = 3096;
  buckets = 0 ∷ 0 ∷ 0 ∷ 0 ∷ 0 ∷ 0 ∷ 1 ∷ 2 ∷ [];
  config = config_bytes;
}

-- The key 7 alone.
abbrev one_key : Set ℕ
one_key = record {
  entries = (7, tt) ∷ [];
  capacity = 3;
  entry_size = 1;
  key_size = 1;
  base = 5096;
  buckets = 0 ∷ 0 ∷ 0 ∷ 0 ∷ 0 ∷ 0 ∷ 1 ∷ 0 ∷ [];
  config = config_bytes;
}

both_keys-MapIsValid : MapIsValid one_byte both_keys
unfolding hash_bytes
both_keys-MapIsValid = record {
  within = omega arith;
  filled = λ _. record {
    exponent = 3;
    power = refl;
    refers = λ b. get_or-le both_keys.buckets 2 b refl;
  };
  spare = λ _. omega arith;
  used = λ _. refl;
  placed = (
    (6, refl, record { steps = 0; there = refl; full = λ d h. absurd (omega arith) }),
    (
      (
        7,
        refl,
        record {
          steps = 1;
          there = refl;
          full = λ d h z.
              let e : d ≡ 0 = omega arith in
              let at_6 : ◌≡◌ {A = ℕ} 1 0 =
                ap (λ (t : ℕ). get_or both_keys.buckets (around 8 6 t) 0) (sym e) ∙ z in
              absurd (omega arith);
        },
      ),
      tt,
    ),
  );
  none_yet = λ z. absurd (omega arith);
}

one_key-MapIsValid : MapIsValid one_byte one_key
unfolding hash_bytes
one_key-MapIsValid = record {
  within = omega arith;
  filled =
      λ _. record { exponent = 3; power = refl; refers = λ b. get_or-le one_key.buckets 1 b refl };
  spare = λ _. omega arith;
  used = λ _. refl;
  placed = ((6, refl, record { steps = 0; there = refl; full = λ d h. absurd (omega arith) }), tt);
  none_yet = λ z. absurd (omega arith);
}

abbrev same_byte : ℕ → ℕ → Bool
same_byte = same_bytes one_byte

both_keys-SetIsValid : SetIsValid one_byte same_byte both_keys
both_keys-SetIsValid = record {
  valid = both_keys-MapIsValid;
  means = config_bytes-Means one_byte 1;
  distinct = ((λ h. elim h [ inl e ↦ cc | inr none_left ↦ none_left ]), ((λ h. h), tt));
}

one_key-SetIsValid : SetIsValid one_byte same_byte one_key
one_key-SetIsValid = record {
  valid = one_key-MapIsValid;
  means = config_bytes-Means one_byte 1;
  distinct = ((λ h. h), tt);
}

comparable :
    (relations_valid (some one_key) (some both_keys) 1 ≡ true)
    × (relations_valid (some both_keys) (some one_key) 1 ≡ true)
unfolding relations_valid
comparable = (refl, refl)

operate_lem_example :
    (out : Status × Option (Set ℕ) × List ℕ) × (operate plenty one_byte 1
        (some both_keys)
        (some one_key)
        difference
      ≡ some out)
    × Operates one_byte same_byte (some both_keys) (some one_key) difference out
operate_lem_example =
    operate_lem one_byte same_byte plenty (same_bytes-IsEquality one_byte) 1 (some both_keys)
      (some one_key) difference both_keys-SetIsValid one_key-SetIsValid (inl (λ e. cc))
      (refl, (refl, tt)) (refl, tt) (omega arith)

both_keys-IsSound : SetIsSound one_byte same_byte both_keys
both_keys-IsSound =
    SetHandleIsValid-IsSound one_byte same_byte (some both_keys) both_keys-SetIsValid

one_key-IsSound : SetIsSound one_byte same_byte one_key
one_key-IsSound = SetHandleIsValid-IsSound one_byte same_byte (some one_key) one_key-SetIsValid

sets_equal_lem_example :
    Decides
      (sets_equal one_byte (some one_key) (some both_keys) 1)
      ((key : ℕ) → Holds same_byte one_key.entries key ↔ Holds same_byte both_keys.entries key)
sets_equal_lem_example =
    sets_equal_lem one_byte same_byte (same_bytes-IsEquality one_byte) (some one_key)
      (some both_keys) 1 one_key-IsSound both_keys-IsSound (refl, tt) comparable.0

is_disjoint_lem_example :
    Decides
      (is_disjoint one_byte (some both_keys) (some one_key) 1)
      ((key : ℕ) → Holds same_byte both_keys.entries key → Holds same_byte one_key.entries key → ⊥)
is_disjoint_lem_example =
    is_disjoint_lem one_byte same_byte (same_bytes-IsEquality one_byte) (some both_keys)
      (some one_key) 1 both_keys-IsSound one_key-IsSound (refl, (refl, tt)) (refl, tt) comparable.1
