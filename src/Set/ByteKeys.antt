-- ===== src/Set/ByteKeys.antt =====
-- `lor_set_config_bytes`: sets whose keys are equal when their bytes are.
use liblor.Common.{ℕ, refl, ap, Bool, List}
use liblor.Map.{hash_bytes, same_list, config_bytes}
use liblor.Map.ByteKeys.{same_list_lem, same_list_refl}
use liblor.Set.Policy.{IsEquality, Means}

module _ {K : Type 0} (bytes : K → List ℕ) where
  abbrev pub same_bytes : K → K → Bool
  same_bytes x y = same_list (bytes x) (bytes y)

  pub same_bytes-IsEquality : IsEquality same_bytes
  same_bytes-IsEquality = record {
    reflexive = λ x. same_list_refl (bytes x);
    symmetric = λ x y e. rw (same_list_lem (bytes x) (bytes y) e) (same_list_refl (bytes y));
    transitive = λ x y z e f. rw (same_list_lem (bytes x) (bytes y) e) f;
  }

  pub config_bytes-Means : (size : ℕ) → Means bytes same_bytes config_bytes size
  config_bytes-Means size = record {
    equal_is = λ x y. refl;
    hash_is = λ x y e. ap hash_bytes (same_list_lem (bytes x) (bytes y) e);
    borrowed = refl;
  }
