-- ===== src/Map/KeyTests.antt =====
-- Instances of the theorems on string-view keys: "ab" at 100 and again at 200.
use liblor.Common.{get_or, ◌%◌, ◌≡◌, refl, true, [], ◌∷◌}
use liblor.View.{View, Memory, equal}
use liblor.Map.Views.{sv_hash, sv_equal, sv_hash-equal}

abbrev twice : Memory
twice p = get_or (0x61 ∷ 0x62 ∷ []) (p % 100) 0

abbrev first_ab : View
first_ab = record { start = 100; size = 2 }

abbrev second_ab : View
second_ab = record { start = 200; size = 2 }

views_are_equal : sv_equal twice first_ab second_ab 16 0 ≡ true
unfolding sv_equal equal
views_are_equal = refl

sv_hash-equal_example : sv_hash twice first_ab 16 0 ≡ sv_hash twice second_ab 16 0
sv_hash-equal_example = sv_hash-equal twice first_ab second_ab 16 0 refl refl views_are_equal
