-- ===== src/View/Tests.antt =====
-- Views of the bytes " a,b,c " at the address 100.
use liblor.Common.{get_or, ◌-◌, ◌≡◌, refl, true, some, [], ◌∷◌, arith}
use liblor.View.{View, Memory, ascii_space, slice, take_left, trim}
use liblor.View.Search.{find, split, chop}
use liblor.View.Text.{text}
use liblor.View.Trimming.{Trims, trim_lem}
use liblor.View.Finding.{OccursAt, First, find_lem}
use liblor.View.Splitting.{Chopped, chop_lem}

abbrev sample : Memory
sample p = get_or (0x20 ∷ 0x61 ∷ 0x2c ∷ 0x62 ∷ 0x2c ∷ 0x63 ∷ 0x20 ∷ []) (p - 100) 0

abbrev all : View
all = record { start = 100; size = 7 }

abbrev comma : View
comma = record { start = 104; size = 1 }

abbrev first_a : View
first_a = record { start = 101; size = 1 }

trimmed : text sample (trim sample all) ≡ (0x61 ∷ 0x2c ∷ 0x62 ∷ 0x2c ∷ 0x63 ∷ [])
unfolding trim ascii_space
trimmed = refl

found : find sample all comma ≡ some 2
unfolding find
found = refl

cut :
    split sample all comma
    ≡ (true, record { start = 100; size = 2 }, record { start = 103; size = 4 })
unfolding split take_left slice
cut = refl

-- A slice that reaches past the end is cut off there.
clamped : slice all 5 100 ≡ record { start = 105; size = 2 }
unfolding slice
clamped = refl

trim_lem_example : Trims sample all (trim sample all)
trim_lem_example = trim_lem sample all refl

find_lem_example : First (OccursAt sample all comma) 7 (find sample all comma)
find_lem_example = find_lem sample all comma refl refl

chop_lem_example : Chopped sample all comma (chop sample (some all) comma)
chop_lem_example = chop_lem sample all comma refl refl (ground arith)
