-- ===== src/OwnedString/Tests.antt =====
-- Runs and instances of the theorems on owned strings: "ab" in a block of 2 characters.
use liblor.Common.{
  leb, if◌then◌else◌, replicate, read, Cell, Realloc, IsAllocator, double_until, ℕ, ◌≡◌, refl, none,
  some, [], ◌∷◌, ◌++◌, arith,
}
use liblor.Status.{ok, invalid_argument}
use liblor.Array.{load}
use liblor.Array.Inv.{Spares}
use liblor.View.{View}
use liblor.OwnedString.{
  OwnedString, view_offset, next_capacity, view_of, reserve_string, grow_and_write, assign,
  append_view,
}
use liblor.OwnedString.Inv.{StringIsValid, characters, ReservesString, reserve_string_lem}
use liblor.OwnedString.Change.{
  assign_separate, assign_inside, append_view_separate, append_view_inside,
}
use liblor.OwnedString.Write.{Writes}

-- An allocator with room for one block.
abbrev moves : Realloc
moves old n = if leb n 1000 then some 5000 else none

moves-IsAllocator : IsAllocator moves
moves-IsAllocator old n p e = ground arith

abbrev elsewhere : ℕ → Cell
elsewhere p = some p

abbrev ab : OwnedString
ab = record { size = 2; capacity = 2; base = 1016; cells = some 0x61 ∷ some 0x62 ∷ some 0 ∷ [] }

ab-StringIsValid : StringIsValid ab
ab-StringIsValid = record {
  full = refl;
  within = omega arith;
  low = omega arith;
  high = omega arith;
  ends = refl;
}

abbrev two_at_100 : View
two_at_100 = record { start = 100; size = 2 }

abbrev own_b : View
own_b = record { start = 1017; size = 1 }

doubled : append_view moves elsewhere (view_of (some ab)) (some ab) ≡ (
  ok,
  some (record {
    size = 4;
    capacity = 16;
    base = 5016;
    cells = (some 0x61 ∷ some 0x62 ∷ some 0x61 ∷ some 0x62 ∷ some 0 ∷ []) ++ replicate 12 none;
  }),
)
unfolding append_view view_of grow_and_write reserve_string next_capacity double_until view_offset
doubled = refl

-- Half of the string and what lies behind it.
half_own :
    assign moves elsewhere (record { start = 1017; size = 5 }) (some ab)
    ≡ (invalid_argument, some ab)
unfolding assign view_offset
half_own = refl

moves-Spares : Spares moves 100 2
moves-Spares old n p e = ground arith

reserve_string_lem_example : ReservesString 9 (some ab) (reserve_string moves 9 (some ab))
reserve_string_lem_example =
    reserve_string_lem moves moves-IsAllocator 9 (some ab) (omega arith) ab-StringIsValid

assign_separate_example :
    Writes (load elsewhere none 100 2) (some ab) (assign moves elsewhere two_at_100 (some ab))
assign_separate_example =
    assign_separate moves moves-IsAllocator elsewhere two_at_100 (some ab) ab-StringIsValid refl
      (omega arith) (unfold view_offset in refl) (omega arith) moves-Spares

assign_inside_example :
    Writes (read 1 1 ab.cells) (some ab) (assign moves elsewhere own_b (some ab))
assign_inside_example =
    assign_inside moves moves-IsAllocator elsewhere own_b 1 ab ab-StringIsValid (omega arith)
      (omega arith)

append_view_separate_example :
    Writes
      (characters (some ab) ++ load elsewhere none 100 2)
      (some ab)
      (append_view moves elsewhere two_at_100 (some ab))
append_view_separate_example =
    append_view_separate moves moves-IsAllocator elsewhere two_at_100 (some ab) ab-StringIsValid
      refl (unfold view_offset in refl) (omega arith) moves-Spares

append_view_inside_example :
    Writes
      (characters (some ab) ++ read 1 1 ab.cells)
      (some ab)
      (append_view moves elsewhere own_b (some ab))
append_view_inside_example =
    append_view_inside moves moves-IsAllocator elsewhere own_b 1 ab ab-StringIsValid (omega arith)
      (omega arith)
