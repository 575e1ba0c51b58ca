-- ===== src/Array/Tests.antt =====
-- Runs and instances of the array theorems: elements of two bytes, in a block at address 1032.
use liblor.Common.{
  leb, if◌then◌else◌, take, drop, replicate, read, mul_size, Cell, Realloc, IsAllocator,
  double_until, ℕ, ◌+◌, ◌*◌, ◌<◌, ◌≡◌, refl, ◌↔◌, ◌⊎◌, none, some, List, [], ◌∷◌, ◌++◌, arith,
}
use liblor.Status.{ok}
use liblor.Array.{Array, growth_capacity, Alias, source_offset, load, reserve}
use liblor.Array.Ops.{resize, append_from, append, insert}
use liblor.Array.Removal.{remove, remove_range}
use liblor.Array.Inv.{IsValid, contents, Spares, Reserves, reserve_lem}
use liblor.Array.Append.{Appends, append_separate, append_inside}
use liblor.Array.Insert.{insert_separate, insert_inside}
use liblor.Array.Take.{Takes, remove_lem}
use liblor.Array.Remove.{RemovesRange, remove_range_lem}
use liblor.Array.Resize.{Resizes, resize_lem}
use liblor.Array.Aliasing.{source_offset-separate}
use liblor.Array.Shift.{Inserts}

-- An allocator that moves every block, up to 1000 bytes, to address 5000.
abbrev moves : Realloc
moves old n = if leb n 1000 then some 5000 else none

moves-IsAllocator : IsAllocator moves
moves-IsAllocator old n p e = ground arith

-- Bytes outside: the address itself.
abbrev elsewhere : ℕ → Cell
elsewhere p = some p

abbrev three : Array
three = record {
  size = 2;
  capacity = 3;
  element_size = 2;
  base = 1032;
  cells = some 1 ∷ some 2 ∷ some 3 ∷ some 4 ∷ none ∷ none ∷ [];
}

three-IsValid : IsValid three
three-IsValid = omega arith

append-moves : append moves elsewhere 2 1032 2 (some three) ≡ (
  ok,
  some (record {
    size = 4;
    capacity = 8;
    element_size = 2;
    base = 5032;
    cells =
        (some 1 ∷ some 2 ∷ some 3 ∷ some 4 ∷ some 1 ∷ some 2 ∷ some 3 ∷ some 4 ∷ [])
        ++ replicate 8 none;
  }),
)
unfolding append append_from reserve growth_capacity double_until mul_size source_offset
append-moves = refl

-- The bytes of an element that lies at address 100.
abbrev foreign : List Cell
foreign = some 100 ∷ some 101 ∷ []

moves-Spares : Spares moves 100 (1 * 2)
moves-Spares old n p e = ground arith

append_separate_example :
    Appends 2 1
      (load elsewhere none 100 (1 * 2))
      (some three)
      (append moves elsewhere 2 100 1 (some three))
append_separate_example =
    append_separate moves moves-IsAllocator elsewhere 2 100 1 (some three) three-IsValid
      (unfold source_offset mul_size in refl) (omega arith) moves-Spares

append_inside_example :
    Appends 2 2
      (read 0 (2 * 2) three.cells)
      (some three)
      (append moves elsewhere 2 (three.base + 0) 2 (some three))
append_inside_example =
    append_inside moves moves-IsAllocator elsewhere 2 0 2 three three-IsValid (omega arith)
      (omega arith)

insert_separate_example :
    Inserts
      (1 * 2)
      1
      (load elsewhere none 100 (1 * 2))
      (some three)
      (insert moves elsewhere 2 1 100 1 (some three))
insert_separate_example =
    insert_separate moves moves-IsAllocator elsewhere 2 1 100 1 (some three) three-IsValid
      (unfold source_offset mul_size in refl) (omega arith) moves-Spares

insert_inside_example :
    Inserts
      (1 * 2)
      2
      (read 0 (2 * 2) three.cells)
      (some three)
      (insert moves elsewhere 2 1 (three.base + 0) 2 (some three))
insert_inside_example =
    insert_inside moves moves-IsAllocator elsewhere 2 1 0 2 three three-IsValid (omega arith)
      (omega arith)

resize_lem_example : Resizes 2 5 (some three) (resize moves 2 5 (some three))
resize_lem_example = resize_lem moves moves-IsAllocator 2 5 (some three) (omega arith) three-IsValid

remove_lem_example :
    Takes 0
      (take (0 * 2) (contents (some three)) ++ drop ((0 + 1) * 2) (contents (some three)))
      three
      (remove 0 (some three))
remove_lem_example = remove_lem 0 three three-IsValid

remove_range_lem_example : RemovesRange 0 1 three (remove_range 0 1 (some three))
remove_range_lem_example = remove_range_lem 0 1 three three-IsValid (omega arith)

source_offset-separate_example :
    (source_offset (some three) 100 2 ≡ Alias.separate)
    ↔ ((◌≡◌ {A = ℕ} 100 0) ⊎ (100 < 1032) ⊎ (1032 + 3 * 2 < 100))
source_offset-separate_example = source_offset-separate 100 2 three three-IsValid

reserve_lem_example : Reserves 2 9 (some three) (reserve moves 2 9 (some three))
reserve_lem_example =
    reserve_lem moves moves-IsAllocator 2 9 (some three) (omega arith) three-IsValid
