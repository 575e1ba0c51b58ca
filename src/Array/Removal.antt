-- ===== src/Array/Removal.antt =====
-- src/array.c: the operations that take elements away. They never allocate; the result is whether
-- something was taken, what went to `out_element`, and the array.
use liblor.Common.{
  ltb, leb, ◌==◌, if◌then◌else◌, splice, read, add_size, mul_size, Cell, ℕ, ◌+◌, ◌-◌, Bool, true,
  false, ◌||◌, Option, none, some, List, [],
}
use liblor.Array.{Array, Handle}

unfoldable pub clear : Handle → Handle
clear none = none
clear (some a) = some (record a { size = 0 })

abbrev pub element_at : Array → ℕ → List Cell
element_at a index = read (mul_size index a.element_size) a.element_size a.cells

unfoldable pub pop : Handle → Bool × List Cell × Handle
pop none = (false, [], none)
pop (some a) =
    if a.size == 0
    then (false, [], some a)
    else (true, element_at a (a.size - 1), some (record a { size = a.size - 1 }))

unfoldable pub remove : ℕ → Handle → Bool × List Cell × Handle
remove index none = (false, [], none)
remove index (some a) =
    let es = a.element_size in
    let element = mul_size index es in
    let remaining = a.size - index - 1 in
    let cells =
      if remaining == 0
      then a.cells
      else splice element (read (element + es) (mul_size remaining es) a.cells) a.cells in
    if leb a.size index
    then (false, [], some a)
    else (true, element_at a index, some (record a { size = a.size - 1; cells = cells }))

unfoldable pub remove_range : ℕ → ℕ → Handle → Bool × Handle
remove_range index count none = (false, none)
remove_range index count (some a) =
    let es = a.element_size in
    let remaining = a.size - index - count in
    let cells =
      if remaining == 0
      then a.cells
      else splice (mul_size index es)
          (read (mul_size (add_size index count) es) (mul_size remaining es) a.cells) a.cells in
    if ltb a.size index || ltb (a.size - index) count
    then (false, some a)
    else if count == 0
    then (true, some a)
    else (true, some (record a { size = a.size - count; cells = cells }))

unfoldable pub remove_unordered : ℕ → Handle → Bool × List Cell × Handle
remove_unordered index none = (false, [], none)
remove_unordered index (some a) =
    let last = a.size - 1 in
    let cells =
      if index == last
      then a.cells
      else splice (mul_size index a.element_size) (element_at a last) a.cells in
    if leb a.size index
    then (false, [], some a)
    else (true, element_at a index, some (record a { size = last; cells = cells }))

-- `lor_array_deinit`: the block is freed and the reference reset.
unfoldable pub deinit : Option Handle → Option Handle
deinit none = none
deinit (some array) = some none
