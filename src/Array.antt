-- ===== src/Array.antt =====
-- src/array.c: dynamic arrays behind a header, over raw bytes. A handle is NULL or a block that
-- `realloc` gave; its cells stand from `base` on, the first address behind the header.
pub mod Ops
pub mod Removal
pub mod Inv
pub mod Store
pub mod Aliasing
pub mod Append
pub mod Shift
pub mod Insert
pub mod Remove
pub mod Resize
pub mod Take
pub mod Shrink
mod Tests
use liblor.Common.{
  ltb, leb, ◌==◌, if◌then◌else◌, length, get_or, size_max, add_size, sub_size, mul_size, Cell,
  Realloc, refit, double_until, ℕ, zero, suc, ◌+◌, ◌-◌, ◌/◌, Bool, true, false, not, ◌&&◌, ◌||◌,
  Option, none, some, List, [], ◌∷◌,
}
use liblor.Status.{Status, ok, invalid_argument, out_of_memory, overflow, on_ref}

-- `LorArrayHeader`, with the bytes behind it.
pub record Array : Type 0 where
  pub size : ℕ
  pub capacity : ℕ
  pub element_size : ℕ
  pub base : ℕ
  pub cells : List Cell

-- `void *array`
abbrev pub Handle : Type 0
Handle = Option Array

-- `sizeof(LorArrayHeader)`: three words, rounded up to the alignment of `max_align_t`.
abbrev pub header_size : ℕ
header_size = 32

abbrev pub array_size : Handle → ℕ
array_size none = 0
array_size (some a) = a.size

abbrev pub array_capacity : Handle → ℕ
array_capacity none = 0
array_capacity (some a) = a.capacity

abbrev pub array_element_size : Handle → ℕ
array_element_size none = 0
array_element_size (some a) = a.element_size

abbrev pub is_null : Handle → Bool
is_null none = true
is_null (some a) = false

abbrev pub array_base : Handle → ℕ
array_base none = 0
array_base (some a) = a.base

abbrev pub valid_element_size : Handle → ℕ → Bool
valid_element_size none es = not (es == 0)
valid_element_size (some a) es = not (es == 0) && (a.element_size == es)

unfoldable pub growth_capacity : ℕ → ℕ → ℕ
growth_capacity current required = double_until 64 (if ltb current 8 then 8 else current) required

-- What `lor_array__source_offset` answers: 0, -1, or 1 with the offset.
pub data Alias : Type 0 where
  separate : Alias
  beyond : Alias
  inside : ℕ → Alias

unfoldable pub source_offset : Handle → ℕ → ℕ → Alias
source_offset none source byte_count = separate
source_offset (some a) source byte_count =
    if source == 0
    then separate
    else if ltb (size_max / a.element_size) a.capacity
    then beyond
    else let initialized_bytes = mul_size a.size a.element_size in
      let allocated_bytes = mul_size a.capacity a.element_size in
      if ltb (size_max - a.base) allocated_bytes
      then separate
      else if ltb source a.base || ltb (add_size a.base allocated_bytes) source
      then separate
      else let result = sub_size source a.base in
        if ltb initialized_bytes result
        then beyond
        else if ltb (initialized_bytes - result) byte_count
        then beyond
        else inside result

-- The cell at an address: one of the array's, or what the rest of the memory holds.
abbrev pub cell_at : (ℕ → Cell) → Handle → ℕ → Cell
cell_at outside none p = outside p
cell_at outside (some a) p =
    if leb a.base p && ltb p (a.base + length a.cells)
    then get_or a.cells (p - a.base) none
    else outside p

-- The `n` cells from an address on.
abbrev pub load : (ℕ → Cell) → Handle → ℕ → ℕ → List Cell
load outside array p zero = []
load outside array p (suc n) = cell_at outside array p ∷ load outside array (p + 1) n

-- The block after `realloc`: its old cells as far as they fit, the rest indeterminate.
abbrev pub moved : Handle → ℕ → ℕ → ℕ → Array
moved none es capacity header = record {
  size = 0;
  capacity = capacity;
  element_size = es;
  base = header + header_size;
  cells = refit (mul_size capacity es) [];
}
moved (some a) es capacity header = record a {
  capacity = capacity;
  base = header + header_size;
  cells = refit (mul_size capacity es) a.cells;
}

-- The pointer that is handed to `realloc`.
abbrev pub header_of : Handle → Option ℕ
header_of none = none
header_of (some a) = some (a.base - header_size)

module _ (realloc : Realloc) where
  unfoldable pub reserve : ℕ → ℕ → Handle → Status × Handle
  reserve es capacity array =
      if not (valid_element_size array es)
      then (invalid_argument, array)
      else if leb capacity (array_capacity array)
      then (ok, array)
      else let new_capacity = growth_capacity (array_capacity array) capacity in
        if ltb ((size_max - header_size) / es) new_capacity
        then (overflow, array)
        else elim (realloc (header_of array) (add_size header_size (mul_size new_capacity es))) [
          | none ↦ (out_of_memory, array)
          | some header ↦ (ok, some (moved array es new_capacity header))
        ]

  unfoldable pub reserve_raw : ℕ → ℕ → Option Handle → Status × Option Handle
  reserve_raw es capacity = on_ref (reserve es capacity)
