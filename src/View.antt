-- ===== src/View.antt =====
-- src/string.c, the borrowed string views. A pointer is an address, with 0 for NULL, and every
-- function that reads characters takes the memory.
pub mod Search
pub mod Text
pub mod Slices
pub mod Compare
pub mod Trimming
pub mod Finding
pub mod Splitting
mod Tests
use liblor.Common.{
  ltb, ◌==◌, if◌then◌else◌, ℕ, zero, suc, ◌+◌, ◌-◌, Bool, true, false, not, ◌&&◌, ◌||◌, Option,
  none, some,
}

pub record View : Type 0 where
  pub start : ℕ
  pub size : ℕ

-- The bytes of memory.
abbrev pub Memory : Type 0
Memory = ℕ → ℕ

-- `LOR_STRING_VIEW_INIT`
abbrev pub empty_view : View
empty_view = record { start = 0; size = 0 }

unfoldable pub ascii_space : ℕ → Bool
ascii_space c = c == 0x20 || c == 0x09 || c == 0x0a || c == 0x0d || c == 0x0c || c == 0x0b

abbrev pub offset_pointer : View → ℕ → ℕ
offset_pointer view offset = if view.start == 0 then 0 else view.start + offset

abbrev pub from_parts : ℕ → ℕ → View
from_parts p n = if p == 0 && not (n == 0) then empty_view else record { start = p; size = n }

-- `strlen` is the library's.
abbrev pub from_cstr : (ℕ → ℕ) → ℕ → View
from_cstr strlen text = if text == 0 then empty_view else from_parts text (strlen text)

abbrev pub is_valid : View → Bool
is_valid view = not (view.start == 0) || view.size == 0

abbrev pub is_empty : View → Bool
is_empty view = view.size == 0

unfoldable pub slice : View → ℕ → ℕ → View
slice view offset size =
    let o = if ltb view.size offset then view.size else offset in
    let n = if ltb (view.size - o) size then view.size - o else size in
    if not (is_valid view) then empty_view else from_parts (offset_pointer view o) n

unfoldable pub take_left : View → ℕ → View
unfolding slice
take_left view size = slice view 0 size

unfoldable pub take_right : View → ℕ → View
unfolding slice
take_right view size =
    let n = if ltb view.size size then view.size else size in
    if not (is_valid view) then empty_view else slice view (view.size - n) n

-- The functions that take a `LorStringView *` return what they return and the new view; `none` is
-- a NULL pointer.
unfoldable pub chop_left : Option View → ℕ → View × Option View
unfolding take_left
chop_left none size = (empty_view, none)
chop_left (some view) size =
    let result = take_left view size in
    if not (is_valid view)
    then (empty_view, some view)
    else (result, some (slice view result.size (view.size - result.size)))

unfoldable pub chop_right : Option View → ℕ → View × Option View
unfolding take_right
chop_right none size = (empty_view, none)
chop_right (some view) size =
    let result = take_right view size in
    if not (is_valid view)
    then (empty_view, some view)
    else (result, some (record view { size = view.size - result.size }))

module _ (mem : Memory) where
  -- `memcmp(p, q, n) == 0`
  unfoldable pub same_bytes : ℕ → ℕ → ℕ → Bool
  same_bytes p q zero = true
  same_bytes p q (suc n) = mem p == mem q && same_bytes (p + 1) (q + 1) n

  unfoldable pub equal : View → View → Bool
  unfolding same_bytes
  equal a b =
      if not (is_valid a) || not (is_valid b) || not (a.size == b.size)
      then false
      else if a.size == 0
      then true
      else same_bytes a.start b.start a.size

  unfoldable pub view_starts_with : View → View → Bool
  unfolding equal take_left
  view_starts_with view prefix =
      if not (is_valid view) || not (is_valid prefix) || ltb view.size prefix.size
      then false
      else equal (take_left view prefix.size) prefix

  unfoldable pub view_ends_with : View → View → Bool
  unfolding equal take_right
  view_ends_with view suffix =
      if not (is_valid view) || not (is_valid suffix) || ltb view.size suffix.size
      then false
      else equal (take_right view suffix.size) suffix

  -- The loop of `trim_left`: `n` is `size - offset`, what is left to look at.
  unfoldable pub skip_spaces : ℕ → ℕ → ℕ → ℕ
  skip_spaces p zero offset = offset
  skip_spaces p (suc n) offset =
      let rest = skip_spaces p n (offset + 1) in
      if ascii_space (mem (p + offset)) then rest else offset

  unfoldable pub trim_left : View → View
  unfolding skip_spaces slice
  trim_left view =
      let offset = skip_spaces view.start view.size 0 in
      if not (is_valid view) then empty_view else slice view offset (view.size - offset)

  -- The loop of `trim_right`, on the size.
  unfoldable pub cut_spaces : ℕ → ℕ → ℕ
  cut_spaces p zero = 0
  cut_spaces p (suc n) =
      let rest = cut_spaces p n in if ascii_space (mem (p + n)) then rest else suc n

  unfoldable pub trim_right : View → View
  unfolding cut_spaces slice
  trim_right view =
      if not (is_valid view) then empty_view else slice view 0 (cut_spaces view.start view.size)

  unfoldable pub trim : View → View
  unfolding trim_left trim_right
  trim view = trim_right (trim_left view)
