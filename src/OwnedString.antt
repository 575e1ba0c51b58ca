-- ===== src/OwnedString.antt =====
-- src/string.c from LorStringHeader on: the owned strings. A handle is none for NULL, and else the
-- header, the address of the characters, and the cells of the block: the capacity and one more.
pub mod Inv
pub mod Write
pub mod Change
mod Tests
use liblor.Common.{
  ltb, leb, ◌==◌, if◌then◌else◌, splice, size_max, add_size, sub_size, Cell, Realloc, refit,
  double_until, ℕ, ◌+◌, ◌-◌, not, ◌||◌, Option, none, some, List, [], ◌∷◌,
}
use liblor.Status.{Status, ok, invalid_argument, out_of_memory, overflow, ◌>>=◌, on_ref}
use liblor.Array.{Array, Alias, load}
use liblor.View.{View, from_parts, from_cstr, is_valid}

pub record OwnedString : Type 0 where
  pub size : ℕ
  pub capacity : ℕ
  pub base : ℕ
  pub cells : List Cell

abbrev pub StringHandle : Type 0
StringHandle = Option OwnedString

-- `offsetof(LorStringHeader, data)`: two `size_t` of 8 bytes.
abbrev pub data_offset : ℕ
data_offset = 16

abbrev pub string_size : StringHandle → ℕ
string_size none = 0
string_size (some s) = s.size

abbrev pub string_capacity : StringHandle → ℕ
string_capacity none = 0
string_capacity (some s) = s.capacity

-- The pointer that the handle is.
abbrev pub string_base : StringHandle → ℕ
string_base none = 0
string_base (some s) = s.base

-- The string's block, as an array of bytes: for reading memory at an address.
abbrev pub bytes_of : OwnedString → Array
bytes_of s = record {
  size = s.size;
  capacity = s.capacity;
  element_size = 1;
  base = s.base;
  cells = s.cells;
}

abbrev pub block : StringHandle → Option Array
block none = none
block (some s) = some (bytes_of s)

-- `string[size] = '\0'`, and the new size.
abbrev pub terminate : ℕ → OwnedString → OwnedString
terminate size s = record s { size = size; cells = splice size (some 0 ∷ []) s.cells }

unfoldable pub view_offset : StringHandle → View → Alias
view_offset none view = Alias.separate
view_offset (some s) view =
    if view.start == 0
    then Alias.separate
    else if ltb (size_max - s.base) s.size
    then Alias.separate
    else if ltb view.start s.base || ltb (add_size s.base s.size) view.start
    then Alias.separate
    else let result = sub_size view.start s.base in
      if ltb (s.size - result) view.size then Alias.beyond else Alias.inside result

-- `lor_string__growth_capacity`; `none` is the overflow.
unfoldable pub next_capacity : ℕ → ℕ → Option ℕ
next_capacity current required =
    let result = double_until 64 (if ltb current 16 then 16 else current) required in
    if required == size_max then none else if result == size_max then none else some result

-- The block after `realloc`: the old cells as far as they fit, with the NUL written again.
abbrev pub moved_string : StringHandle → ℕ → ℕ → OwnedString
moved_string none capacity header = record {
  size = 0;
  capacity = capacity;
  base = header + data_offset;
  cells = splice 0 (some 0 ∷ []) (refit (capacity + 1) []);
}
moved_string (some s) capacity header = record s {
  capacity = capacity;
  base = header + data_offset;
  cells = splice s.size (some 0 ∷ []) (refit (capacity + 1) s.cells);
}

abbrev pub string_header : StringHandle → Option ℕ
string_header none = none
string_header (some s) = some (s.base - data_offset)

unfoldable pub clear_string : StringHandle → StringHandle
clear_string none = none
clear_string (some s) = some (terminate 0 s)

-- `lor_string_view`
unfoldable pub view_of : StringHandle → View
view_of string = from_parts (string_base string) (string_size string)

-- `empty_text` is where the literal "" lies.
unfoldable pub string_cstr : ℕ → StringHandle → ℕ
string_cstr empty_text none = empty_text
string_cstr empty_text (some s) = s.base

unfoldable pub deinit_string : Option StringHandle → Option StringHandle
deinit_string none = none
deinit_string (some string) = some none

module _ (realloc : Realloc) where
  -- The part of `lor_string_reserve` behind the growth rule.
  abbrev pub reserve_block : StringHandle → Option ℕ → Status × StringHandle
  reserve_block string none = (overflow, string)
  reserve_block string (some new_capacity) =
      if ltb (size_max - data_offset - 1) new_capacity
      then (overflow, string)
      else elim (realloc (string_header string) (add_size (add_size data_offset new_capacity) 1)) [
        | none ↦ (out_of_memory, string)
        | some header ↦ (ok, some (moved_string string new_capacity header))
      ]

  unfoldable pub reserve_string : ℕ → StringHandle → Status × StringHandle
  reserve_string capacity string =
      if leb capacity (string_capacity string)
      then (ok, string)
      else reserve_block string (next_capacity (string_capacity string) capacity)

  unfoldable pub reserve_string_ref : ℕ → Option StringHandle → Status × Option StringHandle
  reserve_string_ref capacity = on_ref (reserve_string capacity)

  module _ (outside : ℕ → Cell) where
    -- `memmove` of `n` bytes to an offset, and the new size with its NUL. `place` is where the bytes
    -- lie, in terms of the grown string. Without a block there are none.
    abbrev pub write_view : ℕ → ℕ → (StringHandle → ℕ) → StringHandle → Status × StringHandle
    write_view offset n place none = (ok, none)
    write_view offset n place (some s) =
        let source = load outside (block (some s)) (place (some s)) n in
        (
          ok,
          some (terminate (add_size offset n) (record s { cells = splice offset source s.cells })),
        )

    -- Growth for `n` bytes behind an offset, then the write.
    unfoldable pub grow_and_write :
        ℕ → ℕ → (StringHandle → ℕ) → StringHandle → Status × StringHandle
    grow_and_write offset n place string = do
      string' ← reserve_string (add_size offset n) string
      write_view offset n place string'

    -- The part of `assign` and `append` behind the alias test.
    abbrev pub write_alias : ℕ → View → StringHandle → Alias → Status × StringHandle
    write_alias offset view string Alias.beyond = (invalid_argument, string)
    write_alias offset view string Alias.separate =
        grow_and_write offset view.size (λ _. view.start) string
    write_alias offset view string (Alias.inside place) =
        grow_and_write offset view.size (λ s. string_base s + place) string

    unfoldable pub assign : View → StringHandle → Status × StringHandle
    assign view string =
        if not (is_valid view)
        then (invalid_argument, string)
        else write_alias 0 view string (view_offset string view)

    unfoldable pub assign_ref : View → Option StringHandle → Status × Option StringHandle
    assign_ref view = on_ref (assign view)

    unfoldable pub append_view : View → StringHandle → Status × StringHandle
    append_view view string =
        if not (is_valid view)
        then (invalid_argument, string)
        else if view.size == 0
        then (ok, string)
        else if ltb (size_max - string_size string) view.size
        then (overflow, string)
        else write_alias (string_size string) view string (view_offset string view)

    unfoldable pub append_ref : View → Option StringHandle → Status × Option StringHandle
    append_ref view = on_ref (append_view view)

    unfoldable pub assign_cstr : (ℕ → ℕ) → ℕ → Option StringHandle → Status × Option StringHandle
    assign_cstr strlen text ref =
        if text == 0 then (invalid_argument, ref) else assign_ref (from_cstr strlen text) ref

    unfoldable pub append_cstr : (ℕ → ℕ) → ℕ → Option StringHandle → Status × Option StringHandle
    append_cstr strlen text ref =
        if text == 0 then (invalid_argument, ref) else append_ref (from_cstr strlen text) ref

    -- `p` is the address of the parameter that holds the character.
    unfoldable pub append_char : ℕ → Option StringHandle → Status × Option StringHandle
    append_char p = append_ref (from_parts p 1)
