-- ===== src/Array/Ops.antt =====
-- src/array.c: the operations that change an array. Stored lengths of byte ranges are products of
-- `size_t`; a move of bytes reads its source before it writes.
use liblor.Common.{
  ltb, ◌==◌, if◌then◌else◌, replicate, splice, read, size_max, add_size, mul_size, Cell, Realloc, ℕ,
  ◌+◌, ◌-◌, ◌/◌, not, ◌&&◌, ◌||◌, Option, none, some, List, [],
}
use liblor.Status.{Status, ok, invalid_argument, out_of_memory, overflow, ◌>>=◌, on_ref}
use liblor.Array.{
  Handle, header_size, array_size, array_element_size, is_null, array_base, valid_element_size,
  Alias, source_offset, load, moved, header_of, reserve,
}

-- A store at a byte offset of the block, and the new size.
abbrev pub store : ℕ → List Cell → ℕ → Handle → Handle
store offset source size none = none
store offset source size (some a) =
    some (record a { size = size; cells = splice offset source a.cells })

abbrev pub set_size : ℕ → Handle → Handle
set_size size none = none
set_size size (some a) = some (record a { size = size })

-- What `read` finds in the block of a handle.
abbrev pub cells_at : ℕ → ℕ → Handle → List Cell
cells_at offset n none = []
cells_at offset n (some a) = read offset n a.cells

-- The tail behind `index` moves up by `byte_count` bytes.
unfoldable pub shift_tail : ℕ → ℕ → ℕ → ℕ → Handle → Handle
shift_tail es index byte_count old_size array' =
    let destination = mul_size index es in
    let tail_count = old_size - index in
    let tail = cells_at destination (mul_size tail_count es) array' in
    if tail_count == 0 then array' else store (add_size destination byte_count) tail old_size array'

-- `memset` of the bytes between the old elements and the new size.
abbrev pub zero_tail : ℕ → ℕ → ℕ → Handle → Status × Handle
zero_tail es old_size size array' =
    let zeros : List Cell = replicate (mul_size (size - old_size) es) (some 0) in
    (ok, store (mul_size old_size es) zeros size array')

module _ (realloc : Realloc) where
  -- The growing half of `resize`: the new elements are zeroed.
  unfoldable pub resize_up : ℕ → ℕ → Handle → Status × Handle
  resize_up es size array = do
    array' ← reserve realloc es size array
    zero_tail es (array_size array) size array'

  unfoldable pub resize : ℕ → ℕ → Handle → Status × Handle
  unfolding resize_up
  resize es size array =
      if not (valid_element_size array es)
      then (invalid_argument, array)
      else if ltb (array_size array) size
      then resize_up es size array
      else (ok, set_size size array)

  unfoldable pub resize_raw : ℕ → ℕ → Option Handle → Status × Option Handle
  resize_raw es size = on_ref (resize es size)

  module _ (outside : ℕ → Cell) where
    -- The part of `append` behind the growth: `elements` is read in the grown array.
    abbrev pub append_store : ℕ → ℕ → (Handle → ℕ) → ℕ → Handle → Status × Handle
    append_store es count elements old_size array' =
        let source = load outside array' (elements array') (mul_size count es) in
        (ok, store (mul_size old_size es) source (add_size old_size count) array')

    -- The part of `append` behind the alias test.
    unfoldable pub append_from : ℕ → ℕ → (Handle → ℕ) → Handle → Status × Handle
    append_from es count elements array = do
      let old_size = array_size array
      array' ← reserve realloc es (add_size old_size count) array
      append_store es count elements old_size array'

    -- The part of `append` behind the alias test.
    abbrev pub append_alias : ℕ → ℕ → ℕ → Handle → Alias → Status × Handle
    append_alias es elements count array Alias.beyond = (invalid_argument, array)
    append_alias es elements count array Alias.separate = append_from es count (λ _. elements) array
    append_alias es elements count array (Alias.inside offset) =
        append_from es count (λ a. array_base a + offset) array

    unfoldable pub append : ℕ → ℕ → ℕ → Handle → Status × Handle
    append es elements count array =
        if elements == 0 && not (count == 0)
        then (invalid_argument, array)
        else if not (valid_element_size array es)
        then (invalid_argument, array)
        else if count == 0
        then (ok, array)
        else if ltb (size_max / es) count
        then (overflow, array)
        else if ltb (size_max - array_size array) count
        then (overflow, array)
        else append_alias es elements count array (source_offset array elements (mul_size count es))

    unfoldable pub append_raw : ℕ → ℕ → ℕ → Option Handle → Status × Option Handle
    append_raw es elements count = on_ref (append es elements count)

    -- `source` is another handle, or the same one: its elements begin at its base.
    unfoldable pub append_array_raw : ℕ → Handle → ℕ → Option Handle → Status × Option Handle
    unfolding append_raw
    append_array_raw es source source_es ref =
        if es == 0 || not (source_es == es)
        then (invalid_argument, ref)
        else if not (is_null source) && not (array_element_size source == source_es)
        then (invalid_argument, ref)
        else append_raw es (array_base source) (array_size source) ref

    -- The part of `insert` behind the growth: `source` gives the bytes to insert.
    abbrev pub insert_store : ℕ → ℕ → ℕ → (Handle → List Cell) → ℕ → Handle → Status × Handle
    insert_store es index count source old_size array' =
        let shifted = shift_tail es index (mul_size count es) old_size array' in
        (ok, store (mul_size index es) (source shifted) (add_size old_size count) shifted)

    -- The part of `insert` behind the copy of an aliased source.
    unfoldable pub insert_from : ℕ → ℕ → ℕ → (Handle → List Cell) → Handle → Status × Handle
    insert_from es index count source array = do
      let old_size = array_size array
      array' ← reserve realloc es (add_size old_size count) array
      insert_store es index count source old_size array'

    -- The part of `insert` behind the allocation of a copy.
    abbrev pub insert_copy : ℕ → ℕ → ℕ → List Cell → Handle → Option ℕ → Status × Handle
    insert_copy es index count copy array none = (out_of_memory, array)
    insert_copy es index count copy array (some p) = insert_from es index count (λ _. copy) array

    -- The part of `insert` behind the alias test: an aliased source is copied first.
    abbrev pub insert_alias : ℕ → ℕ → ℕ → ℕ → Handle → Alias → Status × Handle
    insert_alias es index elements count array Alias.beyond = (invalid_argument, array)
    insert_alias es index elements count array Alias.separate =
        insert_from es index count (λ a. load outside a elements (mul_size count es)) array
    insert_alias es index elements count array (Alias.inside offset) =
        let byte_count = mul_size count es in
        insert_copy es index count (cells_at offset byte_count array) array
          (realloc none byte_count)

    unfoldable pub insert : ℕ → ℕ → ℕ → ℕ → Handle → Status × Handle
    insert es index elements count array =
        if elements == 0 && not (count == 0)
        then (invalid_argument, array)
        else if not (valid_element_size array es)
        then (invalid_argument, array)
        else if ltb (array_size array) index
        then (invalid_argument, array)
        else if count == 0
        then (ok, array)
        else if ltb (size_max / es) count
        then (overflow, array)
        else if ltb (size_max - array_size array) count
        then (overflow, array)
        else insert_alias es index elements count array
            (source_offset array elements (mul_size count es))

    unfoldable pub insert_raw : ℕ → ℕ → ℕ → ℕ → Option Handle → Status × Option Handle
    insert_raw es index elements count = on_ref (insert es index elements count)

  unfoldable pub shrink_to_fit : ℕ → Handle → Status × Handle
  shrink_to_fit es none = if es == 0 then (invalid_argument, none) else (ok, none)
  shrink_to_fit es (some a) =
      if not (valid_element_size (some a) es)
      then (invalid_argument, some a)
      else if a.size == a.capacity
      then (ok, some a)
      else if a.size == 0
      then (ok, none)
      else if ltb ((size_max - header_size) / es) a.size
      then (overflow, some a)
      else elim (realloc (header_of (some a)) (add_size header_size (mul_size a.size es))) [
        | none ↦ (out_of_memory, some a)
        | some header ↦ (ok, some (moved (some a) es a.size header))
      ]

  unfoldable pub shrink_to_fit_raw : ℕ → Option Handle → Status × Option Handle
  shrink_to_fit_raw es = on_ref (shrink_to_fit es)
