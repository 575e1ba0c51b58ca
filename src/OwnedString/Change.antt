-- ===== src/OwnedString/Change.antt =====
-- `lor_string_assign` and `lor_string_append` on the characters.
use liblor.Common.{
  ltb, ◌==◌, Bool-cases, read, length-read, size_max, Cell, Realloc, IsAllocator, ℕ, ◌+◌, ◌-◌, ◌≤◌,
  ◌≡◌, refl, ap, ◌≢◌, inl, inr, true, false, none, some, ◌++◌, arith,
}
use liblor.Status.{Status, ok, overflow}
use liblor.Array.{Alias, load}
use liblor.Array.Inv.{IsApart, Spares}
use liblor.Array.Store.{length-load}
use liblor.View.{View, is_valid}
use liblor.OwnedString.{
  OwnedString, StringHandle, string_size, string_base, block, view_offset, write_alias, assign,
  append_view,
}
use liblor.OwnedString.Inv.{StringIsValid, StringHandleIsValid, characters}
use liblor.OwnedString.Write.{
  Writes, length-nil, string_size-le, view_offset-inside, refused, nothing, whole,
  grow_and_write_lem, from_outside, from_inside,
}

module _ (realloc : Realloc) (sound : IsAllocator realloc) (outside : ℕ → Cell) where
  -- Assigning a valid view of bytes outside a valid string, where `realloc` keeps to its contract
  -- and gives no memory that meets them: the string stays valid; on success it holds exactly those
  -- bytes, with a NUL behind them; a call that fails leaves it as it was.
  pub assign_separate :
      (view : View) (string : StringHandle)
      → StringHandleIsValid string
      → is_valid view ≡ true
      → view.size ≤ size_max
      → view_offset string view ≡ Alias.separate
      → IsApart (block string) view.start view.size
      → Spares realloc view.start view.size
      → Writes (load outside none view.start view.size) string (assign realloc outside view string)
  unfolding assign
  assign_separate view string v ok_view small alias apart spares =
      let n = view.size in
      rw (ok_view, alias)
        (grow_and_write_lem realloc sound outside 0 n (λ _. view.start) string
          (load outside none view.start n) v (omega arith) (omega arith)
          (length-load outside none view.start n)
          (λ s r d.
            from_outside realloc sound outside 0 view.start n string (omega arith) apart spares s
              d))

  -- Assigning a part of a valid string to itself, where `realloc` keeps to its contract: the string
  -- stays valid; on success it holds the characters of that part; a call that fails leaves it as it
  -- was.
  pub assign_inside :
      (view : View) (place : ℕ) (s : OwnedString)
      → StringIsValid s
      → view.start ≡ s.base + place
      → place + view.size ≤ s.size
      → Writes (read place view.size s.cells) (some s) (assign realloc outside view (some s))
  unfolding assign
  assign_inside view place s v e h =
      let n = view.size in
      let real : (view.start == 0) ≡ false = ground (arith, v.low) in
      rw (real, view_offset-inside s view place v e h)
        (grow_and_write_lem realloc sound outside 0 n (λ b. string_base b + place) (some s)
          (read place n s.cells) v (omega arith) (omega (arith, v.within, v.high))
          (omega (arith, length-read place n s.cells, v.within, v.full))
          (λ b r d. from_inside realloc sound outside 0 place n s h b r))

  -- The checks of `append_view`, by what they leave to show.
  append_view_cases :
      (P : Status × StringHandle → Type 0) (view : View) (string : StringHandle)
      → is_valid view ≡ true
      → string_size string ≤ size_max
      → ((s : Status) → s ≢ ok → P (s, string))
      → (view.size ≡ 0 → P (ok, string))
      → (string_size string + view.size ≤ size_max
          → P (
              write_alias realloc outside
                (string_size string)
                view
                string
                (view_offset string view)))
      → P (append_view realloc outside view string)
  unfolding append_view
  append_view_cases P view string ok_view small refuse empty go =
      elim (Bool-cases (view.size == 0)) [
        | inl c0 ↦ rw (ok_view, c0) (empty (ground arith))
        | inr c0 ↦ elim (Bool-cases (ltb (size_max - string_size string) view.size)) [
          | inl c1 ↦ rw (ok_view, c0, c1) (refuse overflow (λ e. cc))
          | inr c1 ↦ rw (ok_view, c0, c1) (go (ground arith))
        ]
      ]

  -- Appending a valid view of bytes outside a valid string, where `realloc` keeps to its contract
  -- and gives no memory that meets them: the string stays valid; on success it holds its characters
  -- and then those bytes, with a NUL behind them; a call that fails leaves it as it was.
  pub append_view_separate :
      (view : View) (string : StringHandle)
      → StringHandleIsValid string
      → is_valid view ≡ true
      → view_offset string view ≡ Alias.separate
      → IsApart (block string) view.start view.size
      → Spares realloc view.start view.size
      → Writes
          (characters string ++ load outside none view.start view.size)
          string
          (append_view realloc outside view string)
  append_view_separate view string v ok_view alias apart spares =
      let n = view.size in
      let old = string_size string in
      let source = load outside none view.start n in
      append_view_cases (λ out. Writes (characters string ++ source) string out) view string ok_view
        (string_size-le string v) (λ s bad. refused _ string s v bad)
        (λ e.
          nothing string source v
            (length-nil source (omega (arith, length-load outside none view.start n))))
        (λ room. rw alias (
          whole string source _ v (
            grow_and_write_lem realloc sound outside old n (λ _. view.start) string source v
              (omega arith) room (length-load outside none view.start n)
              (λ s r d.
                from_outside realloc sound outside old view.start n string room apart spares s d))))

  -- Appending a part of a valid string to itself, where `realloc` keeps to its contract: the string
  -- stays valid; on success it holds its characters and then those of the part, even if the block
  -- was moved; a call that fails leaves it as it was.
  pub append_view_inside :
      (view : View) (place : ℕ) (s : OwnedString)
      → StringIsValid s
      → view.start ≡ s.base + place
      → place + view.size ≤ s.size
      → Writes
          (characters (some s) ++ read place view.size s.cells)
          (some s)
          (append_view realloc outside view (some s))
  append_view_inside view place s v e h =
      let n = view.size in
      let source = read place n s.cells in
      let real : (view.start == 0) ≡ false = ground (arith, v.low) in
      append_view_cases (λ out. Writes (characters (some s) ++ source) (some s) out) view (some s)
        (rw real refl) (string_size-le (some s) v) (λ t bad. refused _ (some s) t v bad)
        (λ z. nothing (some s) source v (ap (λ (t : ℕ). read place t s.cells) z))
        (λ room. rw (view_offset-inside s view place v e h) (
          whole (some s) source _ v (
            grow_and_write_lem realloc sound outside s.size n (λ b. string_base b + place) (some s)
              source v (omega arith) room
              (omega (arith, length-read place n s.cells, v.within, v.full))
              (λ b r d. from_inside realloc sound outside s.size place n s h b r))))
