-- ===== src/View/Search.antt =====
-- src/string.c: finding, splitting and chopping of views. An index that is written through a pointer
-- is the value of an option, and `none` is the failure.
use liblor.Common.{
  ltb, ◌==◌, if◌then◌else◌, ℕ, zero, suc, ◌+◌, ◌-◌, Bool, true, false, not, ◌&&◌, ◌||◌, Option,
  none, some,
}
use liblor.View.{View, Memory, empty_view, from_parts, is_valid, slice, take_left, same_bytes}

-- What `split` finds: nothing, or the index.
abbrev pub split_at : View → View → Option ℕ → Bool × View × View
split_at view delimiter none = (false, view, empty_view)
split_at view delimiter (some index) = (
  true,
  take_left view index,
  slice view (index + delimiter.size) (view.size - index - delimiter.size),
)

-- What `chop` hands over and leaves, from what `split` found.
abbrev pub chop_found : View → Bool × View × View → Bool × View × Option View
chop_found view (true, before, after) = (true, before, some after)
chop_found view (false, before, after) = (false, before, some (slice view view.size 0))

module _ (mem : Memory) where
  -- `view.data[i] == needle.data[0] && memcmp(view.data + i, needle.data, needle.size) == 0`
  unfoldable pub matches_at : View → View → ℕ → Bool
  unfolding same_bytes
  matches_at view needle i =
      mem (view.start + i) == mem needle.start
      && same_bytes mem (view.start + i) needle.start needle.size

  -- The loop of `find` from `i` on, over the `n` places that are left.
  unfoldable pub scan : View → View → ℕ → ℕ → Option ℕ
  unfolding matches_at
  scan view needle zero i = none
  scan view needle (suc n) i =
      let rest = scan view needle n (i + 1) in if matches_at view needle i then some i else rest

  unfoldable pub find : View → View → Option ℕ
  unfolding scan
  find view needle =
      if not (is_valid view) || not (is_valid needle) || ltb view.size needle.size
      then none
      else if needle.size == 0
      then some 0
      else scan view needle (view.size - needle.size + 1) 0

  -- `memchr` over `n` bytes from `i` on.
  unfoldable pub scan_char : ℕ → ℕ → ℕ → ℕ → Option ℕ
  scan_char p c zero i = none
  scan_char p c (suc n) i =
      let rest = scan_char p c n (i + 1) in if mem (p + i) == c then some i else rest

  unfoldable pub find_char : View → ℕ → Option ℕ
  unfolding scan_char
  find_char view needle =
      if not (is_valid view) then none else scan_char view.start needle view.size 0

  -- Whether it found the delimiter, and what is before and after it.
  unfoldable pub split : View → View → Bool × View × View
  unfolding find
  split view delimiter =
      split_at view delimiter (if delimiter.size == 0 then none else find view delimiter)

  -- `p` is the address of the character.
  unfoldable pub split_char : View → ℕ → Bool × View × View
  unfolding split
  split_char view p = split view (from_parts p 1)

  -- Whether it found the delimiter, the part before it, and the new view.
  unfoldable pub chop : Option View → View → Bool × View × Option View
  unfolding split
  chop none delimiter = (false, empty_view, none)
  chop (some view) delimiter =
      if not (is_valid view) || not (is_valid delimiter) || delimiter.size == 0
      then (false, empty_view, some view)
      else chop_found view (split view delimiter)

  unfoldable pub chop_char : Option View → ℕ → Bool × View × Option View
  unfolding chop
  chop_char view p = chop view (from_parts p 1)
