-- ===== src/OwnedString/Inv.antt =====
-- The invariant of an owned string, and what growth does to it.
use liblor.Common.{
  ltb, leb, if◌then◌else◌, Bool-cases, Option-cases, length, get_or, take, splice, length-splice,
  take-splice, take-splice_end, get_or-splice, size_max, add_size, Cell, Realloc, IsAllocator,
  refit, length-refit, double_until_enough, double_until_bounds, take-refit, ℕ, ◌+◌, ◌-◌, ◌≤◌, ◌≡◌,
  refl, ◌∙◌, ◌≢◌, ◌⊎◌, inl, inr, none, some, List, [], ◌∷◌, ◌++◌, arith,
}
use liblor.Status.{Status, ok, out_of_memory, overflow}
use liblor.OwnedString.{
  OwnedString, StringHandle, data_offset, string_size, string_capacity, block, terminate,
  next_capacity, moved_string, string_header, reserve_string,
}
use liblor.Array.Inv.{IsApart, Spares}

-- The block holds the capacity and one cell more, its end does not wrap, and the characters end
-- with a NUL.
pub record StringIsValid (s : OwnedString) : Type 0 where
  pub full : length s.cells ≡ s.capacity + 1
  pub within : s.size ≤ s.capacity
  pub low : data_offset ≤ s.base
  pub high : s.base + s.capacity + 1 ≤ size_max
  pub ends : get_or s.cells s.size none ≡ some 0

abbrev pub StringHandleIsValid : StringHandle → Type 0
StringHandleIsValid none = Unit {0}
StringHandleIsValid (some s) = StringIsValid s

-- The cells of the characters.
abbrev pub characters : StringHandle → List Cell
characters none = []
characters (some s) = take s.size s.cells

-- A write behind the first `offset` characters, with its NUL.
pub terminate_lem :
    (s : OwnedString) (offset size : ℕ) (source : List Cell)
    → StringIsValid s
    → size ≡ offset + length source
    → size ≤ s.capacity
    → let out = terminate size (record s { cells = splice offset source s.cells }) in
      StringIsValid out × (characters (some out) ≡ take offset s.cells ++ source)
terminate_lem s offset size source v e h =
    let written = splice offset source s.cells in
    let len = length-splice offset source s.cells in
    (
      record {
        full = omega (arith, length-splice size (some 0 ∷ []) written, len, v.full);
        within = h;
        low = v.low;
        high = v.high;
        ends = get_or-splice size (some 0) none written (omega (arith, len, v.full));
      },
      take-splice size size (some 0 ∷ []) written (omega arith)
          ∙ take-splice_end offset size source s.cells e (omega (arith, v.full)),
    )

pub record ReservesString (capacity : ℕ) (string : StringHandle) (out : Status × StringHandle)
    : Type 0 where
  pub valid : StringHandleIsValid out.1
  pub same : characters out.1 ≡ characters string
  pub count : string_size out.1 ≡ string_size string
  pub enough : out.0 ≡ ok → capacity ≤ string_capacity out.1
  pub kept : out.0 ≢ ok → out.1 ≡ string

-- The growth rule reaches what is required and never shrinks.
next_capacity_lem :
    (current required result : ℕ)
    → required ≤ size_max
    → next_capacity current required ≡ some result
    → (required ≤ result) × (current ≤ result) × (16 ≤ result)
unfolding next_capacity
next_capacity_lem current required result r e =
    let start = if ltb current 16 then 16 else current in
    ground (arith, double_until_enough 64 start required, double_until_bounds 64 start required)

-- What a block of fresh cells is before the NUL is written again.
moved-Reserves :
    (capacity new_capacity p : ℕ) (string : StringHandle)
    → StringHandleIsValid string
    → capacity ≤ new_capacity
    → string_capacity string ≤ new_capacity
    → p + (data_offset + new_capacity + 1) ≤ size_max
    → ReservesString capacity string (ok, some (moved_string string new_capacity p))
moved-Reserves capacity nc p none v c0 c1 room = record {
  valid = record {
    full =
        omega (arith, length-splice 0 (some 0 ∷ []) (refit (nc + 1) []), length-refit (nc + 1) []);
    within = omega arith;
    low = omega arith;
    high = omega arith;
    ends =
        get_or-splice 0 (some 0) none (refit (nc + 1) []) (omega (arith, length-refit (nc + 1) []));
  };
  same = refl;
  count = refl;
  enough = λ _. c0;
  kept = λ bad. absurd (bad refl);
}
moved-Reserves capacity nc p (some s) v c0 c1 room =
    let len = length-refit (nc + 1) s.cells in
    record {
      valid = record {
        full = omega (arith, length-splice s.size (some 0 ∷ []) (refit (nc + 1) s.cells), len);
        within = omega (arith, v.within);
        low = omega arith;
        high = omega arith;
        ends =
            get_or-splice s.size (some 0) none (refit (nc + 1) s.cells)
              (omega (arith, len, v.within));
      };
      same =
          take-splice s.size s.size (some 0 ∷ []) (refit (nc + 1) s.cells) (omega arith)
          ∙ take-refit s.size (nc + 1) s.cells (omega (arith, v.within))
              (omega (arith, v.within, v.full));
      count = refl;
      enough = λ _. c0;
      kept = λ bad. absurd (bad refl);
    }

module _ (realloc : Realloc) (sound : IsAllocator realloc) where
  -- The branches of `reserve_string`, by what they leave to show.
  reserve_string_cases :
      (P : Status × StringHandle → Type 0) (capacity : ℕ) (string : StringHandle)
      → capacity ≤ size_max
      → ((s : Status) → s ≢ ok → P (s, string))
      → (capacity ≤ string_capacity string → P (ok, string))
      → ((nc p : ℕ)
          → capacity ≤ nc
          → string_capacity string ≤ nc
          → nc ≤ size_max - data_offset - 1
          → realloc (string_header string) (data_offset + nc + 1) ≡ some p
          → P (ok, some (moved_string string nc p)))
      → P (reserve_string realloc capacity string)
  unfolding reserve_string
  reserve_string_cases P capacity string r refuse keep grow =
      elim (Bool-cases (leb capacity (string_capacity string))) [
        | inl room ↦ rw room (keep (ground arith))
        | inr short ↦ elim (Option-cases (next_capacity (string_capacity string) capacity)) [
          | inl e ↦ rw (short, e) (refuse overflow (λ e. cc))
          | inr (nc, e) ↦
              let grown = next_capacity_lem (string_capacity string) capacity nc r e in
              elim (Bool-cases (ltb (size_max - data_offset - 1) nc)) [
                | inl large ↦ rw (short, e, large) (refuse overflow (λ e. cc))
                | inr fits ↦
                    let small : nc ≤ size_max - data_offset - 1 = ground arith in
                    let size : add_size (add_size data_offset nc) 1 ≡ data_offset + nc + 1 =
                      omega arith in
                    elim (Option-cases (realloc (string_header string) (data_offset + nc + 1))) [
                      | inl failed ↦
                          rw (short, e, fits, size, failed) (refuse out_of_memory (λ e. cc))
                      | inr (p, got) ↦
                          rw (short, e, fits, size, got) (grow nc p grown.0 grown.1 small got)
                    ]
              ]
        ]
      ]

  -- Reserving a capacity that fits `size_t` in a valid string, where `realloc` keeps to its
  -- contract: the string stays valid, its NUL included, with the same characters; on success the
  -- capacity is at least the one asked for; a call that fails leaves the string as it was.
  pub reserve_string_lem :
      (capacity : ℕ) (string : StringHandle)
      → capacity ≤ size_max
      → StringHandleIsValid string
      → ReservesString capacity string (reserve_string realloc capacity string)
  reserve_string_lem capacity string r v =
      reserve_string_cases (λ out. ReservesString capacity string out) capacity string r
        (λ s bad. record {
          valid = v;
          same = refl;
          count = refl;
          enough = λ e. absurd (bad e);
          kept = λ _. refl;
        })
        (λ room. record {
          valid = v;
          same = refl;
          count = refl;
          enough = λ _. room;
          kept = λ _. refl;
        })
        (λ nc p c0 c1 small e.
          moved-Reserves capacity nc p string v c0 c1 (sound (string_header string) _ p e))

  -- The grown block is the old one, or one that `realloc` gave.
  pub reserve_string-IsApart :
      (capacity p n : ℕ) (string : StringHandle)
      → capacity ≤ size_max
      → Spares realloc p n
      → IsApart (block string) p n
      → IsApart (block (reserve_string realloc capacity string).1) p n
  reserve_string-IsApart capacity p n string r spares apart =
      reserve_string_cases (λ out. IsApart (block out.1) p n) capacity string r (λ s bad. apart)
        (λ room. apart)
        (λ nc q c0 c1 small e. fresh string nc q (spares (string_header string) _ q e))
    where
      fresh :
          (string : StringHandle) (nc q : ℕ)
          → (p + n ≤ q) ⊎ (q + (data_offset + nc + 1) ≤ p)
          → IsApart (block (some (moved_string string nc q))) p n
      fresh none nc q d =
          omega (arith, length-splice 0 (some 0 ∷ []) (refit (nc + 1) []), length-refit (nc + 1) [])
      fresh (some s) nc q d = omega (
        arith,
        length-splice s.size (some 0 ∷ []) (refit (nc + 1) s.cells),
        length-refit (nc + 1) s.cells,
      )
