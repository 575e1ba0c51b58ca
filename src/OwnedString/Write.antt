-- ===== src/OwnedString/Write.antt =====
-- Growing an owned string and writing a view into it, which `lor_string_assign` and
-- `lor_string_append` share.
use liblor.Common.{
  length, take, length-take, take_all, take-take, read, read_congr, size_max, add_size, sub_size,
  Cell, Realloc, IsAllocator, ℕ, ◌+◌, ◌≤◌, ◌≡◌, refl, sym, ap, subst, ◌∙◌, ◌≢◌, inl, inr, none,
  some, List, [], ◌∷◌, ◌++◌, append-nil, arith,
}
use liblor.Status.{Status, ok, bind-cases}
use liblor.Array.{Alias, load}
use liblor.Array.Inv.{IsApart, Spares}
use liblor.Array.Store.{load-inside, load-outside}
use liblor.View.{View}
use liblor.OwnedString.{
  OwnedString, StringHandle, string_size, bytes_of, block, view_offset, reserve_string, write_view,
  grow_and_write,
}
use liblor.OwnedString.Inv.{
  StringIsValid, StringHandleIsValid, characters, terminate_lem, ReservesString, reserve_string_lem,
  reserve_string-IsApart,
}

-- On success the string holds the characters, and else it is as before; it stays valid.
pub record Writes (written : List Cell) (string : StringHandle) (out : Status × StringHandle)
    : Type 0 where
  pub valid : StringHandleIsValid out.1
  pub holds : out.0 ≡ ok → characters out.1 ≡ written
  pub kept : out.0 ≢ ok → out.1 ≡ string

pub length-nil : (xs : List Cell) → length xs ≡ 0 → xs ≡ []
length-nil [] h = refl
length-nil (x ∷ xs) h = absurd (omega arith)

pub string_size-le :
    (string : StringHandle) → StringHandleIsValid string → string_size string ≤ size_max
string_size-le none v = omega arith
string_size-le (some s) v = omega (arith, v.within, v.high)

pub length-characters :
    (string : StringHandle)
    → StringHandleIsValid string
    → length (characters string) ≡ string_size string
length-characters none v = refl
length-characters (some s) v = omega (arith, v.within, v.full, length-take s.size s.cells)

pub view_offset-inside :
    (s : OwnedString) (view : View) (place : ℕ)
    → StringIsValid s
    → view.start ≡ s.base + place
    → place + view.size ≤ s.size
    → view_offset (some s) view ≡ Alias.inside place
unfolding view_offset
view_offset-inside s view place v e h =
    let low = v.low in
    let high = v.high in
    let within = v.within in
    let p : sub_size view.start s.base ≡ place = omega arith in rw p (ground arith)

pub refused :
    (written : List Cell) (string : StringHandle) (s : Status)
    → StringHandleIsValid string
    → s ≢ ok
    → Writes written string (s, string)
refused written string s v bad = record { valid = v; holds = λ g. absurd (bad g); kept = λ _. refl }

pub nothing :
    (string : StringHandle) (source : List Cell)
    → StringHandleIsValid string
    → source ≡ []
    → Writes (characters string ++ source) string (ok, string)
nothing string source v e = record {
  valid = v;
  holds = λ _. rw e (sym (append-nil (characters string)));
  kept = λ bad. absurd (bad refl);
}

-- A write behind all characters keeps them.
pub whole :
    (string : StringHandle) (source : List Cell) (out : Status × StringHandle)
    → StringHandleIsValid string
    → Writes (take (string_size string) (characters string) ++ source) string out
    → Writes (characters string ++ source) string out
whole string source out v w =
    subst (λ l. Writes (l ++ source) string out)
      (take_all (string_size string) (characters string)
        (omega (arith, length-characters string v)))
      w

module _ (realloc : Realloc) (sound : IsAllocator realloc) (outside : ℕ → Cell) where
  written :
      (offset n : ℕ) (place : StringHandle → ℕ) (string : StringHandle) (source : List Cell)
      (s : OwnedString)
      → offset ≤ string_size string
      → offset + n ≤ size_max
      → length source ≡ n
      → ReservesString (offset + n) string (ok, some s)
      → load outside (block (some s)) (place (some s)) n ≡ source
      → Writes
          (take offset (characters string) ++ source)
          string
          (write_view realloc outside offset n place (some s))
  written offset n place string source s h small len r loads =
      let e : add_size offset n ≡ offset + n = omega arith in
      let (valid, holds) =
        terminate_lem s offset (offset + n) source r.valid (omega arith) (r.enough refl) in
      rw (e, loads)
        (record {
          valid = valid;
          holds = λ _.
              holds
              ∙ ap (λ l. l ++ source)
                  (sym (take-take offset s.size s.cells (omega (arith, r.count)))
                    ∙ ap (λ l. take offset l) r.same);
          kept = λ bad. absurd (bad refl);
        })

  pub grow_and_write_lem :
      (offset n : ℕ) (place : StringHandle → ℕ) (string : StringHandle) (source : List Cell)
      → StringHandleIsValid string
      → offset ≤ string_size string
      → offset + n ≤ size_max
      → length source ≡ n
      → ((s : OwnedString)
          → ReservesString (offset + n) string (ok, some s)
          → reserve_string realloc (offset + n) string ≡ (ok, some s)
          → load outside (block (some s)) (place (some s)) n ≡ source)
      → Writes
          (take offset (characters string) ++ source)
          string
          (grow_and_write realloc outside offset n place string)
  unfolding grow_and_write
  grow_and_write_lem offset n place string source v h small len loads =
      let out = reserve_string realloc (offset + n) string in
      let r = reserve_string_lem realloc sound (offset + n) string small v in
      let e : add_size offset n ≡ offset + n = omega arith in
      elim (bind-cases out (write_view realloc outside offset n place)) [
        | inr (bad, d) ↦
            rw (e, d) (record { valid = r.valid; holds = λ g. absurd (bad g); kept = r.kept })
        | inl (good, d) ↦ rw (e, d) (on_success out r refl good)
      ]
    where
      on_success :
          (out : Status × StringHandle)
          → ReservesString (offset + n) string out
          → reserve_string realloc (offset + n) string ≡ out
          → out.0 ≡ ok
          → Writes
              (take offset (characters string) ++ source)
              string
              (write_view realloc outside offset n place out.1)
      on_success (ok, none) r d g =
          let room = r.enough refl in
          let z : offset ≡ 0 = omega arith in
          let no_source = length-nil source (omega arith) in
          record {
            valid = tt;
            holds = λ _. rw (z, no_source) refl;
            kept = λ bad. absurd (bad refl);
          }
      on_success (ok, some s) r d g =
          written offset n place string source s h small len r (loads s r d)
      on_success (s, string') r d g = cc

  -- What a view of bytes outside the string gives.
  pub from_outside :
      (offset p n : ℕ) (string : StringHandle)
      → offset + n ≤ size_max
      → IsApart (block string) p n
      → Spares realloc p n
      → (s : OwnedString) → reserve_string realloc (offset + n) string ≡ (ok, some s)
      → load outside (block (some s)) p n ≡ load outside none p n
  from_outside offset p n string small apart spares s d =
      load-outside outside (block (some s)) p n (
        subst (λ (out : Status × StringHandle). IsApart (block out.1) p n) d
          (reserve_string-IsApart realloc sound (offset + n) p n string small spares apart))

  -- The bytes of the string itself stand at the same offset of the grown block.
  pub from_inside :
      (offset place n : ℕ) (s : OwnedString)
      → place + n ≤ s.size
      → (b : OwnedString) → ReservesString (offset + n) (some s) (ok, some b)
      → load outside (block (some b)) (b.base + place) n ≡ read place n s.cells
  from_inside offset place n s h b r =
      let same_size : b.size ≡ s.size = r.count in
      load-inside outside (bytes_of b) (b.base + place) place n refl
        (omega (arith, r.valid.full, r.valid.within))
      ∙ read_congr place n s.size b.cells s.cells h
          (ap (λ (t : ℕ). take t b.cells) (sym same_size) ∙ r.same)
