-- ===== src/View/Splitting.antt =====
-- `lor_sv_split` and `lor_sv_chop` cut a text at the first delimiter.
use liblor.Common.{
  ◌==◌, if◌then◌else◌, ℕ, ◌+◌, ◌-◌, ◌≤◌, ◌<◌, ◌≡◌, refl, sym, ap, ap₂, ◌∙◌, ◌≢◌, Bool, true, false,
  not, ◌||◌, Option, none, some, [], ◌++◌, arith,
}
use liblor.View.{View, Memory, empty_view, is_valid, slice}
use liblor.View.Search.{split_at, chop_found, find, split, chop}
use liblor.View.Text.{text, chars-add}
use liblor.View.Slices.{Shows, slice-size, slice_within, take_left-size, take_left_within}
use liblor.View.Finding.{OccursAt, First, find_lem}

-- A view cut at the first delimiter: what is before and after it, or the whole view.
pub record Cut (mem : Memory) (view delimiter : View) (out : Bool × View × View) : Type 0 where
  pub valid_before : is_valid out.1 ≡ true
  pub valid_after : is_valid out.2 ≡ true
  pub joined :
      out.0 ≡ true → text mem view ≡ text mem out.1 ++ (text mem delimiter ++ text mem out.2)
  pub shorter : out.0 ≡ true → out.2.size < view.size
  pub first : out.0 ≡ true → (j : ℕ) → j < out.1.size → ¬ (OccursAt mem view delimiter j)
  pub absent :
      out.0 ≡ false → (j : ℕ) → j + delimiter.size ≤ view.size → ¬ (OccursAt mem view delimiter j)
  pub whole : out.0 ≡ false → (out.1 ≡ view) × (out.2 ≡ empty_view)

split_at_lem :
    (mem : Memory) (view delimiter : View) (found : Option ℕ)
    → is_valid view ≡ true
    → delimiter.size ≢ 0
    → First (OccursAt mem view delimiter) (view.size + 1 - delimiter.size) found
    → Cut mem view delimiter (split_at view delimiter found)
unfolding First
split_at_lem mem view delimiter none v full h = record {
  valid_before = v;
  valid_after = refl;
  joined = λ e. absurd (cc);
  shorter = λ e. absurd (cc);
  first = λ e. absurd (cc);
  absent = λ _ j b. h j (omega arith);
  whole = λ _. (refl, refl);
}
split_at_lem mem view delimiter (some i) v full (b, here, before) =
    let n = delimiter.size in
    let rest = view.size - i - n in
    let p = view.start in
    let left = take_left_within mem view i v (omega arith) in
    let right = slice_within mem view (i + n) rest v (omega arith) in
    let size : (slice view (i + n) rest).size ≡ rest =
      omega (arith, slice-size view (i + n) rest v) in
    record {
      valid_before = left.valid;
      valid_after = right.valid;
      joined = λ _.
          chars-add mem p (p + i) i (n + rest) view.size (omega arith) refl
          ∙ ap₂ (λ l r. l ++ r) (sym left.shows)
              (chars-add mem (p + i) (p + (i + n)) n rest (n + rest) refl (omega arith)
                ∙ ap₂ (λ l r. l ++ r) here (sym right.shows));
      shorter = λ _. omega (arith, size);
      first = λ _ j h. before j (omega (arith, h, take_left-size view i v));
      absent = λ e. absurd (cc);
      whole = λ e. absurd (cc);
    }

split-at :
    (mem : Memory) (view delimiter : View)
    → delimiter.size ≢ 0
    → split mem view delimiter ≡ split_at view delimiter (find mem view delimiter)
unfolding split
split-at mem view delimiter full =
    let e : (delimiter.size == 0) ≡ false = ground arith in
    ap (λ b. split_at view delimiter (if b then none else find mem view delimiter)) e

-- `split` by a nonempty delimiter cuts a valid view at the first place where the delimiter stands:
-- the text is what is before, the delimiter, and what is after. If it stands nowhere, all of the
-- view is before, and an empty view after.
pub split_lem :
    (mem : Memory) (view delimiter : View)
    → is_valid view ≡ true
    → is_valid delimiter ≡ true
    → delimiter.size ≢ 0
    → Cut mem view delimiter (split mem view delimiter)
split_lem mem view delimiter v w full = rw (split-at mem view delimiter full) (
    split_at_lem mem view delimiter (find mem view delimiter) v full
      (find_lem mem view delimiter v w))

chop-split :
    (mem : Memory) (view delimiter : View)
    → is_valid view ≡ true
    → is_valid delimiter ≡ true
    → delimiter.size ≢ 0
    → chop mem (some view) delimiter ≡ chop_found view (split mem view delimiter)
unfolding chop
chop-split mem view delimiter v w full =
    let guard : (not (is_valid view) || not (is_valid delimiter) || delimiter.size == 0) ≡ false =
      refused view delimiter v w (ground arith) in
    ap
      (λ b.
        if b then (false, empty_view, some view) else chop_found view (split mem view delimiter))
      guard
  where
    refused :
        (view delimiter : View)
        → is_valid view ≡ true
        → is_valid delimiter ≡ true
        → (delimiter.size == 0) ≡ false
        → (not (is_valid view) || not (is_valid delimiter) || delimiter.size == 0) ≡ false
    refused view delimiter v w e = rw (v, w, e) refl

-- What a chop hands over and leaves: the parts of the view around the first delimiter, or the whole
-- view and an empty rest.
pub record Chopped (mem : Memory) (view delimiter : View) (out : Bool × View × Option View)
    : Type 0 where
  pub rest : View
  pub left : out.2 ≡ some rest
  pub found : out.0 ≡ true → Cut mem view delimiter (true, out.1, rest)
  pub last : out.0 ≡ false → (out.1 ≡ view) × Shows mem rest []
  pub absent :
      out.0 ≡ false → (j : ℕ) → j + delimiter.size ≤ view.size → ¬ (OccursAt mem view delimiter j)
  pub progress : view.size ≢ 0 → rest.size < view.size

chopped_lem :
    (mem : Memory) (view delimiter : View) (out : Bool × View × View)
    → is_valid view ≡ true
    → Cut mem view delimiter out
    → Chopped mem view delimiter (chop_found view out)
chopped_lem mem view delimiter (true, before, after) v cut = record {
  rest = after;
  left = refl;
  found = λ _. cut;
  last = λ e. absurd (cc);
  absent = λ e. absurd (cc);
  progress = λ _. cut.shorter refl;
}
chopped_lem mem view delimiter (false, before, after) v cut = record {
  rest = slice view view.size 0;
  left = refl;
  found = λ e. absurd (cc);
  last = λ _. ((cut.whole refl).0, slice_within mem view view.size 0 v (omega arith));
  absent = λ _. cut.absent refl;
  progress = λ full. omega (arith, slice-size view view.size 0 v, full);
}

-- `chop` by a nonempty delimiter takes the part of a valid view before the first delimiter and
-- leaves the part behind it; without a delimiter it takes the whole view and leaves an empty one.
-- What is left of a nonempty view is shorter, so a loop of chops ends.
pub chop_lem :
    (mem : Memory) (view delimiter : View)
    → is_valid view ≡ true
    → is_valid delimiter ≡ true
    → delimiter.size ≢ 0
    → Chopped mem view delimiter (chop mem (some view) delimiter)
chop_lem mem view delimiter v w full = rw (chop-split mem view delimiter v w full) (
    chopped_lem mem view delimiter (split mem view delimiter) v
      (split_lem mem view delimiter v w full))
