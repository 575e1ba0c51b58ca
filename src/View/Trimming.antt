-- ===== src/View/Trimming.antt =====
-- `lor_sv_trim` takes away exactly the white space at the two ends.
use liblor.Common.{
  Bool-cases, ℕ, zero, suc, ◌+◌, ◌-◌, ◌≡◌, refl, sym, ap, ap₂, subst, ◌∙◌, inl, inr, Bool, true,
  false, ◌&&◌, List, [], ◌∷◌, ◌++◌, arith,
}
use liblor.View.{
  View, Memory, ascii_space, is_valid, slice, skip_spaces, trim_left, cut_spaces, trim_right, trim,
}
use liblor.View.Text.{chars, text, chars-add}
use liblor.View.Slices.{slice_within}

-- Every character of the list is white space.
abbrev pub all_spaces : List ℕ → Bool
all_spaces [] = true
all_spaces (c ∷ cs) = ascii_space c && all_spaces cs

-- The list begins with white space.
abbrev pub begins_with_space : List ℕ → Bool
begins_with_space [] = false
begins_with_space (c ∷ cs) = ascii_space c

-- The list ends with white space.
abbrev pub ends_with_space : List ℕ → Bool
ends_with_space [] = false
ends_with_space (c ∷ []) = ascii_space c
ends_with_space (c ∷ d ∷ cs) = ends_with_space (d ∷ cs)

-- The loop of `trim_left` skips `m` characters, all white space, up to the end or the first other one.
record Skips (mem : Memory) (p n o k : ℕ) : Type 0 where
  pub m : ℕ
  pub r : ℕ
  pub stop : k ≡ o + m
  pub whole : n ≡ m + r
  pub white : all_spaces (chars mem (p + o) m) ≡ true
  pub next : begins_with_space (chars mem (p + o + m) r) ≡ false

skip_spaces_lem : (mem : Memory) (p n o : ℕ) → Skips mem p n o (skip_spaces mem p n o)
unfolding skip_spaces
skip_spaces_lem mem p zero o = record {
  m = 0;
  r = 0;
  stop = omega arith;
  whole = omega arith;
  white = refl;
  next = refl;
}
skip_spaces_lem mem p (suc n) o =
    let ih = skip_spaces_lem mem p n (o + 1) in
    let e : p + (o + 1) ≡ p + o + 1 = omega arith in
    let d : p + (o + 1) + ih.m ≡ p + o + (ih.m + 1) = omega arith in
    let z : p + o + 0 ≡ p + o = omega arith in
    elim (Bool-cases (ascii_space (mem (p + o)))) [
      | inl space ↦ rw space (record {
        m = suc ih.m;
        r = ih.r;
        stop = omega (arith, ih.stop);
        whole = omega (arith, ih.whole);
        white = rw (space, ← e) ih.white;
        next =
            subst (λ (t : ℕ). begins_with_space (chars mem t ih.r) ≡ false) (omega arith) ih.next;
      })
      | inr other ↦ rw other (record {
        m = 0;
        r = suc n;
        stop = omega arith;
        whole = omega arith;
        white = refl;
        next = rw z other;
      })
    ]

-- The loop of `trim_right` keeps `k` characters, which end with another one if there is any; the
-- `m` behind them are all white space.
record Cuts (mem : Memory) (p n k : ℕ) : Type 0 where
  pub m : ℕ
  pub whole : n ≡ k + m
  pub white : all_spaces (chars mem (p + k) m) ≡ true
  pub last : ends_with_space (chars mem p k) ≡ false

all_spaces-append :
    (xs ys : List ℕ) → all_spaces xs ≡ true → all_spaces ys ≡ true → all_spaces (xs ++ ys) ≡ true
all_spaces-append [] ys h k = k
all_spaces-append (x ∷ xs) ys h k = elim (Bool-cases (ascii_space x)) [
  | inl space ↦ rw space (all_spaces-append xs ys (rw space at h) k)
  | inr other ↦ absurd (let h = rw other at h in cc)
]

ends_with_space-chars :
    (mem : Memory) (p n : ℕ) → ends_with_space (chars mem p (suc n)) ≡ ascii_space (mem (p + n))
ends_with_space-chars mem p zero = ap (λ (t : ℕ). ascii_space (mem t)) (omega arith)
ends_with_space-chars mem p (suc n) =
    ends_with_space-chars mem (p + 1) n ∙ ap (λ (t : ℕ). ascii_space (mem t)) (omega arith)

cut_more :
    (mem : Memory) (p n k : ℕ)
    → Cuts mem p n k
    → ascii_space (mem (p + n)) ≡ true
    → Cuts mem p (suc n) k
cut_more mem p n k cuts space = record {
  m = suc cuts.m;
  whole = omega (arith, cuts.whole);
  white =
      subst (λ l. all_spaces l ≡ true)
        (sym (
          chars-add mem (p + k) (p + n) cuts.m 1 (suc cuts.m) (omega arith)
            (omega (arith, cuts.whole))))
        (all_spaces-append (chars mem (p + k) cuts.m) (chars mem (p + n) 1) cuts.white
          (rw space refl));
  last = cuts.last;
}

cut_spaces_lem : (mem : Memory) (p n : ℕ) → Cuts mem p n (cut_spaces mem p n)
unfolding cut_spaces
cut_spaces_lem mem p zero = record { m = 0; whole = omega arith; white = refl; last = refl }
cut_spaces_lem mem p (suc n) = elim (Bool-cases (ascii_space (mem (p + n)))) [
  | inl space ↦ rw space (cut_more mem p n (cut_spaces mem p n) (cut_spaces_lem mem p n) space)
  | inr other ↦ rw other (record {
    m = 0;
    whole = omega arith;
    white = refl;
    last = rw (ends_with_space-chars mem p n) other;
  })
]

trim_left-slice :
    (mem : Memory) (view : View)
    → is_valid view ≡ true
    → trim_left mem view
      ≡ slice view
          (skip_spaces mem view.start view.size 0)
          (view.size - skip_spaces mem view.start view.size 0)
unfolding trim_left
trim_left-slice mem view v = rw v refl

trim_right-slice :
    (mem : Memory) (view : View)
    → is_valid view ≡ true
    → trim_right mem view ≡ slice view 0 (cut_spaces mem view.start view.size)
unfolding trim_right
trim_right-slice mem view v = rw v refl

-- `trim_left` cuts off the white space that the text begins with, and no more.
pub record TrimsLeft (mem : Memory) (view kept : View) : Type 0 where
  pub valid : is_valid kept ≡ true
  pub before : List ℕ
  pub whole : text mem view ≡ before ++ text mem kept
  pub white : all_spaces before ≡ true
  pub first : begins_with_space (text mem kept) ≡ false

pub trim_left_lem :
    (mem : Memory) (view : View) → is_valid view ≡ true → TrimsLeft mem view (trim_left mem view)
trim_left_lem mem view v =
    let skips = skip_spaces_lem mem view.start view.size 0 in
    let k = skip_spaces mem view.start view.size 0 in
    let q = view.start + 0 + skips.m in
    let part = slice_within mem view k (view.size - k) v (omega (arith, skips.whole, skips.stop)) in
    let e : view.start + k ≡ q = omega (arith, skips.stop) in
    let r : view.size - k ≡ skips.r = omega (arith, skips.stop, skips.whole) in
    let shown = part.shows ∙ ap₂ (λ (a b : ℕ). chars mem a b) e r in
    rw (trim_left-slice mem view v) (record {
      valid = part.valid;
      before = chars mem view.start skips.m;
      whole =
          chars-add mem view.start q skips.m skips.r view.size skips.whole (omega arith)
          ∙ ap (λ l. chars mem view.start skips.m ++ l) (sym shown);
      white = subst (λ (t : ℕ). all_spaces (chars mem t skips.m) ≡ true) (omega arith) skips.white;
      first = subst (λ l. begins_with_space l ≡ false) (sym shown) skips.next;
    })

-- `trim_right` cuts off the white space that the text ends with, and no more.
pub record TrimsRight (mem : Memory) (view kept : View) : Type 0 where
  pub valid : is_valid kept ≡ true
  pub after : List ℕ
  pub whole : text mem view ≡ text mem kept ++ after
  pub white : all_spaces after ≡ true
  pub last : ends_with_space (text mem kept) ≡ false

pub trim_right_lem :
    (mem : Memory) (view : View) → is_valid view ≡ true → TrimsRight mem view (trim_right mem view)
trim_right_lem mem view v =
    let k = cut_spaces mem view.start view.size in
    let cuts = cut_spaces_lem mem view.start view.size in
    let part = slice_within mem view 0 k v (omega (arith, cuts.whole)) in
    let shown = part.shows ∙ ap (λ (t : ℕ). chars mem t k) (omega arith) in
    rw (trim_right-slice mem view v) (record {
      valid = part.valid;
      after = chars mem (view.start + k) cuts.m;
      whole =
          chars-add mem view.start (view.start + k) k cuts.m view.size cuts.whole refl
          ∙ ap (λ l. l ++ chars mem (view.start + k) cuts.m) (sym shown);
      white = cuts.white;
      last = subst (λ l. ends_with_space l ≡ false) (sym shown) cuts.last;
    })

begins_with_space-append :
    (xs ys : List ℕ) → begins_with_space (xs ++ ys) ≡ false → begins_with_space xs ≡ false
begins_with_space-append [] ys h = refl
begins_with_space-append (x ∷ xs) ys h = h

-- What is cut off on both sides is white space, and what is kept neither begins nor ends with it.
pub record Trims (mem : Memory) (view kept : View) : Type 0 where
  pub valid : is_valid kept ≡ true
  pub before : List ℕ
  pub after : List ℕ
  pub whole : text mem view ≡ before ++ (text mem kept ++ after)
  pub before_white : all_spaces before ≡ true
  pub after_white : all_spaces after ≡ true
  pub first : begins_with_space (text mem kept) ≡ false
  pub last : ends_with_space (text mem kept) ≡ false

-- `trim` of a valid view cuts off white space only, and all of it at the two ends.
pub trim_lem : (mem : Memory) (view : View) → is_valid view ≡ true → Trims mem view (trim mem view)
unfolding trim
trim_lem mem view v =
    let left = trim_left_lem mem view v in
    let right = trim_right_lem mem (trim_left mem view) left.valid in
    record {
      valid = right.valid;
      before = left.before;
      after = right.after;
      whole = left.whole ∙ ap (λ l. left.before ++ l) right.whole;
      before_white = left.white;
      after_white = right.white;
      first =
          begins_with_space-append _ _
            (subst (λ l. begins_with_space l ≡ false) right.whole left.first);
      last = right.last;
    }
