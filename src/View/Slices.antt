-- ===== src/View/Slices.antt =====
-- `lor_sv_slice`, `take_left`, `take_right`, `chop_left` and `chop_right` on the text of a view.
use liblor.Common.{
  ltb, ◌==◌, if◌then◌else◌, Bool-cases, le_cases, length, take, drop, length-drop, take_all,
  drop_all, take-nil, ℕ, ◌+◌, ◌-◌, ◌≤◌, min, ◌≡◌, refl, sym, ap, subst, ◌∙◌, inl, inr, true, false,
  Option, some, List, arith,
}
use liblor.View.{
  View, Memory, offset_pointer, from_parts, is_valid, slice, take_left, take_right, chop_left,
  chop_right,
}
use liblor.View.Text.{chars, text, length-chars, take-chars, drop-chars}

pub record Shows (mem : Memory) (view : View) (characters : List ℕ) : Type 0 where
  pub valid : is_valid view ≡ true
  pub shows : text mem view ≡ characters

pub part_lem :
    (mem : Memory) (view : View) (o n : ℕ)
    → is_valid view ≡ true
    → o + n ≤ view.size
    → Shows mem (from_parts (offset_pointer view o) n) (chars mem (view.start + o) n)
      × ((from_parts (offset_pointer view o) n).size ≡ n)
part_lem mem view o n ok h = elim (Bool-cases (view.start == 0)) [
  | inl null ↦
      let e : n ≡ 0 = ground arith in rw (null, e) (record { valid = refl; shows = refl }, refl)
  | inr real ↦
      let r : (view.start + o == 0) ≡ false = ground arith in
      rw (real, r) (record { valid = rw r refl; shows = refl }, refl)
]

-- C's clamping of a value is the minimum.
clamp : (limit a : ℕ) → (if ltb limit a then limit else a) ≡ min a limit
clamp limit a = elim (Bool-cases (ltb limit a)) [
  | inl above ↦ rw above (ground arith)
  | inr below ↦ rw below (ground arith)
]

taken :
    (mem : Memory) (p size o n a b : ℕ)
    → a ≡ min o size
    → b ≡ min n (size - a)
    → chars mem (p + a) b ≡ take n (drop o (chars mem p size))
taken mem p size o n a b ea eb = elim (le_cases size o) [
  | inl beyond ↦
      let none_left : b ≡ 0 = omega arith in
      rw
        (
          drop_all o (chars mem p size) (omega (arith, length-chars mem p size)),
          take-nil {A = ℕ} n,
          none_left,
        )
        refl
  | inr inside_it ↦
      rw (drop-chars mem p (p + a) o size (omega arith) (omega arith))
        (elim (le_cases (size - o) n) [
          | inl all ↦
              let e : b ≡ size - o = omega arith in
              rw
                (
                  take_all n (chars mem (p + a) (size - o))
                      (omega (arith, length-chars mem (p + a) (size - o))),
                  e,
                )
                refl
          | inr part ↦
              let e : b ≡ n = omega arith in
              rw (take-chars mem (p + a) n (size - o) (omega arith), e) refl
        ])
]

-- A slice of a valid view is valid and shows that part of the text; a range that reaches past the
-- end is cut off there.
pub slice_lem :
    (mem : Memory) (view : View) (o n : ℕ)
    → is_valid view ≡ true
    → Shows mem (slice view o n) (take n (drop o (text mem view)))
unfolding slice
slice_lem mem view o n ok =
    let a = min o view.size in
    let b = min n (view.size - a) in
    let (part, size) = part_lem mem view a b ok (omega arith) in
    rw (ok, clamp view.size o, clamp (view.size - min o view.size) n)
      (record {
        valid = part.valid;
        shows = part.shows ∙ taken mem view.start view.size o n a b refl refl;
      })

pub slice-size :
    (view : View) (o n : ℕ)
    → is_valid view ≡ true
    → (slice view o n).size ≡ min n (view.size - min o view.size)
unfolding slice
slice-size view o n ok =
    let a = min o view.size in
    rw (ok, clamp view.size o, clamp (view.size - min o view.size) n)
      (part_lem (λ _. 0) view a (min n (view.size - a)) ok (omega arith)).1

-- A slice within the view shows the characters from its offset on.
pub slice_within :
    (mem : Memory) (view : View) (o n : ℕ)
    → is_valid view ≡ true
    → o + n ≤ view.size
    → Shows mem (slice view o n) (chars mem (view.start + o) n)
slice_within mem view o n ok h =
    let part = slice_lem mem view o n ok in
    record {
      valid = part.valid;
      shows = part.shows ∙ sym (taken mem view.start view.size o n o n (omega arith) (omega arith));
    }

-- `take_left` of `n` shows the first `n` characters.
pub take_left_lem :
    (mem : Memory) (view : View) (n : ℕ)
    → is_valid view ≡ true
    → Shows mem (take_left view n) (take n (text mem view))
unfolding take_left
take_left_lem mem view n ok = slice_lem mem view 0 n ok

pub take_left-size :
    (view : View) (n : ℕ) → is_valid view ≡ true → (take_left view n).size ≡ min n view.size
unfolding take_left
take_left-size view n ok = omega (arith, slice-size view 0 n ok)

-- `take_left` of at most the size shows the characters from the start on.
pub take_left_within :
    (mem : Memory) (view : View) (n : ℕ)
    → is_valid view ≡ true
    → n ≤ view.size
    → Shows mem (take_left view n) (chars mem view.start n)
take_left_within mem view n ok h =
    let part = take_left_lem mem view n ok in
    record { valid = part.valid; shows = part.shows ∙ take-chars mem view.start n view.size h }

take_right-slice :
    (view : View) (n : ℕ)
    → is_valid view ≡ true
    → take_right view n ≡ slice view (view.size - min n view.size) (min n view.size)
unfolding take_right
take_right-slice view n ok = rw (ok, clamp view.size n) refl

-- `take_right` of `n` shows the last `n` characters.
pub take_right_lem :
    (mem : Memory) (view : View) (n : ℕ)
    → is_valid view ≡ true
    → Shows mem (take_right view n) (drop (view.size - n) (text mem view))
take_right_lem mem view n ok =
    let m = min n view.size in
    let part = slice_lem mem view (view.size - m) m ok in
    let e : view.size - m ≡ view.size - n = omega arith in
    let all = take_all m (drop (view.size - m) (text mem view)) (
      omega (
        arith,
        length-drop (view.size - m) (text mem view),
        length-chars mem view.start view.size,
      )) in
    rw (take_right-slice view n ok) (record {
      valid = part.valid;
      shows = part.shows ∙ all ∙ ap (λ (t : ℕ). drop t (text mem view)) e;
    })

-- What a chop of a valid view hands over, and what it leaves.
pub Chops : Memory → View × Option View → List ℕ → List ℕ → Type 0
Chops mem out part left =
    Shows mem out.0 part × ((rest : View) × ((out.1 ≡ some rest) × Shows mem rest left))

chopped :
    (mem : Memory) (out : View × Option View) (first rest : View) (l r : List ℕ)
    → out ≡ (first, some rest)
    → Shows mem first l
    → Shows mem rest r
    → Chops mem out l r
unfolding Chops
chopped mem out first rest l r e a b = rw e (a, (rest, (refl, b)))

chop_left-slices :
    (view : View) (n : ℕ)
    → is_valid view ≡ true
    → chop_left (some view) n ≡ (
      take_left view n,
      some (slice view (take_left view n).size (view.size - (take_left view n).size)),
    )
unfolding chop_left
chop_left-slices view n ok = rw ok refl

-- `chop_left` takes the first `n` characters off a valid view and leaves the others.
pub chop_left_lem :
    (mem : Memory) (view : View) (n : ℕ)
    → is_valid view ≡ true
    → Chops mem (chop_left (some view) n) (take n (text mem view)) (drop n (text mem view))
chop_left_lem mem view n ok =
    let m = (take_left view n).size in
    let part = slice_lem mem view m (view.size - m) ok in
    chopped mem _ _ _ _ _ (chop_left-slices view n ok) (take_left_lem mem view n ok) (record {
      valid = part.valid;
      shows =
          part.shows
          ∙ take_all (view.size - m) (drop m (text mem view))
              (omega (arith, length-drop m (text mem view), length-chars mem view.start view.size))
          ∙ ap (λ (t : ℕ). drop t (text mem view)) (take_left-size view n ok)
          ∙ drop-clamped n view.size (text mem view) (length-chars mem view.start view.size);
    })
  where
    drop-clamped : (n size : ℕ) (xs : List ℕ) → length xs ≡ size → drop (min n size) xs ≡ drop n xs
    drop-clamped n size xs e = elim (le_cases n size) [
      | inl low ↦ ap (λ (t : ℕ). drop t xs) (omega arith)
      | inr high ↦ drop_all (min n size) xs (omega arith) ∙ sym (drop_all n xs (omega arith))
    ]

chop_right-slices :
    (view : View) (n : ℕ)
    → is_valid view ≡ true
    → chop_right (some view) n
      ≡ (take_right view n, some (record view { size = view.size - (take_right view n).size }))
unfolding chop_right
chop_right-slices view n ok = rw ok refl

take_right-size :
    (view : View) (n : ℕ) → is_valid view ≡ true → (take_right view n).size ≡ min n view.size
take_right-size view n ok =
    rw (take_right-slice view n ok)
      (omega (arith, slice-size view (view.size - min n view.size) (min n view.size) ok))

-- A shorter view with the same start is still valid.
shortened :
    (mem : Memory) (view : View) (m : ℕ)
    → is_valid view ≡ true
    → m ≤ view.size
    → Shows mem (record view { size = m }) (take m (text mem view))
shortened mem view m ok h = record {
  valid = elim (Bool-cases (view.start == 0)) [
    | inl null ↦ rw null (ground arith)
    | inr real ↦ rw real refl
  ];
  shows = sym (take-chars mem view.start m view.size h);
}

-- `chop_right` takes the last `n` characters off a valid view and leaves the others.
pub chop_right_lem :
    (mem : Memory) (view : View) (n : ℕ)
    → is_valid view ≡ true
    → Chops mem
        (chop_right (some view) n)
        (drop (view.size - n) (text mem view))
        (take (view.size - n) (text mem view))
chop_right_lem mem view n ok =
    let left = view.size - (take_right view n).size in
    let e : left ≡ view.size - n = omega (arith, take_right-size view n ok) in
    chopped mem _ _ _ _ _ (chop_right-slices view n ok) (take_right_lem mem view n ok) (
      subst (λ (t : ℕ). Shows mem (record view { size = left }) (take t (text mem view))) e
        (shortened mem view left ok (omega arith)))
