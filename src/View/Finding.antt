-- ===== src/View/Finding.antt =====
-- `lor_sv_find` and `lor_sv_find_char` answer the first occurrence.
use liblor.Common.{
  ltb, ◌==◌, Bool-cases, le_cases, get_or, ℕ, zero, suc, ◌+◌, ◌-◌, ◌<◌, ◌≡◌, refl, ap, subst, ◌≢◌,
  ◌↔◌, inl, inr, true, false, Option, none, some, arith,
}
use liblor.View.{View, Memory, is_valid}
use liblor.View.Search.{matches_at, scan, find, scan_char, find_char}
use liblor.View.Text.{chars, text}
use liblor.View.Compare.{same_bytes_lem}

-- The needle's text stands in the view at an index.
abbrev pub OccursAt : Memory → View → View → ℕ → Type 0
OccursAt mem view needle i = chars mem (view.start + i) needle.size ≡ text mem needle

abbrev pub CharAt : Memory → View → ℕ → ℕ → Type 0
CharAt mem view c i = mem (view.start + i) ≡ c

-- Of the indices below a limit, the answer is the first with a property, if there is one.
unfoldable pub First {ℓ} : (ℕ → Type ℓ) → ℕ → Option ℕ → Type ℓ
First P limit none = (j : ℕ) → j < limit → ¬ (P j)
First P limit (some i) = (i < limit) × P i × ((j : ℕ) → j < i → ¬ (P j))

-- One more place is known not to have the property.
none_before {ℓ} :
    {P : ℕ → Type ℓ} {i : ℕ} → ((j : ℕ) → j < i → ¬ (P j)) → ¬ (P i) → (j : ℕ) → j < i + 1 → ¬ (P j)
none_before {P = P} {i = i} before here j h p = elim (le_cases i j) [
  | inl at_it ↦ here (subst P (omega arith) p)
  | inr below ↦ before j below p
]

matches_at_lem :
    (mem : Memory) (view needle : View) (i : ℕ)
    → needle.size ≢ 0
    → (matches_at mem view needle i ≡ true) ↔ OccursAt mem view needle i
unfolding matches_at
matches_at_lem mem view needle i full =
    let (to, from) = same_bytes_lem mem (view.start + i) needle.start needle.size in
    elim (Bool-cases (mem (view.start + i) == mem needle.start)) [
      | inl same ↦ rw same (to, from)
      | inr differ ↦ rw differ (λ h. absurd (cc), λ h. absurd (head needle.size full differ h))
    ]
  where
    head :
        (n : ℕ)
        → n ≢ 0
        → (mem (view.start + i) == mem needle.start) ≡ false
        → ¬ (chars mem (view.start + i) n ≡ chars mem needle.start n)
    head zero full differ h = full refl
    head (suc n) full differ h =
        let e : mem (view.start + i) ≡ mem needle.start = ap (λ l. get_or l 0 0) h in
        absurd (ground arith)

scan_lem :
    (mem : Memory) (view needle : View) (n i limit : ℕ)
    → needle.size ≢ 0
    → limit ≡ i + n
    → ((j : ℕ) → j < i → ¬ (OccursAt mem view needle j))
    → First (OccursAt mem view needle) limit (scan mem view needle n i)
unfolding scan First
scan_lem mem view needle zero i limit full e before = λ j h. before j (omega arith)
scan_lem mem view needle (suc n) i limit full e before =
    let (to, from) = matches_at_lem mem view needle i full in
    elim (Bool-cases (matches_at mem view needle i)) [
      | inl found ↦ rw found (omega arith, to found, before)
      | inr other ↦ rw other (
          scan_lem mem view needle n (i + 1) limit full (omega arith)
            (none_before before (λ o. let t = from o in cc)))
    ]

-- `find` answers the first place where a valid needle stands in a valid view, if there is one: an
-- empty needle stands at 0.
pub find_lem :
    (mem : Memory) (view needle : View)
    → is_valid view ≡ true
    → is_valid needle ≡ true
    → First (OccursAt mem view needle) (view.size + 1 - needle.size) (find mem view needle)
unfolding find
find_lem mem view needle v w = elim (Bool-cases (ltb view.size needle.size)) [
  | inl long ↦ rw (v, w, long) (unfold First in (λ j h. absurd (ground arith)))
  | inr fits ↦ elim (Bool-cases (needle.size == 0)) [
    | inl empty ↦
        let e : needle.size ≡ 0 = ground arith in
        rw (v, w, fits, empty, e) (unfold First in (omega arith, refl, λ j h. absurd (omega arith)))
    | inr full ↦
        rw (v, w, fits, full)
          (scan_lem mem view needle (view.size - needle.size + 1) 0 (view.size + 1 - needle.size)
            (λ e. absurd (ground arith)) (ground arith) (λ j h. absurd (omega arith)))
  ]
]

scan_char_lem :
    (mem : Memory) (view : View) (c n i limit : ℕ)
    → limit ≡ i + n
    → ((j : ℕ) → j < i → ¬ (CharAt mem view c j))
    → First (CharAt mem view c) limit (scan_char mem view.start c n i)
unfolding scan_char First
scan_char_lem mem view c zero i limit e before = λ j h. before j (omega arith)
scan_char_lem mem view c (suc n) i limit e before = elim (Bool-cases (mem (view.start + i) == c)) [
  | inl found ↦
      let same : mem (view.start + i) ≡ c = ground arith in rw found (omega arith, same, before)
  | inr other ↦ rw other (
      scan_char_lem mem view c n (i + 1) limit (omega arith)
        (none_before before (λ o. absurd (ground arith))))
]

-- `find_char` answers the first place of the character in a valid view, if there is one.
pub find_char_lem :
    (mem : Memory) (view : View) (c : ℕ)
    → is_valid view ≡ true
    → First (CharAt mem view c) view.size (find_char mem view c)
unfolding find_char
find_char_lem mem view c v =
    rw v
      (scan_char_lem mem view c view.size 0 view.size (omega arith) (λ j h. absurd (omega arith)))
