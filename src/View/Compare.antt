-- ===== src/View/Compare.antt =====
-- `lor_sv_equal`, `starts_with` and `ends_with` compare texts.
use liblor.Common.{
  ltb, ◌==◌, if◌then◌else◌, Bool-cases, length, get_or, take, drop, length-take, length-drop, ℕ,
  zero, suc, ◌+◌, ◌-◌, ◌≤◌, ◌≡◌, refl, ap, ap₂, subst, ◌∙◌, ◌↔◌, inl, inr, true, false, List, ◌∷◌,
  arith,
}
use liblor.View.{
  View, Memory, is_valid, take_left, take_right, same_bytes, equal, view_starts_with,
  view_ends_with,
}
use liblor.View.Text.{chars, text, length-chars}
use liblor.View.Slices.{Shows, take_left_lem, take_right_lem}

-- `memcmp` answers whether the bytes are the same.
pub same_bytes_lem :
    (mem : Memory) (p q n : ℕ) → (same_bytes mem p q n ≡ true) ↔ (chars mem p n ≡ chars mem q n)
unfolding same_bytes
same_bytes_lem mem p q zero = (λ _. refl, λ _. refl)
same_bytes_lem mem p q (suc n) =
    let (to, from) = same_bytes_lem mem (p + 1) (q + 1) n in
    elim (Bool-cases (mem p == mem q)) [
      | inl same ↦
          let e : mem p ≡ mem q = ground arith in
          rw same (λ h. ap₂ (λ (a : ℕ) l. a ∷ l) e (to h), λ h. from (ap (λ l. drop 1 l) h))
      | inr differ ↦ rw differ (
        λ h. absurd (cc),
        λ h. let e : mem p ≡ mem q = ap (λ l. get_or l 0 0) h in absurd (ground arith),
      )
    ]

-- Two valid views are equal exactly if they show the same text.
pub equal_lem :
    (mem : Memory) (a b : View)
    → is_valid a ≡ true
    → is_valid b ≡ true
    → (equal mem a b ≡ true) ↔ (text mem a ≡ text mem b)
unfolding equal
equal_lem mem a b va vb = elim (Bool-cases (a.size == b.size)) [
  | inr differ ↦
      rw (va, vb, differ)
        (
          λ h. absurd (cc),
          λ h. absurd (
              ground (
                arith,
                ap (λ (l : List ℕ). length l) h,
                length-chars mem a.start a.size,
                length-chars mem b.start b.size,
              )),
        )
  | inl same ↦
      let e : a.size ≡ b.size = ground arith in
      elim (Bool-cases (a.size == 0)) [
        | inl empty ↦
            let ea : a.size ≡ 0 = ground arith in
            let eb : b.size ≡ 0 = omega arith in
            rw (va, vb, same, empty) (λ _. rw (ea, eb) refl, λ _. refl)
        | inr full ↦ rw (va, vb, same, full, ← e) (same_bytes_lem mem a.start b.start a.size)
      ]
]

starts_with-equal :
    (mem : Memory) (view prefix : View)
    → is_valid view ≡ true
    → is_valid prefix ≡ true
    → view_starts_with mem view prefix
      ≡ (if ltb view.size prefix.size then false else equal mem (take_left view prefix.size) prefix)
unfolding view_starts_with
starts_with-equal mem view prefix v p = elim (Bool-cases (ltb view.size prefix.size)) [
  | inl s ↦ rw (v, p, s) refl
  | inr l ↦ rw (v, p, l) refl
]

ends_with-equal :
    (mem : Memory) (view suffix : View)
    → is_valid view ≡ true
    → is_valid suffix ≡ true
    → view_ends_with mem view suffix ≡ (
        if ltb view.size suffix.size then false else equal mem (take_right view suffix.size) suffix)
unfolding view_ends_with
ends_with-equal mem view suffix v p = elim (Bool-cases (ltb view.size suffix.size)) [
  | inl s ↦ rw (v, p, s) refl
  | inr l ↦ rw (v, p, l) refl
]

-- A part that shows `characters` is compared with them.
part-equal :
    (mem : Memory) (view part other : View) (characters : List ℕ)
    → Shows mem part characters
    → is_valid other ≡ true
    → (length characters ≡ other.size → other.size ≤ view.size)
    → ((if ltb view.size other.size then false else equal mem part other) ≡ true)
      ↔ (characters ≡ text mem other)
part-equal mem view part other characters part_shows v fits =
    elim (Bool-cases (ltb view.size other.size)) [
      | inl short ↦ rw short (
        λ h. absurd (cc),
        λ h.
            let l = ap (λ (l : List ℕ). length l) h ∙ length-chars mem other.start other.size in
            let f = fits l in absurd (ground arith),
      )
      | inr long ↦ rw long (
          subst (λ t. (equal mem part other ≡ true) ↔ (t ≡ text mem other)) part_shows.shows
            (equal_lem mem part other part_shows.valid v))
    ]

-- A valid view starts with a valid prefix exactly if its text does.
pub starts_with_lem :
    (mem : Memory) (view prefix : View)
    → is_valid view ≡ true
    → is_valid prefix ≡ true
    → (view_starts_with mem view prefix ≡ true)
      ↔ (take prefix.size (text mem view) ≡ text mem prefix)
starts_with_lem mem view prefix v p =
    let n = prefix.size in
    rw (starts_with-equal mem view prefix v p) (
      part-equal mem view _ prefix _ (take_left_lem mem view n v) p
        (λ e. omega (arith, length-take n (text mem view), length-chars mem view.start view.size)))

-- A valid view ends with a valid suffix exactly if the last characters of its text are those.
pub ends_with_lem :
    (mem : Memory) (view suffix : View)
    → is_valid view ≡ true
    → is_valid suffix ≡ true
    → (view_ends_with mem view suffix ≡ true)
      ↔ (drop (view.size - suffix.size) (text mem view) ≡ text mem suffix)
ends_with_lem mem view suffix v p =
    let n = suffix.size in
    rw (ends_with-equal mem view suffix v p) (
      part-equal mem view _ suffix _ (take_right_lem mem view n v) p (λ e. omega (
        arith,
        length-drop (view.size - n) (text mem view),
        length-chars mem view.start view.size,
      )))
