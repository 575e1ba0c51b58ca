-- ===== src/Leaks/Moving.antt =====
-- src/memory.c: the record of a pointer moves, and records stay apart.
use liblor.Leaks.Sizes.{
  size_at, AreApart, is_leak_pointer, is_leak_other, eq_of_equal, is_leak_apart, is_leak_moved,
  Found, here, later, find_leak-Found, size_at-remove,
}
use liblor.Leaks.{heap, Place, Leak, is_leak, find_leak, remove_leak, move_leak}
use liblor.Common.{
  ◌==◌, if◌then◌else◌, Bool-cases, ℕ, ◌≡◌, refl, sym, subst, ◌⊎◌, inl, inr, true, false, Option,
  none, some, List, [], ◌∷◌,
}

-- A pointer that heap memory may be moved to from another one.
abbrev pub IsFreeFrom : ℕ → ℕ → List Leak → Type 0
IsFreeFrom pointer new leaks = (new ≡ pointer) ⊎ (size_at leaks new ≡ none)

-- A pointer that is not in use stays so when a record is passed.
size_at_tail :
    (new : ℕ) (leak : Leak) (leaks : List Leak)
    → size_at (leak ∷ leaks) new ≡ none
    → (is_leak new heap leak ≡ false) × (size_at leaks new ≡ none)
size_at_tail new leak leaks e = elim (Bool-cases (is_leak new heap leak)) [
  | inl this ↦ let clash = simp this at e in cc
  | inr other ↦ (other, simp other at e)
]

IsFreeFrom-tail :
    (pointer new : ℕ) (leak : Leak) (leaks : List Leak)
    → is_leak pointer heap leak ≡ false
    → IsFreeFrom pointer new (leak ∷ leaks)
    → (is_leak new heap leak ≡ false) × IsFreeFrom pointer new leaks
IsFreeFrom-tail pointer new leak leaks not_this (inl same) =
    (subst (λ p. is_leak p heap leak ≡ false) (sym same) not_this, inl same)
IsFreeFrom-tail pointer new leak leaks not_this (inr unused) =
    let (other, rest) = size_at_tail new leak leaks unused in (other, inr rest)

-- The size at a pointer after a record moves.
abbrev pub moved_size : ℕ → ℕ → ℕ → List Leak → ℕ → Option ℕ
moved_size pointer new size leaks other =
    if new == other then some size else if pointer == other then none else size_at leaks other

moved_from :
    (pointer new size : ℕ) (place : Place) {i : ℕ} (leak : Leak) (leaks : List Leak)
    → AreApart (leak ∷ leaks)
    → IsFreeFrom pointer new (leak ∷ leaks)
    → Found pointer heap leak leaks (some i)
    → (other : ℕ)
    → ((j : ℕ)
        → find_leak pointer heap leaks ≡ some j
        → IsFreeFrom pointer new leaks
        → size_at (move_leak j new size place leaks) other
          ≡ moved_size pointer new size leaks other)
    → size_at (move_leak i new size place (leak ∷ leaks)) other
      ≡ moved_size pointer new size (leak ∷ leaks) other
moved_from pointer new size place leak leaks (apart, rest) unused (here this) other ih =
    let moved = is_leak_moved pointer new size other place leak this in
    elim (Bool-cases (new == other)) [
      | inl target ↦ rw (moved, target) refl
      | inr not_target ↦ elim (Bool-cases (pointer == other)) [
        | inl same ↦
            rw (moved, not_target, same)
              (apart other
                (subst (λ p. is_leak p heap leak ≡ true) (eq_of_equal pointer other same) this))
        | inr different ↦
            rw (moved, not_target, different, is_leak_other pointer other leak this different) refl
      ]
    ]
moved_from pointer new size place leak leaks (apart, rest) unused (later not_this found) other ih =
    let (not_new, unused_rest) = IsFreeFrom-tail pointer new leak leaks not_this unused in
    elim (Bool-cases (is_leak other heap leak)) [
      | inl that ↦
          rw
            (
              that,
              is_leak_apart new other leak not_new that,
              is_leak_apart pointer other leak not_this that,
            )
            refl
      | inr not_that ↦ rw not_that (ih _ found unused_rest)
    ]

pub size_at-move :
    (pointer new size : ℕ) (place : Place) (i : ℕ) (leaks : List Leak)
    → AreApart leaks
    → IsFreeFrom pointer new leaks
    → find_leak pointer heap leaks ≡ some i
    → (other : ℕ)
    → size_at (move_leak i new size place leaks) other ≡ moved_size pointer new size leaks other
size_at-move pointer new size place i [] apart unused found other = cc
size_at-move pointer new size place i (leak ∷ leaks) apart unused found other =
    moved_from pointer new size place leak leaks apart unused
      (find_leak-Found pointer heap leak leaks found) other
      (λ j at free. size_at-move pointer new size place j leaks apart.1 free at other)

-- Where a record moves to, no later record is of that pointer.
unused_after :
    (pointer new : ℕ) (leak : Leak) (leaks : List Leak)
    → ((q : ℕ) → is_leak q heap leak ≡ true → size_at leaks q ≡ none)
    → is_leak pointer heap leak ≡ true
    → IsFreeFrom pointer new (leak ∷ leaks)
    → size_at leaks new ≡ none
unused_after pointer new leak leaks apart this (inl same) =
    subst (λ p. size_at leaks p ≡ none) (sym same) (apart pointer this)
unused_after pointer new leak leaks apart this (inr unused) = (size_at_tail new leak leaks unused).1

-- Records stay apart when one is removed.
removed-AreApart :
    (pointer : ℕ) {i : ℕ} (leak : Leak) (leaks : List Leak)
    → AreApart (leak ∷ leaks)
    → Found pointer heap leak leaks (some i)
    → ((j : ℕ) → find_leak pointer heap leaks ≡ some j → AreApart (remove_leak j leaks))
    → AreApart (remove_leak i (leak ∷ leaks))
removed-AreApart pointer leak leaks (apart, rest) (here this) ih = rest
removed-AreApart pointer leak leaks (apart, rest) (later not_this found) ih = (
  (λ q that.
      rw (size_at-remove pointer _ leaks rest found q, is_leak_apart pointer q leak not_this that)
        (apart q that)),
  ih _ found,
)

pub remove_leak-AreApart :
    (pointer i : ℕ) (leaks : List Leak)
    → AreApart leaks
    → find_leak pointer heap leaks ≡ some i
    → AreApart (remove_leak i leaks)
remove_leak-AreApart pointer i [] apart found = cc
remove_leak-AreApart pointer i (leak ∷ leaks) apart found =
    removed-AreApart pointer leak leaks apart (find_leak-Found pointer heap leak leaks found)
      (λ j at. remove_leak-AreApart pointer j leaks apart.1 at)

moved-AreApart :
    (pointer new size : ℕ) (place : Place) {i : ℕ} (leak : Leak) (leaks : List Leak)
    → AreApart (leak ∷ leaks)
    → IsFreeFrom pointer new (leak ∷ leaks)
    → Found pointer heap leak leaks (some i)
    → ((j : ℕ)
        → find_leak pointer heap leaks ≡ some j
        → IsFreeFrom pointer new leaks
        → AreApart (move_leak j new size place leaks))
    → AreApart (move_leak i new size place (leak ∷ leaks))
moved-AreApart pointer new size place leak leaks (apart, rest) unused (here this) ih = (
  (λ q that.
      subst (λ p. size_at leaks p ≡ none)
        (is_leak_pointer q (record leak { pointer = new; size = size; place = place }) that)
        (unused_after pointer new leak leaks apart this unused)),
  rest,
)
moved-AreApart pointer new size place leak leaks (apart, rest) unused (later not_this found) ih =
    let (not_new, unused_rest) = IsFreeFrom-tail pointer new leak leaks not_this unused in
    (
      (λ q that.
          rw
            (
              size_at-move pointer new size place _ leaks rest unused_rest found q,
              is_leak_apart new q leak not_new that,
              is_leak_apart pointer q leak not_this that,
            )
            (apart q that)),
      ih _ found unused_rest,
    )

pub move_leak-AreApart :
    (pointer new size : ℕ) (place : Place) (i : ℕ) (leaks : List Leak)
    → AreApart leaks
    → IsFreeFrom pointer new leaks
    → find_leak pointer heap leaks ≡ some i
    → AreApart (move_leak i new size place leaks)
move_leak-AreApart pointer new size place i [] apart unused found = cc
move_leak-AreApart pointer new size place i (leak ∷ leaks) apart unused found =
    moved-AreApart pointer new size place leak leaks apart unused
      (find_leak-Found pointer heap leak leaks found)
      (λ j at free. move_leak-AreApart pointer new size place j leaks apart.1 free at)
