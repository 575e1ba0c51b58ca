-- ===== src/Leaks/Sizes.antt =====
-- src/memory.c: the size that the records have for a pointer to heap memory.
use liblor.Common.{
  ◌==◌, if◌then◌else◌, Bool-cases, Option-cases, ℕ, suc, ◌≡◌, refl, sym, subst, inl, inr, true,
  false, Option, none, some, List, [], ◌∷◌, arith,
}
use liblor.Leaks.{Kind, heap, Place, Leak, same_kind, is_leak, find_leak, remove_leak}

-- The size of the heap memory at a pointer, by the newest record.
abbrev pub size_at : List Leak → ℕ → Option ℕ
size_at [] pointer = none
size_at (leak ∷ leaks) pointer =
    if is_leak pointer heap leak then some leak.size else size_at leaks pointer

-- No two records are of the same heap memory.
abbrev pub AreApart : List Leak → Type 0
AreApart [] = Unit
AreApart (leak ∷ leaks) =
    ((pointer : ℕ) → is_leak pointer heap leak ≡ true → size_at leaks pointer ≡ none)
    × AreApart leaks

pub is_leak_pointer :
    (pointer : ℕ) (leak : Leak) → is_leak pointer heap leak ≡ true → leak.pointer ≡ pointer
unfolding is_leak
is_leak_pointer pointer leak e = ground arith

-- A record is of one pointer only.
pub is_leak_other :
    (pointer other : ℕ) (leak : Leak)
    → is_leak pointer heap leak ≡ true
    → pointer == other ≡ false
    → is_leak other heap leak ≡ false
unfolding is_leak
is_leak_other pointer other leak this different = ground arith

pub is_leak_self :
    (leak : Leak) → same_kind leak.kind heap ≡ true → is_leak leak.pointer heap leak ≡ true
unfolding is_leak
is_leak_self leak same = ground arith

pub is_leak_not_heap :
    (other : ℕ) (leak : Leak) → same_kind leak.kind heap ≡ false → is_leak other heap leak ≡ false
unfolding is_leak
is_leak_not_heap other leak different = ground arith

pub eq_of_equal : (m n : ℕ) → m == n ≡ true → m ≡ n
eq_of_equal m n e = ground arith

pub is_leak_apart :
    (pointer other : ℕ) (leak : Leak)
    → is_leak pointer heap leak ≡ false
    → is_leak other heap leak ≡ true
    → pointer == other ≡ false
is_leak_apart pointer other leak not_this that = elim (Bool-cases (pointer == other)) [
  | inl same ↦
      let clash =
        subst (λ p. is_leak p heap leak ≡ true) (sym (eq_of_equal pointer other same)) that in
      cc
  | inr different ↦ different
]

-- A record that moves is of heap memory at its new pointer.
pub is_leak_moved :
    (pointer new size other : ℕ) (place : Place) (leak : Leak)
    → is_leak pointer heap leak ≡ true
    → is_leak other heap (record leak { pointer = new; size = size; place = place })
      ≡ (new == other)
unfolding is_leak
is_leak_moved pointer new size other place leak e =
    let same : same_kind leak.kind heap ≡ true = ground arith in
    elim (Bool-cases (new == other)) [
      | inl this ↦ rw (is_leak, same, this) refl
      | inr not_this ↦ rw (is_leak, same, not_this) refl
    ]

-- Where the first record of a pointer and a kind is, among a record and those that follow it.
pub data Found (pointer : ℕ) (kind : Kind) (leak : Leak) (leaks : List Leak)
    : Option ℕ → Type 0 where
  here : is_leak pointer kind leak ≡ true → Found pointer kind leak leaks (some 0)
  later :
      {i : ℕ}
      → is_leak pointer kind leak ≡ false
      → find_leak pointer kind leaks ≡ some i
      → Found pointer kind leak leaks (some (suc i))
  nowhere :
      is_leak pointer kind leak ≡ false
      → find_leak pointer kind leaks ≡ none
      → Found pointer kind leak leaks none

find_leak_step :
    (pointer : ℕ) (kind : Kind) (leak : Leak) (leaks : List Leak)
    → Found pointer kind leak leaks (find_leak pointer kind (leak ∷ leaks))
find_leak_step pointer kind leak leaks = elim (Bool-cases (is_leak pointer kind leak)) [
  | inl this ↦ rw this (here this)
  | inr other ↦ elim (Option-cases (find_leak pointer kind leaks)) [
    | inl nothing ↦ rw (other, nothing) (nowhere other nothing)
    | inr (i, found) ↦ rw (other, found) (later other found)
  ]
]

pub find_leak-Found :
    (pointer : ℕ) (kind : Kind) (leak : Leak) (leaks : List Leak) {found : Option ℕ}
    → find_leak pointer kind (leak ∷ leaks) ≡ found
    → Found pointer kind leak leaks found
find_leak-Found pointer kind leak leaks e =
    subst (λ o. Found pointer kind leak leaks o) e (find_leak_step pointer kind leak leaks)

-- A pointer without a record has no size.
pub find_leak-none :
    (pointer : ℕ) (leaks : List Leak)
    → find_leak pointer heap leaks ≡ none
    → size_at leaks pointer ≡ none
find_leak-none pointer [] e = refl
find_leak-none pointer (leak ∷ leaks) e = elim (find_leak-Found pointer heap leak leaks e) [
  | nowhere other nothing ↦ rw other (find_leak-none pointer leaks nothing)
]

-- The part of `size_at-remove` for the records from one on.
removed_from :
    (pointer : ℕ) {i : ℕ} (leak : Leak) (leaks : List Leak)
    → AreApart (leak ∷ leaks)
    → Found pointer heap leak leaks (some i)
    → (other : ℕ)
    → ((j : ℕ)
        → find_leak pointer heap leaks ≡ some j
        → size_at (remove_leak j leaks) other
          ≡ (if pointer == other then none else size_at leaks other))
    → size_at (remove_leak i (leak ∷ leaks)) other
      ≡ (if pointer == other then none else size_at (leak ∷ leaks) other)
removed_from pointer leak leaks (apart, rest) (here this) other ih =
    elim (Bool-cases (pointer == other)) [
      | inl same ↦ rw same (
          apart other
            (subst (λ p. is_leak p heap leak ≡ true) (eq_of_equal pointer other same) this))
      | inr different ↦ rw (different, is_leak_other pointer other leak this different) refl
    ]
removed_from pointer leak leaks (apart, rest) (later not_this found) other ih =
    elim (Bool-cases (is_leak other heap leak)) [
      | inl that ↦ elim (Bool-cases (pointer == other)) [
        | inl same ↦
            let clash =
              subst (λ p. is_leak p heap leak ≡ true) (sym (eq_of_equal pointer other same)) that in
            cc
        | inr different ↦ rw (different, that) refl
      ]
      | inr not_that ↦ rw not_that (ih _ found)
    ]

pub size_at-remove :
    (pointer i : ℕ) (leaks : List Leak)
    → AreApart leaks
    → find_leak pointer heap leaks ≡ some i
    → (other : ℕ)
    → size_at (remove_leak i leaks) other ≡ (if pointer == other then none else size_at leaks other)
size_at-remove pointer i [] apart found other = cc
size_at-remove pointer i (leak ∷ leaks) apart found other =
    removed_from pointer leak leaks apart (find_leak-Found pointer heap leak leaks found) other
      (λ j at. size_at-remove pointer j leaks apart.1 at other)
