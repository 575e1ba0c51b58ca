-- ===== src/Leaks/Reallocating.antt =====
-- src/memory.c: lor_realloc_debug keeps the records true to the memory that a program has.
use liblor.Common.{
  ◌==◌, Bool-cases, Option-cases, ℕ, ◌≡◌, refl, sym, ◌∙◌, ◌⊎◌, inl, inr, true, false, none, List,
  arith,
}
use liblor.Leaks.{heap, Place, Leak, find_leak, Answer, malloc_debug, free_debug, realloc_debug}
use liblor.Leaks.Sizes.{eq_of_equal, find_leak-none}
use liblor.Leaks.Running.{Live, put, drop_live, move_live, IsRecorded, IsMoved, Tracks}
use liblor.Leaks.Moving.{IsFreeFrom, size_at-move, move_leak-AreApart}
use liblor.Leaks.Tracking.{given_ne, track-Tracks, malloc_debug-Tracks, not_live, freed-Tracks}

unused_dropped :
    (live : Live) (pointer new : ℕ)
    → (new ≡ pointer) ⊎ (live new ≡ none)
    → drop_live pointer live new ≡ none
unused_dropped live pointer new free = elim (Bool-cases (pointer == new)) [
  | inl same ↦ rw same refl
  | inr different ↦ elim free [
    | inl equal ↦ let clash : pointer == new ≡ true = ground (arith, equal) in cc
    | inr unused ↦ rw different unused
  ]
]

moved-Tracks :
    (live : Live) (leaks : List Leak) (answer : Answer) (pointer size : ℕ) (place : Place)
    → Tracks live leaks
    → pointer == 0 ≡ false
    → size == 0 ≡ false
    → answer.given == 0 ≡ false
    → (live pointer ≡ none → answer.record_given ≡ true)
    → (answer.given ≡ pointer) ⊎ (live answer.given ≡ none)
    → Tracks
        (put answer.given size (drop_live pointer live))
        (realloc_debug answer pointer size place leaks).1
unfolding realloc_debug
moved-Tracks live leaks answer pointer size place tracks given some_size new_given recorded free =
    elim (Option-cases (find_leak pointer heap leaks)) [
      | inl nothing ↦
          rw (realloc_debug, given, some_size, new_given, nothing)
            (track-Tracks (drop_live pointer live) leaks answer size place
              (not_live live leaks pointer tracks nothing)
              (record {
                unused = λ _. unused_dropped live pointer answer.given free;
                recorded = λ _.
                    recorded (sym (tracks.sizes pointer) ∙ find_leak-none pointer leaks nothing);
              })
              new_given)
      | inr (i, found) ↦
          let unused : IsFreeFrom pointer answer.given leaks = elim free [
            | inl same ↦ inl same
            | inr unused ↦ inr (tracks.sizes answer.given ∙ unused)
          ] in
          rw (realloc_debug, given, some_size, new_given, found)
            (record {
              sizes = λ other.
                  rw
                    (
                      size_at-move pointer answer.given size place i leaks tracks.apart unused found
                          other,
                      tracks.sizes other,
                    )
                    refl;
              apart =
                  move_leak-AreApart pointer answer.given size place i leaks tracks.apart unused
                    found;
            })
    ]

realloc_null :
    (answer : Answer) (pointer size : ℕ) (place : Place) (leaks : List Leak)
    → pointer == 0 ≡ true
    → realloc_debug answer pointer size place leaks ≡ malloc_debug answer size place leaks
unfolding realloc_debug
realloc_null answer pointer size place leaks null = rw null refl

realloc_empty :
    (answer : Answer) (pointer size : ℕ) (place : Place) (leaks : List Leak)
    → pointer == 0 ≡ false
    → size == 0 ≡ true
    → (realloc_debug answer pointer size place leaks).1 ≡ free_debug pointer leaks
unfolding realloc_debug
realloc_empty answer pointer size place leaks given empty = rw (given, empty) refl

realloc_failed :
    (answer : Answer) (pointer size : ℕ) (place : Place) (leaks : List Leak)
    → pointer == 0 ≡ false
    → size == 0 ≡ false
    → answer.given == 0 ≡ true
    → (realloc_debug answer pointer size place leaks).1 ≡ leaks
unfolding realloc_debug
realloc_failed answer pointer size place leaks given some_size failed =
    rw (given, some_size, failed) refl

-- Memory that realloc gives for NULL is recorded as malloc's.
IsMoved-null :
    (live : Live) (answer : Answer) (pointer : ℕ)
    → pointer ≡ 0
    → IsMoved live answer pointer
    → IsRecorded live answer
IsMoved-null live answer pointer null moves = record {
  unused = λ given. elim (moves.unused given) [
    | inl same ↦ absurd (given (same ∙ null))
    | inr unused ↦ unused
  ];
  recorded = λ given. moves.recorded given (inl null);
}

pub realloc_debug-Tracks :
    (live : Live) (leaks : List Leak) (answer : Answer) (pointer size : ℕ) (place : Place)
    → Tracks live leaks
    → IsMoved live answer pointer
    → Tracks
        (move_live answer.given pointer size live)
        (realloc_debug answer pointer size place leaks).1
realloc_debug-Tracks live leaks answer pointer size place tracks moves =
    elim (Bool-cases (pointer == 0)) [
      | inl null ↦
          let new = IsMoved-null live answer pointer (eq_of_equal pointer 0 null) moves in
          rw (realloc_null answer pointer size place leaks null, null)
            (malloc_debug-Tracks live leaks answer size place tracks new)
      | inr given ↦ elim (Bool-cases (size == 0)) [
        | inl empty ↦
            rw (realloc_empty answer pointer size place leaks given empty, given, empty)
              (freed-Tracks live leaks pointer tracks given)
        | inr some_size ↦ elim (Bool-cases (answer.given == 0)) [
          | inl failed ↦
              rw
                (
                  realloc_failed answer pointer size place leaks given some_size failed,
                  given,
                  some_size,
                  failed,
                )
                tracks
          | inr new_given ↦
              let some_given = given_ne answer.given new_given in
              rw (given, some_size, new_given)
                (moved-Tracks live leaks answer pointer size place tracks given some_size new_given
                  (λ unknown. moves.recorded some_given (inr unknown)) (moves.unused some_given))
        ]
      ]
    ]
