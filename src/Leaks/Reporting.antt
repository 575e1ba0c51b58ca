-- ===== src/Leaks/Reporting.antt =====
-- src/memory.c: what the records and their counters say of the memory that a program has.
use liblor.Common.{
  ◌==◌, Bool-cases, Option-cases, length, size_max, ℕ, ◌≤◌, ◌≡◌, refl, sym, ◌∙◌, ◌↔◌, inl, inr,
  Bool, false, none, List,
}
use liblor.Leaks.{Kind, heap, Place, Leak, same_kind, find_leak, track, untrack, leakcheck_stats}
use liblor.Leaks.Sizes.{is_leak_not_heap}
use liblor.Leaks.OtherKinds.{size_at-remove_other, remove_other-AreApart}
use liblor.Leaks.Running.{
  Live, Runs, starts, mallocs, callocs, strdups, reallocs, frees, other_tracks, other_untracks,
  Tracks,
}
use liblor.Leaks.Counting.{heap_count_lem, number_of-none, none_of_number}
use liblor.Leaks.Tracking.{
  malloc_debug-Tracks, calloc_debug-Tracks, strdup_debug-Tracks, free_debug-Tracks,
}
use liblor.Leaks.Reallocating.{realloc_debug-Tracks}

other_track-Tracks :
    (live : Live) (leaks : List Leak) (record_given : Bool) (kind : Kind) (pointer size : ℕ)
    (place : Place)
    → Tracks live leaks
    → same_kind kind heap ≡ false
    → Tracks live (track record_given kind pointer size place leaks)
unfolding track
other_track-Tracks live leaks record_given kind pointer size place tracks different =
    let leak : Leak = record { kind = kind; pointer = pointer; size = size; place = place } in
    elim (Bool-cases (pointer == 0)) [
      | inl null ↦ rw (track, null) tracks
      | inr given ↦ elim (Bool-cases record_given) [
        | inl recorded ↦
            rw (track, given, recorded)
              (record {
                sizes = λ other. rw (is_leak_not_heap other leak different) (tracks.sizes other);
                apart = (
                  (λ other that. let not_that = is_leak_not_heap other leak different in cc),
                  tracks.apart,
                );
              })
        | inr not_recorded ↦ rw (track, given, not_recorded) tracks
      ]
    ]

other_untrack-Tracks :
    (live : Live) (leaks : List Leak) (kind : Kind) (pointer : ℕ)
    → Tracks live leaks
    → same_kind kind heap ≡ false
    → Tracks live (untrack kind pointer leaks)
unfolding untrack
other_untrack-Tracks live leaks kind pointer tracks different =
    elim (Option-cases (find_leak pointer kind leaks)) [
      | inl nothing ↦ rw (untrack, nothing) tracks
      | inr (i, found) ↦
          rw (untrack, found)
            (record {
              sizes = λ other.
                  rw (size_at-remove_other pointer kind i leaks different found other)
                    (tracks.sizes other);
              apart = remove_other-AreApart pointer kind i leaks different tracks.apart found;
            })
    ]

-- However a program calls the allocation functions, with NULL, a size of 0 or a call that fails as
-- well, while records of arenas and files come and go, the records have exactly the live heap memory:
-- each live pointer has its size there, no other pointer has a record of heap memory, and no pointer
-- has two. This is as long as memory that is given was not in use, but where realloc leaves it in its
-- place, as malloc gives the memory of the records, and as a text's length fits `size_t`.
pub Runs-Tracks : {live : Live} {leaks : List Leak} → Runs live leaks → Tracks live leaks
Runs-Tracks starts = record { sizes = λ pointer. refl; apart = tt }
Runs-Tracks (mallocs answer size place before new) =
    malloc_debug-Tracks _ _ answer size place (Runs-Tracks before) new
Runs-Tracks (callocs answer count elem_size place before new) =
    calloc_debug-Tracks _ _ answer count elem_size place (Runs-Tracks before) new
Runs-Tracks (strdups answer text place before new small) =
    strdup_debug-Tracks _ _ answer text place (Runs-Tracks before) new small
Runs-Tracks (reallocs answer pointer size place before moves) =
    realloc_debug-Tracks _ _ answer pointer size place (Runs-Tracks before) moves
Runs-Tracks (frees pointer before) = free_debug-Tracks _ _ pointer (Runs-Tracks before)
Runs-Tracks (other_tracks record_given kind pointer size place before different) =
    other_track-Tracks _ _ record_given kind pointer size place (Runs-Tracks before) different
Runs-Tracks (other_untracks kind pointer before different) =
    other_untrack-Tracks _ _ kind pointer (Runs-Tracks before) different

-- After any calls of the allocation functions, those that fail or are passed NULL or a size of 0
-- included, in which memory that is given was not in use, but where realloc leaves it in its place,
-- and malloc gives the memory of the records, leakcheck reports no heap memory exactly if the program
-- has none, where the number of records fits `size_t`.
pub leakcheck_stats-Runs :
    {live : Live} {leaks : List Leak}
    → Runs live leaks
    → length leaks ≤ size_max
    → ((leakcheck_stats leaks).heap_count ≡ 0) ↔ ((pointer : ℕ) → live pointer ≡ none)
leakcheck_stats-Runs {live} {leaks} runs small =
    let tracks = Runs-Tracks runs in
    let count = heap_count_lem leaks small in
    (
      (λ zero_count pointer.
          sym (tracks.sizes pointer) ∙ none_of_number leaks (sym count ∙ zero_count) pointer),
      (λ unused. count ∙ number_of-none leaks (λ pointer. tracks.sizes pointer ∙ unused pointer)),
    )
