-- ===== src/Leaks/Tests.antt =====
-- Runs and instances of the theorems on a program that allocates, moves and frees.
use liblor.Common.{length, size_max, ℕ, ◌≤◌, ◌≡◌, refl, ◌↔◌, inr, true, none, List, [], arith}
use liblor.Leaks.{
  arena, Place, Leak, is_leak, track, untrack, stats_from, leakcheck_stats, leakcheck_count, Answer,
  malloc_debug, calloc_debug, free_debug, realloc_debug,
}
use liblor.Leaks.Running.{
  Live, put_given, calloc_size, drop_given, move_live, Runs, starts, mallocs, callocs, reallocs,
  frees, other_tracks, Tracks,
}
use liblor.Leaks.Reporting.{Runs-Tracks, leakcheck_stats-Runs}

abbrev here : Place
here = record { file = 70; line = 12 }

abbrev gives : ℕ → Answer
gives pointer = record { given = pointer; record_given = true }

-- 24 bytes at 100, moved to 40 bytes at 200; three more pieces of 8 bytes at 300; an arena at 500.
abbrev moved_live : Live
moved_live = put_given 300 (calloc_size 3 8) (move_live 200 100 40 (put_given 100 24 (λ p. none)))

abbrev moved_leaks : List Leak
moved_leaks =
    track true arena 500 0 here
      (calloc_debug (gives 300) 3 8 here
        (realloc_debug (gives 200) 100 40 here (malloc_debug (gives 100) 24 here []).1).1).1

moved : Runs moved_live moved_leaks
moved =
    other_tracks true arena 500 0 here
      (callocs (gives 300) 3 8 here
        (reallocs (gives 200) 100 40 here
          (mallocs (gives 100) 24 here starts (record { unused = λ _. refl; recorded = λ _. refl }))
          (record { unused = λ _. inr refl; recorded = λ _ unknown. refl }))
        (record { unused = λ _. refl; recorded = λ _. refl }))
      refl

-- A realloc that fails, one of NULL to 16 bytes at 600, and one to 0 bytes.
abbrev after_leaks : List Leak
after_leaks =
    (realloc_debug (gives 0) 600 0 here
      (realloc_debug (gives 600) 0 16 here (realloc_debug (gives 0) 200 80 here moved_leaks).1).1).1

abbrev after_live : Live
after_live = move_live 0 600 0 (move_live 600 0 16 (move_live 0 200 80 moved_live))

after_runs : Runs after_live after_leaks
after_runs =
    reallocs (gives 0) 600 0 here
      (reallocs (gives 600) 0 16 here
        (reallocs (gives 0) 200 80 here moved
          (record { unused = λ given. absurd (given refl); recorded = λ _ unknown. refl }))
        (record { unused = λ _. inr refl; recorded = λ _ unknown. refl }))
      (record { unused = λ given. absurd (given refl); recorded = λ _ unknown. refl })

freed :
    Runs (drop_given 200 (drop_given 300 after_live)) (free_debug 200 (free_debug 300 after_leaks))
freed = frees 200 (frees 300 after_runs)

Runs-Tracks_example : Tracks after_live after_leaks
Runs-Tracks_example = Runs-Tracks after_runs

one_left : length (free_debug 200 (free_debug 300 after_leaks)) ≤ size_max
unfolding track calloc_debug realloc_debug malloc_debug is_leak free_debug untrack
one_left = omega arith

leakcheck_stats-Runs_example :
    ((leakcheck_stats (free_debug 200 (free_debug 300 after_leaks))).heap_count ≡ 0)
    ↔ ((pointer : ℕ) → drop_given 200 (drop_given 300 after_live) pointer ≡ none)
leakcheck_stats-Runs_example = leakcheck_stats-Runs freed one_left

moved_stats :
    leakcheck_stats moved_leaks
    ≡ record { heap_count = 2; heap_bytes = 64; arena_count = 1; mmap_count = 0; mmap_bytes = 0 }
unfolding stats_from track calloc_debug realloc_debug malloc_debug is_leak
moved_stats = refl

freed_count : leakcheck_count (free_debug 200 (free_debug 300 after_leaks)) ≡ 1
unfolding stats_from track calloc_debug realloc_debug malloc_debug is_leak free_debug untrack
freed_count = refl
