-- ===== src/TaskGroup/Waiting.antt =====
-- src/concurrency.c: waiting for the threads of a group.
use liblor.Common.{
  if◌then◌else◌, Bool-cases, ℕ, ◌≡◌, refl, ◌↔◌, ◌⊎◌, inl, inr, Bool, true, false, ◌&&◌, none, some,
  List, [], ◌∷◌,
}
use liblor.Status.{ok, system_error}
use liblor.TaskGroup.{Thread, Group, join_all, none_left, wait_group, deinit_group}

-- Whether every thread that is left can be joined.
abbrev pub all_join : (ℕ → Bool) → List Thread → Bool
all_join joins [] = true
all_join joins (none ∷ threads) = all_join joins threads
all_join joins (some handle ∷ threads) = joins handle && all_join joins threads

-- The threads that cannot be joined, in their places.
abbrev pub not_joined : (ℕ → Bool) → List Thread → List Thread
not_joined joins [] = []
not_joined joins (none ∷ threads) = none ∷ not_joined joins threads
not_joined joins (some handle ∷ threads) =
    (if joins handle then none else some handle) ∷ not_joined joins threads

join_all-failed :
    (joins : ℕ → Bool) (threads : List Thread)
    → join_all joins system_error threads ≡ (system_error, not_joined joins threads)
unfolding join_all
join_all-failed joins [] = refl
join_all-failed joins (none ∷ threads) = rw (join_all-failed joins threads) refl
join_all-failed joins (some handle ∷ threads) = elim (Bool-cases (joins handle)) [
  | inl good ↦ simp (join_all, good, join_all-failed joins threads) refl
  | inr bad ↦ simp (join_all, bad, join_all-failed joins threads) refl
]

join_all_lem :
    (joins : ℕ → Bool) (threads : List Thread)
    → join_all joins ok threads
      ≡ ((if all_join joins threads then ok else system_error), not_joined joins threads)
unfolding join_all
join_all_lem joins [] = refl
join_all_lem joins (none ∷ threads) = rw (join_all_lem joins threads) refl
join_all_lem joins (some handle ∷ threads) = elim (Bool-cases (joins handle)) [
  | inl good ↦ simp (join_all, good, join_all_lem joins threads) refl
  | inr bad ↦ simp (join_all, bad, join_all-failed joins threads) refl
]

none_left-not_joined :
    (joins : ℕ → Bool) (threads : List Thread)
    → none_left (not_joined joins threads) ≡ all_join joins threads
none_left-not_joined joins [] = refl
none_left-not_joined joins (none ∷ threads) = none_left-not_joined joins threads
none_left-not_joined joins (some handle ∷ threads) = elim (Bool-cases (joins handle)) [
  | inl good ↦ simp (good, none_left-not_joined joins threads) refl
  | inr bad ↦ simp bad refl
]

-- Waiting for a group that was not waited for joins each thread that can be joined and keeps the
-- others. It succeeds, and the group counts as waited for, exactly if all can; else it returns
-- LOR_STATUS_SYSTEM_ERROR. Either way the group accepts no more tasks.
pub wait_group_lem :
    (joins : ℕ → Bool) (group : Group)
    → group.waited ≡ false
    → wait_group joins (some group) ≡ (
      (if all_join joins group.threads then ok else system_error),
      some (record group {
        threads = not_joined joins group.threads;
        accepting = false;
        waited = all_join joins group.threads;
      }),
    )
unfolding wait_group
wait_group_lem joins group first =
    simp
      (
        wait_group,
        first,
        join_all_lem joins group.threads,
        none_left-not_joined joins group.threads,
      )
      refl

-- Deinitializing a group resets it exactly if it was waited for or all its threads can be joined: a
-- group with a thread that cannot be joined is kept.
pub deinit_group_lem :
    (joins : ℕ → Bool) (group : Group)
    → (deinit_group joins (some group) ≡ none)
      ↔ ((group.waited ≡ true) ⊎ (all_join joins group.threads ≡ true))
unfolding deinit_group
deinit_group_lem joins group = elim (Bool-cases (group.waited)) [
  | inl before ↦ simp (deinit_group, before) ((λ _. inl refl), (λ _. refl))
  | inr first ↦ elim (Bool-cases (all_join joins group.threads)) [
    | inl all ↦
        simp
          (
            deinit_group,
            first,
            all,
            join_all_lem joins group.threads,
            none_left-not_joined joins group.threads,
          )
          ((λ _. inr refl), (λ _. refl))
    | inr some_fail ↦
        simp
          (
            deinit_group,
            first,
            some_fail,
            join_all_lem joins group.threads,
            none_left-not_joined joins group.threads,
          )
          ((λ e. absurd (cc)), (λ held. elim held [ inl e ↦ absurd (cc) | inr e ↦ absurd (cc) ]))
  ]
]
