-- ===== src/TaskGroup/Ending.antt =====
-- src/concurrency.c: a group that was waited for or cancelled starts no more threads.
use liblor.Common.{
  if◌then◌else◌, Bool-cases, length, ℕ, suc, ◌≡◌, refl, sym, ap, subst, ◌∙◌, inl, inr, Bool, true,
  false, not, ◌||◌, Option, none, some, List, [], ◌∷◌,
}
use liblor.Status.{Status, ok, invalid_argument, closed}
use liblor.TaskGroup.{Thread, Group, SpawnSystem, spawn_task, cancel_group, join_all, wait_group}

-- A call on a group, and what it leaves.
pub data Call (group : Group) : Group → Type 0 where
  spawns :
      {left : Group} (system : SpawnSystem) (has_function : Bool)
      → (spawn_task system has_function (some group)).1 ≡ some left
      → Call group left
  waits :
      {left : Group} (joins : ℕ → Bool)
      → (wait_group joins (some group)).1 ≡ some left
      → Call group left
  cancels : {left : Group} → cancel_group (some group) ≡ some left → Call group left

-- A group that was waited for, with whatever result, or cancelled, and then used by any calls.
pub data Ends (group : Group) : Group → Type 0 where
  by_wait :
      {left : Group} (joins : ℕ → Bool)
      → (wait_group joins (some group)).1 ≡ some left
      → Ends group left
  by_cancel : {left : Group} → cancel_group (some group) ≡ some left → Ends group left
  later : {left after : Group} → Ends group left → Call left after → Ends group after

-- What the guard of a spawn reads of a group that ended.
record HasEnded (count : ℕ) (group : Group) : Type 0 where
  refuses : (not group.accepting || group.cancelled) ≡ true
  as_many : length group.threads ≡ count

some_injective : {a b : Group} → some a ≡ some b → a ≡ b
some_injective e = cc

refused_spawn :
    (system : SpawnSystem) (has_function : Bool) (group : Group)
    → (not group.accepting || group.cancelled) ≡ true
    → spawn_task system has_function (some group)
      ≡ ((if has_function then closed else invalid_argument), some group)
unfolding spawn_task
refused_spawn system true group ended = rw ended refl
refused_spawn system false group ended = refl

length-join_all :
    (joins : ℕ → Bool) (result : Status) (threads : List Thread)
    → length (join_all joins result threads).1 ≡ length threads
unfolding join_all
length-join_all joins result [] = refl
length-join_all joins result (none ∷ threads) =
    ap (λ (n : ℕ). suc n) (length-join_all joins result threads)
length-join_all joins result (some handle ∷ threads) =
    ap (λ (n : ℕ). suc n) (length-join_all joins _ threads)

wait_group-HasEnded :
    (joins : ℕ → Bool) (group left : Group)
    → (wait_group joins (some group)).1 ≡ some left
    → HasEnded (length group.threads) left
unfolding wait_group
wait_group-HasEnded joins group left e =
    subst (λ g. HasEnded (length group.threads) g) (some_injective e)
      (elim (Bool-cases (group.waited)) [
        | inl before ↦ simp before (record { refuses = refl; as_many = refl })
        | inr first ↦
            simp first (record { refuses = refl; as_many = length-join_all joins ok group.threads })
      ])

cancel_group-HasEnded :
    (group left : Group)
    → cancel_group (some group) ≡ some left
    → HasEnded (length group.threads) left
unfolding cancel_group
cancel_group-HasEnded group left e =
    subst (λ g. HasEnded (length group.threads) g) (some_injective e)
      (record { refuses = refl; as_many = refl })

Call-HasEnded :
    {group left : Group} (count : ℕ) → HasEnded count group → Call group left → HasEnded count left
Call-HasEnded {group} {left} count ended (spawns system has_function e) =
    let same =
      ap (λ (out : Status × Option Group). out.1)
        (refused_spawn system has_function group ended.refuses) in
    subst (λ g. HasEnded count g) (some_injective (sym same ∙ e)) ended
Call-HasEnded {group} {left} count ended (waits joins e) =
    subst (λ n. HasEnded n left) ended.as_many (wait_group-HasEnded joins group left e)
Call-HasEnded {group} {left} count ended (cancels e) =
    subst (λ n. HasEnded n left) ended.as_many (cancel_group-HasEnded group left e)

Ends-HasEnded : {group after : Group} → Ends group after → HasEnded (length group.threads) after
Ends-HasEnded {group} (by_wait joins e) = wait_group-HasEnded joins group _ e
Ends-HasEnded {group} (by_cancel e) = cancel_group-HasEnded group _ e
Ends-HasEnded {group} (later ended call) =
    Call-HasEnded (length group.threads) (Ends-HasEnded ended) call

-- After a group is waited for, whichever of its threads can be joined, or is cancelled, and after any
-- spawns, waits and cancellations that follow, a spawn of a function is refused with
-- LOR_STATUS_CLOSED and changes nothing, and the group has as many threads as it had at first.
pub spawn_task-Ends :
    (system : SpawnSystem) {group after : Group}
    → Ends group after
    → (spawn_task system true (some after) ≡ (closed, some after))
      × (length after.threads ≡ length group.threads)
spawn_task-Ends system {after} ended =
    let held = Ends-HasEnded ended in (refused_spawn system true after held.refuses, held.as_many)
