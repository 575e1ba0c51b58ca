-- ===== src/TaskGroup/Tests.antt =====
-- Runs and instances of the theorems on a group of two threads.
use liblor.Common.{
  ◌==◌, if◌then◌else◌, length, mul_size, double_until, ℕ, ◌+◌, ◌^◌, ◌≡◌, refl, Bool, true, false,
  not, some, [], ◌∷◌, arith,
}
use liblor.Status.{ok, system_error, closed}
use liblor.TaskGroup.{
  Group, SpawnSystem, reserve_threads, spawn_task, cancel_group, wait_in, wait_group,
}
use liblor.TaskGroup.Waiting.{all_join, not_joined, wait_group_lem}
use liblor.TaskGroup.Spawning.{Spawns, spawn_task_lem}
use liblor.TaskGroup.Ending.{waits, Ends, by_cancel, later, spawn_task-Ends}

abbrev two_tasks : Group
two_tasks = record {
  threads = some 7 ∷ some 9 ∷ [];
  capacity = 4;
  block_bytes = 32;
  cancelled = false;
  accepting = true;
  waited = false;
}

-- The thread 9 cannot be joined.
abbrev not_9 : ℕ → Bool
not_9 handle = not (handle == 9)

abbrev all_given : SpawnSystem
all_given = record {
  realloc_given = λ n. true;
  start_given = true;
  thread_started = ok;
  thread_handle = 11;
}

wait_group_lem_example : wait_group not_9 (some two_tasks) ≡ (
  (if all_join not_9 two_tasks.threads then ok else system_error),
  some (record two_tasks {
    threads = not_joined not_9 two_tasks.threads;
    accepting = false;
    waited = all_join not_9 two_tasks.threads;
  }),
)
wait_group_lem_example = wait_group_lem not_9 two_tasks refl

-- The group is cancelled, waited for, and then spawned from.
abbrev cancelled_tasks : Group
cancelled_tasks = record two_tasks { accepting = false; cancelled = true }

ended : Ends two_tasks (wait_in not_9 cancelled_tasks).1
unfolding wait_group cancel_group
ended = later (by_cancel {left = cancelled_tasks} refl) (waits not_9 refl)

spawn_task-Ends_example :
    (spawn_task all_given true (some (wait_in not_9 cancelled_tasks).1)
      ≡ (closed, some (wait_in not_9 cancelled_tasks).1))
    × (length (wait_in not_9 cancelled_tasks).1.threads ≡ 2)
spawn_task-Ends_example =
    spawn_task-Ends all_given {group = two_tasks} {after = (wait_in not_9 cancelled_tasks).1} ended

spawn_task_lem_example : Spawns all_given two_tasks (spawn_task all_given true (some two_tasks))
spawn_task_lem_example =
    spawn_task_lem all_given true two_tasks (omega arith)
      (record { fits = omega arith; inside = omega arith })

-- With 2^60 threads the array of 2^61 handles that a reservation asks for has 0 bytes, modulo 2^64.
no_bytes : mul_size (double_until 64 (2 ^ 60) (2 ^ 60 + 1)) 8 ≡ 0
unfolding mul_size double_until
no_bytes = refl

-- That realloc frees the block, while the group keeps its capacity.
freed_block :
    let full = record two_tasks { capacity = 2 ^ 60; block_bytes = 2 ^ 63 } in
    (reserve_threads (λ n. not (n == 0)) (2 ^ 60 + 1) full).1 ≡ record full { block_bytes = 0 }
unfolding reserve_threads mul_size double_until
freed_block = refl
