-- ===== src/TaskGroup.antt =====
-- src/concurrency.c: task groups, with the Unix branch of `lor_thread_join`. The calls of the system
-- are parameters; what runs in the threads is not modelled.
pub mod Waiting
pub mod Spawning
pub mod Ending
mod Tests
use liblor.Common.{
  ltb, leb, ◌==◌, if◌then◌else◌, length, size_max, mul_size, double_until, ℕ, ◌+◌, ◌/◌, Bool, true,
  false, not, ◌||◌, Option, none, some, List, [], ◌∷◌, ◌++◌,
}
use liblor.Status.{Status, ok, invalid_argument, out_of_memory, overflow, system_error, closed}

-- A thread is the handle of its implementation, none where that is NULL.
abbrev pub Thread : Type 0
Thread = Option ℕ

-- `LorConcurrencyTaskGroupImpl`, with the number of bytes of the block at `threads`.
pub record Group : Type 0 where
  pub threads : List Thread
  pub capacity : ℕ
  pub block_bytes : ℕ
  pub cancelled : Bool
  pub accepting : Bool
  pub waited : Bool

-- How the calls of a spawn answer: realloc of so many bytes, malloc of the start, and the thread.
pub record SpawnSystem : Type 0 where
  pub realloc_given : ℕ → Bool
  pub start_given : Bool
  pub thread_started : Status
  pub thread_handle : ℕ

-- `sizeof(LorThread)`: one pointer.
abbrev pub thread_size : ℕ
thread_size = 8

abbrev pub new_group : Group
new_group = record {
  threads = [];
  capacity = 0;
  block_bytes = 0;
  cancelled = false;
  accepting = true;
  waited = false;
}

-- A NULL reference is none, and a group that is not initialized holds none.
unfoldable pub init_group : Bool → Option (Option Group) → Status × Option (Option Group)
init_group impl_given none = (invalid_argument, none)
init_group impl_given (some (some group)) = (invalid_argument, some (some group))
init_group impl_given (some none) =
    if impl_given then (ok, some (some new_group)) else (out_of_memory, some none)

-- What realloc of so many bytes does to a group, and whether it answers a pointer. It leaves the old block
-- where it fails, but for 0 bytes it frees it, whatever it answers.
abbrev pub realloc_threads : (ℕ → Bool) → ℕ → Group → Bool × Group
realloc_threads realloc_given bytes group =
    if bytes == 0
    then (realloc_given bytes, record group { block_bytes = 0 })
    else if realloc_given bytes
    then (true, record group { block_bytes = bytes })
    else (false, group)

-- `lor_concurrency__task_group_reserve`
unfoldable pub reserve_threads : (ℕ → Bool) → ℕ → Group → Status × Group
unfolding double_until mul_size
reserve_threads realloc_given wanted group =
    let grown = double_until 64 (if group.capacity == 0 then 4 else group.capacity) wanted in
    let (given, left) = realloc_threads realloc_given (mul_size grown thread_size) group in
    if leb wanted group.capacity
    then (ok, group)
    else if ltb (size_max / thread_size) wanted
    then (overflow, group)
    else if given
    then (ok, record left { capacity = grown })
    else (out_of_memory, left)

-- The part of `spawn` that starts the thread.
abbrev pub start_thread : SpawnSystem → Status × Group → Status × Group
start_thread system (ok, group) =
    if not system.start_given then (out_of_memory, group) else elim (system.thread_started) [
      | ok ↦ (ok, record group { threads = group.threads ++ (some system.thread_handle ∷ []) })
      | failed ↦ (failed, group)
    ]
start_thread system (status, group) = (status, group)

-- `has_function` is false where the function is NULL.
unfoldable pub spawn_task : SpawnSystem → Bool → Option Group → Status × Option Group
unfolding reserve_threads
spawn_task system has_function none = (invalid_argument, none)
spawn_task system has_function (some group) =
    let (status, left) =
      start_thread system (reserve_threads system.realloc_given (length group.threads + 1) group) in
    if not has_function
    then (invalid_argument, some group)
    else if not group.accepting || group.cancelled
    then (closed, some group)
    else (status, some left)

unfoldable pub cancel_group : Option Group → Option Group
cancel_group none = none
cancel_group (some group) = some (record group { accepting = false; cancelled = true })

abbrev pub group_cancelled : Option Group → Bool
group_cancelled none = true
group_cancelled (some group) = group.cancelled

-- `lor_task_cancelled` of a context, which holds the group.
abbrev pub task_cancelled : Option (Option Group) → Bool
task_cancelled none = true
task_cancelled (some state) = group_cancelled state

-- `joins` says of a handle whether pthread_join succeeds.
abbrev pub thread_join : (ℕ → Bool) → Thread → Status × Thread
thread_join joins none = (invalid_argument, none)
thread_join joins (some handle) = if joins handle then (ok, none) else (system_error, some handle)

-- The loop that joins: its result is the first failure.
unfoldable pub join_all : (ℕ → Bool) → Status → List Thread → Status × List Thread
join_all joins result [] = (result, [])
join_all joins result (none ∷ threads) =
    let rest = join_all joins result threads in (rest.0, none ∷ rest.1)
join_all joins result (some handle ∷ threads) =
    let (status, thread) = thread_join joins (some handle) in
    let kept : Status = elim result [ ok ↦ status | failed ↦ failed ] in
    let rest = join_all joins kept threads in (rest.0, thread ∷ rest.1)

-- Whether every thread is joined.
abbrev pub none_left : List Thread → Bool
none_left [] = true
none_left (none ∷ threads) = none_left threads
none_left (some handle ∷ threads) = false

abbrev pub wait_in : (ℕ → Bool) → Group → Status × Group
wait_in joins group =
    let (result, threads) = join_all joins ok group.threads in
    if group.waited
    then (ok, record group { accepting = false })
    else (result, record group { threads = threads; accepting = false; waited = none_left threads })

unfoldable pub wait_group : (ℕ → Bool) → Option Group → Status × Option Group
unfolding join_all
wait_group joins none = (invalid_argument, none)
wait_group joins (some group) = let (status, left) = wait_in joins group in (status, some left)

-- A group of which a thread cannot be joined is kept.
abbrev pub free_group : Group → Option Group
free_group group = if group.waited then none else some group

unfoldable pub deinit_group : (ℕ → Bool) → Option Group → Option Group
unfolding join_all
deinit_group joins none = none
deinit_group joins (some group) =
    free_group (wait_in joins (record group { accepting = false; cancelled = true })).1
