-- ===== src/TaskGroup/Spawning.antt =====
-- src/concurrency.c: adding a task to a group.
use liblor.Common.{
  ltb, leb, ◌==◌, if◌then◌else◌, Bool-cases, length, length-append, size_max, mul_size,
  mul_size_exact, double_until, double_until_enough, double_until_bounds, ℕ, ◌+◌, ◌*◌, ◌/◌, ◌^◌,
  ◌≤◌, ◌<◌, max, ◌≡◌, refl, ap, ◌≢◌, inl, inr, Bool, true, false, not, ◌||◌, Option, some, List, [],
  ◌∷◌, ◌++◌, arith,
}
use liblor.Status.{
  Status, ok, invalid_argument, out_of_memory, overflow, system_error, timed_out, closed,
}
use liblor.TaskGroup.{
  Thread, Group, SpawnSystem, thread_size, reserve_threads, start_thread, spawn_task,
}

-- The threads of a group fit its capacity, and that fits the block.
pub record HasRoom (group : Group) : Type 0 where
  pub fits : length group.threads ≤ group.capacity
  pub inside : group.capacity * thread_size ≤ group.block_bytes

-- What a spawn does to such a group.
pub record Spawns (system : SpawnSystem) (group : Group) (out : Status × Option Group)
    : Type 0 where
  pub left : Group
  pub left_is : out.1 ≡ some left
  pub room : HasRoom left
  pub adds :
      out.0 ≡ ok
      → (left.threads ≡ group.threads ++ (some system.thread_handle ∷ []))
        × (group.accepting ≡ true)
        × (group.cancelled ≡ false)
  pub keeps : out.0 ≢ ok → left.threads ≡ group.threads

-- The capacity and the block after a reservation.
record Reserves (group : Group) (wanted : ℕ) (out : Status × Group) : Type 0 where
  same : out.1.threads ≡ group.threads
  room : HasRoom out.1
  enough : out.0 ≡ ok → wanted ≤ out.1.capacity

-- The doubled capacity's bytes fit `size_t`, and are some.
grown_bytes :
    (capacity wanted : ℕ)
    → capacity < wanted
    → wanted < 2 ^ 60
    → let grown = double_until 64 (if capacity == 0 then 4 else capacity) wanted in
      (capacity ≤ grown)
      × (wanted ≤ grown)
      × (mul_size grown thread_size ≡ grown * thread_size)
      × (mul_size grown thread_size == 0 ≡ false)
grown_bytes capacity wanted short small =
    let start : ℕ = if capacity == 0 then 4 else capacity in
    let first : (capacity ≤ start) × (start ≤ max 4 capacity) × (0 < start) = ground arith in
    let (above, most, _) = double_until_bounds 64 start wanted (omega arith) in
    let enough = double_until_enough 64 start wanted (omega arith) (omega (arith, first)) in
    let exact = mul_size_exact (double_until 64 start wanted) thread_size (omega (arith, first)) in
    (omega (arith, first), enough, exact, (ground (arith, exact, enough)))

reserve_threads_lem :
    (realloc_given : ℕ → Bool) (wanted : ℕ) (group : Group)
    → wanted < 2 ^ 60
    → HasRoom group
    → Reserves group wanted (reserve_threads realloc_given wanted group)
unfolding reserve_threads
reserve_threads_lem realloc_given wanted group small has =
    let start : ℕ = if group.capacity == 0 then 4 else group.capacity in
    let grown = double_until 64 start wanted in
    elim (Bool-cases (leb wanted group.capacity)) [
      | inl room ↦
          rw (reserve_threads, room)
            (record { same = refl; room = has; enough = λ _. ground arith })
      | inr short ↦
          let (more, enough, exact, some_bytes) =
            grown_bytes group.capacity wanted (ground arith) small in
          let in_range : ltb (size_max / thread_size) wanted ≡ false = ground arith in
          elim (Bool-cases (realloc_given (mul_size grown thread_size))) [
            | inl given ↦
                rw (reserve_threads, short, in_range, some_bytes, given)
                  (record {
                    same = refl;
                    room = record { fits = omega (arith, has.fits); inside = omega (arith, exact) };
                    enough = λ _. enough;
                  })
            | inr failed ↦
                rw (reserve_threads, short, in_range, some_bytes, failed)
                  (record { same = refl; room = has; enough = λ e. absurd (cc) })
          ]
    ]

unspawned :
    (system : SpawnSystem) (group left : Group) (status : Status)
    → status ≢ ok
    → left.threads ≡ group.threads
    → HasRoom left
    → Spawns system group (status, some left)
unspawned system group left status bad same room = record {
  left = left;
  left_is = refl;
  room = room;
  adds = λ e. absurd (bad e);
  keeps = λ _. same;
}

-- A thread that is started stands behind those that are there.
started :
    (system : SpawnSystem) (group left : Group)
    → group.accepting ≡ true
    → group.cancelled ≡ false
    → left.threads ≡ group.threads
    → HasRoom left
    → length group.threads + 1 ≤ left.capacity
    → let more = left.threads ++ (some system.thread_handle ∷ []) in
      Spawns system group (ok, some (record left { threads = more }))
started system group left accepts live same room enough =
    let more = left.threads ++ (some system.thread_handle ∷ []) in
    record {
      left = record left { threads = more };
      left_is = refl;
      room = record {
        fits = omega (
          arith,
          enough,
          length-append left.threads (some system.thread_handle ∷ []),
          ap length same,
        );
        inside = room.inside;
      };
      adds = λ _.
          (ap (λ (l : List Thread). l ++ (some system.thread_handle ∷ [])) same, accepts, live);
      keeps = λ bad. absurd (bad refl);
    }

start_thread_lem :
    (system : SpawnSystem) (group : Group) (out : Status × Group)
    → group.accepting ≡ true
    → group.cancelled ≡ false
    → Reserves group (length group.threads + 1) out
    → let (status, left) = start_thread system out in Spawns system group (status, some left)
start_thread_lem system group (ok, left) accepts live r = elim (Bool-cases (system.start_given)) [
  | inr failed ↦ simp failed (unspawned system group left out_of_memory (λ e. cc) r.same r.room)
  | inl given ↦ simp given (by_status system.thread_started)
]
  where
    not_started : (status : Status) → status ≢ ok → Spawns system group (status, some left)
    not_started status bad = unspawned system group left status bad r.same r.room

    by_status :
        (status : Status)
        → let (s, g) : Status × Group = (elim status [
          | ok ↦ (ok, record left { threads = left.threads ++ (some system.thread_handle ∷ []) })
          | failed ↦ (failed, left)
        ]) in
          Spawns system group (s, some g)
    by_status ok = started system group left accepts live r.same r.room (r.enough refl)
    by_status invalid_argument = not_started _ (λ e. cc)
    by_status out_of_memory = not_started _ (λ e. cc)
    by_status overflow = not_started _ (λ e. cc)
    by_status system_error = not_started _ (λ e. cc)
    by_status timed_out = not_started _ (λ e. cc)
    by_status closed = not_started _ (λ e. cc)
start_thread_lem system group (invalid_argument, left) accepts live r =
    unspawned system group left _ (λ e. cc) r.same r.room
start_thread_lem system group (out_of_memory, left) accepts live r =
    unspawned system group left _ (λ e. cc) r.same r.room
start_thread_lem system group (overflow, left) accepts live r =
    unspawned system group left _ (λ e. cc) r.same r.room
start_thread_lem system group (system_error, left) accepts live r =
    unspawned system group left _ (λ e. cc) r.same r.room
start_thread_lem system group (timed_out, left) accepts live r =
    unspawned system group left _ (λ e. cc) r.same r.room
start_thread_lem system group (closed, left) accepts live r =
    unspawned system group left _ (λ e. cc) r.same r.room

abbrev spawned : SpawnSystem → Group → Status × Option Group
spawned system group =
    let (status, left) =
      start_thread system (reserve_threads system.realloc_given (length group.threads + 1) group) in
    (status, some left)

spawn_task-step :
    (system : SpawnSystem) (group : Group)
    → spawn_task system true (some group) ≡ (
        if not group.accepting || group.cancelled
        then (closed, some group)
        else spawned system group)
unfolding spawn_task
spawn_task-step system group = refl

spawn_task_without_function :
    (system : SpawnSystem) (group : Group)
    → spawn_task system false (some group) ≡ (invalid_argument, some group)
unfolding spawn_task
spawn_task_without_function system group = refl

-- A spawn of fewer than 2^60 threads with the new one, from a group whose threads fit its capacity
-- and whose capacity fits its block, leaves such a group, whichever of its calls fail. On success the
-- group accepted tasks, was not cancelled and has the new thread at the end; a spawn that fails
-- leaves the threads as they were.
pub spawn_task_lem :
    (system : SpawnSystem) (has_function : Bool) (group : Group)
    → length group.threads + 1 < 2 ^ 60
    → HasRoom group
    → Spawns system group (spawn_task system has_function (some group))
spawn_task_lem system false group small room =
    rw (spawn_task_without_function system group)
      (unspawned system group group invalid_argument (λ e. cc) refl room)
spawn_task_lem system true group small room =
    rw (spawn_task-step system group) (guarded group.accepting group.cancelled refl refl)
  where
    guarded :
        (accepts over : Bool)
        → group.accepting ≡ accepts
        → group.cancelled ≡ over
        → Spawns system group
            (if not accepts || over then (closed, some group) else spawned system group)
    guarded false over a c = unspawned system group group closed (λ e. cc) refl room
    guarded true true a c = unspawned system group group closed (λ e. cc) refl room
    guarded true false a c =
        start_thread_lem system group
          (reserve_threads system.realloc_given (length group.threads + 1) group) a c
          (reserve_threads_lem system.realloc_given (length group.threads + 1) group small room)
