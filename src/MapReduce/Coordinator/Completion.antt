-- ===== src/MapReduce/Coordinator/Completion.antt =====
-- `CompleteTask` and `Done`.
use tda596_distributed_syste.Prelude.{
  ℕ, zero, suc, ◌+◌, ◌≤◌, ◌≡◌, ◌↔◌, ◌⊎◌, Option, refl, sym, ap, inl, inr, true, none, some, List,
  [], ◌∷◌, String, length, get_elem?, set, count_if, if◌then◌else◌, Bool-cases, count_if_of_all,
  all_of_count_if, arith,
}
use tda596_distributed_syste.Prelude.Int.{ℤ, pos}
use tda596_distributed_syste.MapReduce.Coordinator.{
  TaskType, map_task, reduce_task, no_task, exit_task, completed, Task, Coordinator, panic, done,
  map_tasks_from, reduce_tasks_from, make_coordinator, complete_task, complete_map, complete_reduce,
  index_slice, accepts, can_exit,
}
use tda596_distributed_syste.MapReduce.Coordinator.Invariant.{
  IsValid, IsTable, IsTable-get, has_completed, has_started, map_write-IsValid,
  reduce_write-IsValid,
}
use tda596_distributed_syste.MapReduce.Coordinator.Handlers.{AllCompleted}
use tda596_distributed_syste.MapReduce.Coordinator.Safety.{Returns, maps_over, index_kept}

abbrev pub map_counted : Coordinator → ℕ → Task → Coordinator
map_counted c i t = record c {
  map_tasks = set c.map_tasks i (record t { status = completed });
  n_map_completed = c.n_map_completed + 1;
}

abbrev pub reduce_counted : Coordinator → ℕ → Task → Coordinator
reduce_counted c i t = record c {
  reduce_tasks = set c.reduce_tasks i (record t { status = completed });
  n_reduce_completed = c.n_reduce_completed + 1;
}

can_exit-done : (c : Coordinator) → can_exit c ≡ done c
unfolding done
can_exit-done c = ground arith

map_step :
    (c : Coordinator) (i : ℕ) (t : Task) (w : ℤ)
    → IsValid c
    → get_elem? c.map_tasks i ≡ some t
    → accepts t w ≡ true
    → IsValid (map_counted c i t)
map_step c i t w h e acc =
    map_write-IsValid c i t (record t { status = completed }) (c.n_map_completed + 1) h e
      (IsTable-get map_task 0 c.map_tasks i t h.map_table e).0
      (index_kept map_task c.map_tasks i t h.map_table e) (ground arith) (λ _. refl)

-- In a valid state, `CompleteTask` for a map task with a valid id: a report by the worker that the task in progress is
-- assigned to marks the task and counts it, any other report changes nothing, and `CanExit` is what
-- `Done` then says. The state stays valid.
pub complete_task-map :
    (c : Coordinator) (i : ℕ) (t : Task) (w : ℤ)
    → IsValid c
    → get_elem? c.map_tasks i ≡ some t
    → Returns
        (λ (c', b).
          IsValid c' × (c' ≡ (if accepts t w then map_counted c i t else c)) × (b ≡ done c'))
        (complete_task c (record { task_type = map_task; task_id = pos i; worker_id = w }))
unfolding complete_task complete_map
complete_task-map c i t w h e = elim (Bool-cases (accepts t w)) [
  | inl acc ↦ rw (e, index_slice, acc) (map_step c i t w h e acc, refl, can_exit-done _)
  | inr rej ↦ rw (e, index_slice, rej) (h, refl, can_exit-done c)
]

reduce_step :
    (c : Coordinator) (i : ℕ) (t : Task) (w : ℤ)
    → IsValid c
    → get_elem? c.reduce_tasks i ≡ some t
    → accepts t w ≡ true
    → IsValid (reduce_counted c i t)
reduce_step c i t w h e acc =
    reduce_write-IsValid c i t (record t { status = completed }) (c.n_reduce_completed + 1) h e
      (IsTable-get reduce_task 0 c.reduce_tasks i t h.reduce_table e).0
      (index_kept reduce_task c.reduce_tasks i t h.reduce_table e) (ground arith)
      (inl (maps_over c i t h e (ground arith)))

-- In a valid state, `CompleteTask` for a reduce task with a valid id: a report by the worker that the task in progress is
-- assigned to marks the task and counts it, any other report changes nothing, and `CanExit` is what
-- `Done` then says. The state stays valid.
pub complete_task-reduce :
    (c : Coordinator) (i : ℕ) (t : Task) (w : ℤ)
    → IsValid c
    → get_elem? c.reduce_tasks i ≡ some t
    → Returns
        (λ (c', b).
          IsValid c' × (c' ≡ (if accepts t w then reduce_counted c i t else c)) × (b ≡ done c'))
        (complete_task c (record { task_type = reduce_task; task_id = pos i; worker_id = w }))
unfolding complete_task complete_reduce
complete_task-reduce c i t w h e = elim (Bool-cases (accepts t w)) [
  | inl acc ↦ rw (e, index_slice, acc) (reduce_step c i t w h e acc, refl, can_exit-done _)
  | inr rej ↦ rw (e, index_slice, rej) (h, refl, can_exit-done c)
]

out_of_range : (ts : List Task) (i : ℕ) → length ts ≤ i → get_elem? ts i ≡ none
out_of_range [] i h = refl
out_of_range (t ∷ ts) zero h = absurd (omega arith)
out_of_range (t ∷ ts) (suc i) h = out_of_range ts i (omega arith)

-- The slice of tasks of a type.
abbrev pub slice : Coordinator → TaskType → Option (List Task)
slice c map_task = some c.map_tasks
slice c reduce_task = some c.reduce_tasks
slice c _ = none

slice_cases :
    (c : Coordinator) (k : TaskType) (ts : List Task)
    → slice c k ≡ some ts
    → ((k ≡ map_task) × (ts ≡ c.map_tasks)) ⊎ ((k ≡ reduce_task) × (ts ≡ c.reduce_tasks))
slice_cases c map_task ts e = ground arith
slice_cases c reduce_task ts e = ground arith
slice_cases c no_task ts e = ground arith
slice_cases c exit_task ts e = ground arith

-- `CompleteTask` does not test the id: a report for a map or reduce task whose id is past the end of
-- its slice is a panic, in any state.
pub complete_task_past_end :
    (c : Coordinator) (k : TaskType) (ts : List Task) (i : ℕ) (w : ℤ)
    → slice c k ≡ some ts
    → length ts ≤ i
    → complete_task c (record { task_type = k; task_id = pos i; worker_id = w }) ≡ panic
unfolding complete_task complete_map complete_reduce
complete_task_past_end c k ts i w e h = elim (slice_cases c k ts e) [
  | inl (ek, et) ↦ rw (ek, out_of_range c.map_tasks i (ground arith), index_slice)
  | inr (ek, et) ↦ rw (ek, out_of_range c.reduce_tasks i (ground arith), index_slice)
]

-- In a valid state, `Done` says true exactly when every map task and every reduce task is completed.
pub done_iff :
    (c : Coordinator)
    → IsValid c
    → (done c ≡ true) ↔ (AllCompleted c.map_tasks × AllCompleted c.reduce_tasks)
unfolding done
done_iff c h = (
  λ d. (
    all_of_count_if has_completed c.map_tasks (ground (arith, h.map_count, h.map_length)),
    all_of_count_if has_completed c.reduce_tasks (ground (arith, h.reduce_count, h.reduce_length)),
  ),
  λ (maps, reduces). ground (
    arith,
    count_if_of_all has_completed c.map_tasks maps,
    count_if_of_all has_completed c.reduce_tasks reduces,
    h.map_count,
    h.map_length,
    h.reduce_count,
    h.reduce_length,
  ),
)

-- Every task of a fresh table is typed, numbered and not started.
map_tasks_from_lem :
    (i : ℕ) (fs : List String)
    → IsTable map_task i (map_tasks_from i fs)
      × (length (map_tasks_from i fs) ≡ length fs)
      × (count_if has_completed (map_tasks_from i fs) ≡ 0)
      × (count_if has_started (map_tasks_from i fs) ≡ 0)
unfolding map_tasks_from
map_tasks_from_lem i [] = (tt, refl, refl, refl)
map_tasks_from_lem i (f ∷ fs) =
    let (table, len, none_done, none_begun) = map_tasks_from_lem (suc i) fs in
    ((refl, refl, table), ap suc len, omega (arith, none_done), omega (arith, none_begun))

reduce_tasks_from_lem :
    (i n : ℕ)
    → IsTable reduce_task i (reduce_tasks_from i n)
      × (length (reduce_tasks_from i n) ≡ n)
      × (count_if has_completed (reduce_tasks_from i n) ≡ 0)
      × (count_if has_started (reduce_tasks_from i n) ≡ 0)
unfolding reduce_tasks_from
reduce_tasks_from_lem i zero = (tt, refl, refl, refl)
reduce_tasks_from_lem i (suc n) =
    let (table, len, none_done, none_begun) = reduce_tasks_from_lem (suc i) n in
    ((refl, refl, table), ap suc len, omega (arith, none_done), omega (arith, none_begun))

-- The coordinator that `MakeCoordinator` builds is valid, for any files and any number of reduce
-- tasks, local or in the cloud.
pub make_coordinator-IsValid :
    (cloud_files files : List String) (n_reduce : ℕ) (position : String)
    → IsValid (make_coordinator cloud_files files n_reduce position)
unfolding make_coordinator
make_coordinator-IsValid cloud_files files n_reduce position =
    let (maps, map_len, map_zero, _) = map_tasks_from_lem 0 _ in
    let (reduces, reduce_len, reduce_zero, none_begun) = reduce_tasks_from_lem 0 n_reduce in
    record {
      map_length = map_len;
      reduce_length = reduce_len;
      map_count = sym map_zero;
      reduce_count = sym reduce_zero;
      map_table = maps;
      reduce_table = reduces;
      phase = inr none_begun;
    }

-- A fresh coordinator has started no task.
pub make_coordinator_fresh :
    (cloud_files files : List String) (n_reduce : ℕ) (position : String)
    → let c = make_coordinator cloud_files files n_reduce position in
      (count_if has_started c.map_tasks ≡ 0) × (count_if has_started c.reduce_tasks ≡ 0)
unfolding make_coordinator
make_coordinator_fresh cloud_files files n_reduce position =
    ((map_tasks_from_lem 0 _).3, (reduce_tasks_from_lem 0 n_reduce).3)
