-- ===== src/MapReduce/Coordinator/Safety.antt =====
-- The invariant and panics, for each critical section of the coordinator.
use tda596_distributed_syste.Prelude.{
  ℕ, ◌<◌, ◌≡◌, refl, ◌∙◌, ◌⊎◌, inl, inr, true, false, some, List, length, get_elem?,
  get_elem?_of_lt, set, length-set, lt-length_of_get_elem?, count_if_pos, Bool-cases,
  count_if_of_all, arith,
}
use tda596_distributed_syste.Prelude.Int.{ℤ, pos}
use tda596_distributed_syste.MapReduce.Coordinator.{
  TaskType, map_task, reduce_task, no_task, exit_task, Task, Coordinator, TaskRef, map_ref,
  reduce_ref, own, Outcome, ok, panic, idle_task, dispatched, select_task, assign_task,
  wait_for_task, reset_task, index_slice,
}
use tda596_distributed_syste.MapReduce.Coordinator.Invariant.{
  IsValid, IsTable, IsTable-get, has_completed, has_started, map_write-IsValid,
  reduce_write-IsValid,
}
use tda596_distributed_syste.MapReduce.Coordinator.Handlers.{
  Selects, AllCompleted, select_task-Selects,
}

-- The code returns, and its result satisfies `P`.
abbrev pub Returns {ℓ} : {A : Type ℓ} → (A → Type 0) → Outcome A → Type 0
Returns P (ok a) = P a
Returns P panic = ⊥

-- A pointer into the slices of the coordinator, or to an idle task of its own.
abbrev pub RefIn : Coordinator → TaskRef → Type 0
RefIn c (map_ref i) = i < length c.map_tasks
RefIn c (reduce_ref i) = i < length c.reduce_tasks
RefIn c (own t) = (t ≡ idle_task no_task) ⊎ (t ≡ idle_task exit_task)

-- A task's new value in the slice of map tasks, with the counter as it was.
pub map_update :
    (c : Coordinator) (i : ℕ) (t v : Task)
    → IsValid c
    → get_elem? c.map_tasks i ≡ some t
    → v.type ≡ t.type
    → v.index ≡ pos i
    → has_completed v ≡ has_completed t
    → IsValid (record c { map_tasks = set c.map_tasks i v })
map_update c i t v h e et ei es =
    map_write-IsValid c i t v c.n_map_completed h e
      (et ∙ (IsTable-get map_task 0 c.map_tasks i t h.map_table e).0) ei (ground arith)
      (λ was. es ∙ was)

pub reduce_update :
    (c : Coordinator) (i : ℕ) (t v : Task)
    → IsValid c
    → get_elem? c.reduce_tasks i ≡ some t
    → v.type ≡ t.type
    → v.index ≡ pos i
    → has_completed v ≡ has_completed t
    → (c.n_map_completed ≡ c.n_map) ⊎ (has_started v ≡ false)
    → IsValid (record c { reduce_tasks = set c.reduce_tasks i v })
reduce_update c i t v h e et ei es ready =
    reduce_write-IsValid c i t v c.n_reduce_completed h e
      (et ∙ (IsTable-get reduce_task 0 c.reduce_tasks i t h.reduce_table e).0) ei (ground arith)
      ready

-- A reduce task that has started shows that the map phase is over.
pub maps_over :
    (c : Coordinator) (i : ℕ) (t : Task)
    → IsValid c
    → get_elem? c.reduce_tasks i ≡ some t
    → has_started t ≡ true
    → c.n_map_completed ≡ c.n_map
maps_over c i t h e started =
    omega (arith, h.phase, count_if_pos has_started c.reduce_tasks i t e started)

pub ready :
    (c : Coordinator) (i : ℕ) (t : Task)
    → IsValid c
    → get_elem? c.reduce_tasks i ≡ some t
    → (c.n_map_completed ≡ c.n_map) ⊎ (has_started t ≡ false)
ready c i t h e = elim (Bool-cases (has_started t)) [
  | inl started ↦ inl (maps_over c i t h e started)
  | inr fresh ↦ inr fresh
]

abbrev pub After : Coordinator × TaskRef → Type 0
After (c, r) = IsValid c × RefIn c r

pub full_of_all :
    (c : Coordinator) → IsValid c → AllCompleted c.map_tasks → c.n_map_completed ≡ c.n_map
full_of_all c h all = h.map_count ∙ count_if_of_all has_completed c.map_tasks all ∙ h.map_length

pub Selects-After :
    (c : Coordinator) (r : Outcome (Coordinator × TaskRef))
    → IsValid c
    → Selects c r
    → Returns After r
Selects-After c panic h s = elim s [ ]
Selects-After c (ok (c', map_ref i)) h (t, (e, fresh, _), same) = rw same (
  map_update c i t (dispatched i t) h e refl refl (ground arith),
  omega
      (arith, length-set c.map_tasks i (dispatched i t), lt-length_of_get_elem? c.map_tasks i t e),
)
Selects-After c (ok (c', reduce_ref i)) h (t, all, (e, fresh, _), same) = rw same (
  reduce_update c i t (dispatched i t) h e refl refl (ground arith) (inl (full_of_all c h all)),
  omega (
    arith,
    length-set c.reduce_tasks i (dispatched i t),
    lt-length_of_get_elem? c.reduce_tasks i t e,
  ),
)
Selects-After c (ok (c', own t)) h (same, _, which) = (rw same h, ground arith)

-- In a valid state `selectTask` returns a pointer into the slices or an idle task, and leaves a
-- valid state.
pub select_task-IsValid : (c : Coordinator) → IsValid c → Returns After (select_task c)
select_task-IsValid c h = Selects-After c (select_task c) h (select_task-Selects c h)

pub index_kept :
    (k : TaskType) (ts : List Task) (i : ℕ) (t : Task)
    → IsTable k 0 ts
    → get_elem? ts i ≡ some t
    → t.index ≡ pos i
index_kept k ts i t h e = ground (arith, IsTable-get k 0 ts i t h e)

pub assign_task-IsValid :
    (c : Coordinator) (r : TaskRef) (w : ℤ)
    → IsValid c
    → RefIn c r
    → Returns (λ (c', _). IsValid c') (assign_task c r w)
unfolding assign_task
assign_task-IsValid c (map_ref i) w h inside =
    let (t, e) = get_elem?_of_lt c.map_tasks i inside in
    rw (e, index_slice)
      (map_update c i t (record t { worker_id = w }) h e refl
        (index_kept map_task c.map_tasks i t h.map_table e) refl)
assign_task-IsValid c (reduce_ref i) w h inside =
    let (t, e) = get_elem?_of_lt c.reduce_tasks i inside in
    rw (e, index_slice)
      (reduce_update c i t (record t { worker_id = w }) h e refl
        (index_kept reduce_task c.reduce_tasks i t h.reduce_table e) refl (ready c i t h e))
assign_task-IsValid c (own t) w h inside = h

pub wait_for_task-IsValid :
    (c : Coordinator) (r : TaskRef) → IsValid c → RefIn c r → Returns IsValid (wait_for_task c r)
unfolding wait_for_task
wait_for_task-IsValid c (map_ref i) h inside =
    let (t, e) = get_elem?_of_lt c.map_tasks i inside in
    rw (e, index_slice)
      (map_update c i t (reset_task t) h e (ground arith)
        (ground (arith, index_kept map_task c.map_tasks i t h.map_table e)) (ground arith))
wait_for_task-IsValid c (reduce_ref i) h inside =
    let (t, e) = get_elem?_of_lt c.reduce_tasks i inside in
    rw (e, index_slice)
      (reduce_update c i t (reset_task t) h e (ground arith)
        (ground (arith, index_kept reduce_task c.reduce_tasks i t h.reduce_table e)) (ground arith)
        (ground (arith, ready c i t h e)))
wait_for_task-IsValid c (own t) h inside = h
