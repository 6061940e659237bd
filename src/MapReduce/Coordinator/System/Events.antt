-- ===== src/MapReduce/Coordinator/System/Events.antt =====
-- What each event does to the watchers of the tasks.
use mathlib.Core.Path.{subst}
use tda596_distributed_syste.Prelude.{
  ℕ, ◌+◌, ◌<◌, ◌≡◌, refl, sym, ap, ◌⊎◌, inl, inr, Bool, true, false, some, ◌∷◌, get_elem?,
  get_elem?_of_lt, remove_at, if◌then◌else◌, Bool-cases, Option-cases, lt-length_of_get_elem?,
  arith,
}
use tda596_distributed_syste.Prelude.Int.{ℤ}
use tda596_distributed_syste.MapReduce.Coordinator.{
  TaskType, map_task, reduce_task, no_task, exit_task, completed, Task, Coordinator, TaskRef,
  map_ref, reduce_ref, own, Outcome, ok, panic, ◌>>=◌, select_task, assign_task, complete_task,
  wait_for_task, CompleteTaskArgs, idle_task, dispatched, needs_timer, reset_task, accepts, done,
  index_slice,
}
use tda596_distributed_syste.MapReduce.Coordinator.Invariant.{IsValid, IsTable-get}
use tda596_distributed_syste.MapReduce.Coordinator.Handlers.{Selects, select_task-Selects}
use tda596_distributed_syste.MapReduce.Coordinator.Safety.{
  Returns, Selects-After, map_update, reduce_update, ready, index_kept,
}
use tda596_distributed_syste.MapReduce.Coordinator.Completion.{
  map_counted, reduce_counted, complete_task-map, complete_task-reduce,
}
use tda596_distributed_syste.MapReduce.Coordinator.System.{
  System, Event, request, answer, complete, expire, step, answer_with, expire_with,
}
use tda596_distributed_syste.MapReduce.Coordinator.System.Watchers.{
  WatchOk, watchers_moved, watchers_dropped, watchers_fired,
}
use tda596_distributed_syste.MapReduce.Coordinator.System.Guarded.{
  All-get, All-remove_at, RefWithin, Guarded, ArgsWithin, EventWithin, map_watchers,
  reduce_watchers, guard_map, guard_reduce, guard_same,
}

request-Guarded :
    (m n : ℕ) (s : System) (w : ℤ) (r : Outcome (Coordinator × TaskRef))
    → Guarded m n s
    → Selects s.coord r
    → Returns
        (Guarded m n)
        (r >>= λ (c', q). ok (record s { coord = c'; selected = (q, w) ∷ s.selected }))
request-Guarded m n s w panic g sel = elim sel [ ]
request-Guarded m n s w (ok (c', map_ref i)) g sel =
    let (valid, inside) = Selects-After s.coord (ok (c', map_ref i)) g.valid sel in
    let (t, (e, fresh, _), same) = sel in
    let was : map_watchers s.selected s.timers i ≡ 0 = ground (arith, g.maps_watched i t e) in
    let bound : i < m = omega (arith, lt-length_of_get_elem? s.coord.map_tasks i t e, g.map_size) in
    guard_map m n s c' ((map_ref i, w) ∷ s.selected) s.timers g valid (bound, g.selected_within)
      g.timers_within i (dispatched i t) (ap (λ c. c.map_tasks) same)
      (ap (λ c. c.reduce_tasks) same) (ground arith) (λ j ne. ground arith) (λ j. omega arith)
request-Guarded m n s w (ok (c', reduce_ref i)) g sel =
    let (valid, inside) = Selects-After s.coord (ok (c', reduce_ref i)) g.valid sel in
    let (t, _, (e, fresh, _), same) = sel in
    let was : reduce_watchers s.selected s.timers i ≡ 0 = ground (arith, g.reduces_watched i t e) in
    let bound : i < n =
      omega (arith, lt-length_of_get_elem? s.coord.reduce_tasks i t e, g.reduce_size) in
    guard_reduce m n s c' ((reduce_ref i, w) ∷ s.selected) s.timers g valid
      (bound, g.selected_within) g.timers_within i (dispatched i t) (ap (λ c. c.map_tasks) same)
      (ap (λ c. c.reduce_tasks) same) (ground arith) (λ j ne. ground arith) (λ j. omega arith)
request-Guarded m n s w (ok (c', own t)) g sel =
    let (valid, idle) = Selects-After s.coord (ok (c', own t)) g.valid sel in
    guard_same m n s c' ((own t, w) ∷ s.selected) s.timers g valid (idle, g.selected_within)
      g.timers_within sel.0 (λ j. omega arith) (λ j. omega arith)

answer_map :
    (m n : ℕ) (s : System) (k i : ℕ) (t : Task) (w : ℤ)
    → Guarded m n s
    → get_elem? s.selected k ≡ some (map_ref i, w)
    → get_elem? s.coord.map_tasks i ≡ some t
    → Returns (Guarded m n) (answer_with s k (map_ref i) w)
unfolding answer_with assign_task
answer_map m n s k i t w g e et =
    let within =
      All-get (λ (r, _). RefWithin m n r) s.selected k (map_ref i, w) g.selected_within e in
    let type = (IsTable-get map_task 0 s.coord.map_tasks i t g.valid.map_table et).0 in
    rw (et, index_slice, type)
      (guard_map m n s _ (remove_at s.selected k) (map_ref i ∷ s.timers) g
        (map_update s.coord i t (record t { type = map_task; worker_id = w }) g.valid et (sym type)
          (index_kept map_task s.coord.map_tasks i t g.valid.map_table et) refl)
        (All-remove_at (λ (r, _). RefWithin m n r) s.selected k g.selected_within)
        (within, g.timers_within) i (record t { type = map_task; worker_id = w }) refl refl
        (rw (watchers_moved (map_ref i) (map_ref i) w s.selected s.timers k e)
          (g.maps_watched i t et))
        (λ j _. watchers_moved (map_ref j) (map_ref i) w s.selected s.timers k e)
        (λ j. watchers_moved (reduce_ref j) (map_ref i) w s.selected s.timers k e))

answer_reduce :
    (m n : ℕ) (s : System) (k i : ℕ) (t : Task) (w : ℤ)
    → Guarded m n s
    → get_elem? s.selected k ≡ some (reduce_ref i, w)
    → get_elem? s.coord.reduce_tasks i ≡ some t
    → Returns (Guarded m n) (answer_with s k (reduce_ref i) w)
unfolding answer_with assign_task
answer_reduce m n s k i t w g e et =
    let within =
      All-get (λ (r, _). RefWithin m n r) s.selected k (reduce_ref i, w) g.selected_within e in
    let type = (IsTable-get reduce_task 0 s.coord.reduce_tasks i t g.valid.reduce_table et).0 in
    rw (et, index_slice, type)
      (guard_reduce m n s _ (remove_at s.selected k) (reduce_ref i ∷ s.timers) g
        (reduce_update s.coord i t (record t { type = reduce_task; worker_id = w }) g.valid et
          (sym type) (index_kept reduce_task s.coord.reduce_tasks i t g.valid.reduce_table et) refl
          (ready s.coord i t g.valid et))
        (All-remove_at (λ (r, _). RefWithin m n r) s.selected k g.selected_within)
        (within, g.timers_within) i (record t { type = reduce_task; worker_id = w }) refl refl
        (rw (watchers_moved (reduce_ref i) (reduce_ref i) w s.selected s.timers k e)
          (g.reduces_watched i t et))
        (λ j _. watchers_moved (reduce_ref j) (reduce_ref i) w s.selected s.timers k e)
        (λ j. watchers_moved (map_ref j) (reduce_ref i) w s.selected s.timers k e))

answer_own :
    (m n : ℕ) (s : System) (k : ℕ) (t : Task) (w : ℤ)
    → Guarded m n s
    → get_elem? s.selected k ≡ some (own t, w)
    → needs_timer t.type ≡ false
    → Returns (Guarded m n) (answer_with s k (own t) w)
unfolding answer_with assign_task
answer_own m n s k t w g e idle = rw idle (
    guard_same m n s s.coord (remove_at s.selected k) s.timers g g.valid
      (All-remove_at (λ (r, _). RefWithin m n r) s.selected k g.selected_within) g.timers_within
      refl (λ j. watchers_dropped (map_ref j) (own t) w s.selected s.timers k e refl)
      (λ j. watchers_dropped (reduce_ref j) (own t) w s.selected s.timers k e refl))

idle_needs_none :
    (t : Task) → (t ≡ idle_task no_task) ⊎ (t ≡ idle_task exit_task) → needs_timer t.type ≡ false
idle_needs_none t h = ground arith

answer-Guarded :
    (m n : ℕ) (s : System) (k : ℕ) (r : TaskRef) (w : ℤ)
    → Guarded m n s
    → get_elem? s.selected k ≡ some (r, w)
    → Returns (Guarded m n) (answer_with s k r w)
answer-Guarded m n s k (map_ref i) w g e =
    let within =
      All-get (λ (r, _). RefWithin m n r) s.selected k (map_ref i, w) g.selected_within e in
    let (t, et) = get_elem?_of_lt s.coord.map_tasks i (omega (arith, g.map_size)) in
    answer_map m n s k i t w g e et
answer-Guarded m n s k (reduce_ref i) w g e =
    let within =
      All-get (λ (r, _). RefWithin m n r) s.selected k (reduce_ref i, w) g.selected_within e in
    let (t, et) = get_elem?_of_lt s.coord.reduce_tasks i (omega (arith, g.reduce_size)) in
    answer_reduce m n s k i t w g e et
answer-Guarded m n s k (own t) w g e = answer_own m n s k t w g e (
    idle_needs_none t
      (All-get (λ (r, _). RefWithin m n r) s.selected k (own t, w) g.selected_within e))

fired :
    (t : Task) (before after : ℕ)
    → WatchOk t.status before
    → after + 1 ≡ before
    → WatchOk (reset_task t).status after
fired t before after h e = ground arith

expire_map :
    (m n : ℕ) (s : System) (k i : ℕ) (t : Task)
    → Guarded m n s
    → get_elem? s.timers k ≡ some (map_ref i)
    → get_elem? s.coord.map_tasks i ≡ some t
    → Returns (Guarded m n) (expire_with s k (map_ref i))
unfolding expire_with wait_for_task
expire_map m n s k i t g e et =
    rw (et, index_slice)
      (guard_map m n s _ s.selected (remove_at s.timers k) g
        (map_update s.coord i t (reset_task t) g.valid et (ground arith)
          (ground (arith, index_kept map_task s.coord.map_tasks i t g.valid.map_table et))
          (ground arith))
        g.selected_within (All-remove_at (RefWithin m n) s.timers k g.timers_within) i
        (reset_task t) refl refl
        (fired t (map_watchers s.selected s.timers i) _ (g.maps_watched i t et)
          (ground (arith, watchers_fired (map_ref i) (map_ref i) s.selected s.timers k e)))
        (λ j ne. ground (arith, watchers_fired (map_ref j) (map_ref i) s.selected s.timers k e))
        (λ j. omega (arith, watchers_fired (reduce_ref j) (map_ref i) s.selected s.timers k e)))

expire_reduce :
    (m n : ℕ) (s : System) (k i : ℕ) (t : Task)
    → Guarded m n s
    → get_elem? s.timers k ≡ some (reduce_ref i)
    → get_elem? s.coord.reduce_tasks i ≡ some t
    → Returns (Guarded m n) (expire_with s k (reduce_ref i))
unfolding expire_with wait_for_task
expire_reduce m n s k i t g e et =
    rw (et, index_slice)
      (guard_reduce m n s _ s.selected (remove_at s.timers k) g
        (reduce_update s.coord i t (reset_task t) g.valid et (ground arith)
          (ground (arith, index_kept reduce_task s.coord.reduce_tasks i t g.valid.reduce_table et))
          (ground arith) (ground (arith, ready s.coord i t g.valid et)))
        g.selected_within (All-remove_at (RefWithin m n) s.timers k g.timers_within) i
        (reset_task t) refl refl
        (fired t (reduce_watchers s.selected s.timers i) _ (g.reduces_watched i t et)
          (ground (arith, watchers_fired (reduce_ref i) (reduce_ref i) s.selected s.timers k e)))
        (λ j ne.
          ground (arith, watchers_fired (reduce_ref j) (reduce_ref i) s.selected s.timers k e))
        (λ j. omega (arith, watchers_fired (map_ref j) (reduce_ref i) s.selected s.timers k e)))

-- An accepted report keeps its goroutine, which will find the task completed.
counted : (t : Task) (w : ℤ) (n : ℕ) → accepts t w ≡ true → WatchOk t.status n → WatchOk completed n
counted t w n acc h = ground arith

complete_map-Guarded :
    (m n : ℕ) (s : System) (i : ℕ) (t : Task) (w : ℤ) (r : Outcome (Coordinator × Bool))
    → Guarded m n s
    → get_elem? s.coord.map_tasks i ≡ some t
    → Returns
        (λ (c', b).
          IsValid c'
          × (c' ≡ (if accepts t w then map_counted s.coord i t else s.coord))
          × (b ≡ done c'))
        r
    → Returns (Guarded m n) (r >>= λ (c', _). ok (record s { coord = c' }))
complete_map-Guarded m n s i t w panic g et p = elim p [ ]
complete_map-Guarded m n s i t w (ok (c', b)) g et (valid, same, _) =
    elim (Bool-cases (accepts t w)) [
      | inl acc ↦
          let counts : c' ≡ map_counted s.coord i t = rw acc at same in
          guard_map m n s c' s.selected s.timers g valid g.selected_within g.timers_within i
            (record t { status = completed }) (ap (λ c. c.map_tasks) counts)
            (ap (λ c. c.reduce_tasks) counts) (counted t w _ acc (g.maps_watched i t et))
            (λ j _. refl) (λ j. refl)
      | inr rej ↦
          guard_same m n s c' s.selected s.timers g valid g.selected_within g.timers_within
            (rw rej at same) (λ j. refl) (λ j. refl)
    ]

complete_reduce-Guarded :
    (m n : ℕ) (s : System) (i : ℕ) (t : Task) (w : ℤ) (r : Outcome (Coordinator × Bool))
    → Guarded m n s
    → get_elem? s.coord.reduce_tasks i ≡ some t
    → Returns
        (λ (c', b).
          IsValid c'
          × (c' ≡ (if accepts t w then reduce_counted s.coord i t else s.coord))
          × (b ≡ done c'))
        r
    → Returns (Guarded m n) (r >>= λ (c', _). ok (record s { coord = c' }))
complete_reduce-Guarded m n s i t w panic g et p = elim p [ ]
complete_reduce-Guarded m n s i t w (ok (c', b)) g et (valid, same, _) =
    elim (Bool-cases (accepts t w)) [
      | inl acc ↦
          let counts : c' ≡ reduce_counted s.coord i t = rw acc at same in
          guard_reduce m n s c' s.selected s.timers g valid g.selected_within g.timers_within i
            (record t { status = completed }) (ap (λ c. c.map_tasks) counts)
            (ap (λ c. c.reduce_tasks) counts) (counted t w _ acc (g.reduces_watched i t et))
            (λ j _. refl) (λ j. refl)
      | inr rej ↦
          guard_same m n s c' s.selected s.timers g valid g.selected_within g.timers_within
            (rw rej at same) (λ j. refl) (λ j. refl)
    ]

pub args_path :
    (a : CompleteTaskArgs) {k : TaskType} {i : ℤ}
    → a.task_type ≡ k
    → a.task_id ≡ i
    → record { task_type = k; task_id = i; worker_id = a.worker_id } ≡ a
args_path a ek ei = ground arith

complete-Guarded :
    (m n : ℕ) (s : System) (a : CompleteTaskArgs)
    → Guarded m n s
    → ArgsWithin m n a
    → Returns (Guarded m n) (step s (complete a))
unfolding step
complete-Guarded m n s a g (inl (i, ek, ei, bound)) =
    let (t, et) = get_elem?_of_lt s.coord.map_tasks i (omega (arith, g.map_size)) in
    subst (λ b. Returns (Guarded m n) (step s (complete b))) (args_path a ek ei)
      (complete_map-Guarded m n s i t a.worker_id _ g et
        (complete_task-map s.coord i t a.worker_id g.valid et))
complete-Guarded m n s a g (inr (inl (i, ek, ei, bound))) =
    let (t, et) = get_elem?_of_lt s.coord.reduce_tasks i (omega (arith, g.reduce_size)) in
    subst (λ b. Returns (Guarded m n) (step s (complete b))) (args_path a ek ei)
      (complete_reduce-Guarded m n s i t a.worker_id _ g et
        (complete_task-reduce s.coord i t a.worker_id g.valid et))
complete-Guarded m n s a g (inr (inr (inl ek))) =
    subst (λ b. Returns (Guarded m n) (step s (complete b))) (args_path a ek refl)
      (unfold complete_task in g)
complete-Guarded m n s a g (inr (inr (inr ek))) =
    subst (λ b. Returns (Guarded m n) (step s (complete b))) (args_path a ek refl)
      (unfold complete_task in g)

expire-Guarded :
    (m n : ℕ) (s : System) (k : ℕ) (r : TaskRef)
    → Guarded m n s
    → get_elem? s.timers k ≡ some r
    → Returns (Guarded m n) (expire_with s k r)
expire-Guarded m n s k (map_ref i) g e =
    let within = All-get (RefWithin m n) s.timers k (map_ref i) g.timers_within e in
    let (t, et) = get_elem?_of_lt s.coord.map_tasks i (omega (arith, g.map_size)) in
    expire_map m n s k i t g e et
expire-Guarded m n s k (reduce_ref i) g e =
    let within = All-get (RefWithin m n) s.timers k (reduce_ref i) g.timers_within e in
    let (t, et) = get_elem?_of_lt s.coord.reduce_tasks i (omega (arith, g.reduce_size)) in
    expire_reduce m n s k i t g e et
expire-Guarded m n s k (own t) g e =
    unfold expire_with wait_for_task in
    guard_same m n s s.coord s.selected (remove_at s.timers k) g g.valid g.selected_within
      (All-remove_at (RefWithin m n) s.timers k g.timers_within) refl
      (λ j. omega (arith, watchers_fired (map_ref j) (own t) s.selected s.timers k e))
      (λ j. omega (arith, watchers_fired (reduce_ref j) (own t) s.selected s.timers k e))

-- Any event with ids in range keeps the tables watched and does not panic.
pub step-Guarded :
    (m n : ℕ) (s : System) (e : Event)
    → Guarded m n s
    → EventWithin m n e
    → Returns (Guarded m n) (step s e)
unfolding step
step-Guarded m n s (request w) g h =
    request-Guarded m n s w (select_task s.coord) g (select_task-Selects s.coord g.valid)
step-Guarded m n s (answer k) g h = elim (Option-cases (get_elem? s.selected k)) [
  | inl e ↦ rw (e, step) g
  | inr ((r, w), e) ↦ rw (e, step) (answer-Guarded m n s k r w g e)
]
step-Guarded m n s (complete a) g h = complete-Guarded m n s a g h
step-Guarded m n s (expire k) g h = elim (Option-cases (get_elem? s.timers k)) [
  | inl e ↦ rw (e, step) g
  | inr (r, e) ↦ rw (e, step) (expire-Guarded m n s k r g e)
]
