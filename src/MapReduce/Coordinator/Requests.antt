-- ===== src/MapReduce/Coordinator/Requests.antt =====
-- `RequestTask` when nothing comes between its two critical sections.
use tda596_distributed_syste.Prelude.{
  ℕ, ◌≡◌, ap, ◌⊎◌, inl, inr, false, set, set-set, get_elem?-set_self, lt-length_of_get_elem?, List,
  [], ◌∷◌, if◌then◌else◌, refl,
}
use tda596_distributed_syste.Prelude.Int.{ℤ, pos}
use tda596_distributed_syste.MapReduce.Coordinator.{
  map_task, reduce_task, no_task, exit_task, in_progress, Task, Coordinator, RequestTaskReply,
  TaskRef, map_ref, reduce_ref, own, Outcome, ok, panic, ◌>>=◌, request_task, started_timers,
  needs_timer, done, select_task, dispatched, index_slice, assign_task, reply_of, idle_task,
}
use tda596_distributed_syste.MapReduce.Coordinator.Invariant.{IsValid, IsTable-get}
use tda596_distributed_syste.MapReduce.Coordinator.Handlers.{
  Selects, IsFirst, AllCompleted, NoneFresh, select_task-Selects,
}

-- The task once it is in progress at a worker.
abbrev pub claimed : ℕ → Task → ℤ → Task
claimed i t w = record t { status = in_progress; index = pos i; worker_id = w }

abbrev pub map_claimed : Coordinator → ℕ → Task → ℤ → Coordinator
map_claimed c i t w = record c { map_tasks = set c.map_tasks i (claimed i t w) }

abbrev pub reduce_claimed : Coordinator → ℕ → Task → ℤ → Coordinator
reduce_claimed c i t w = record c { reduce_tasks = set c.reduce_tasks i (claimed i t w) }

abbrev pub GrantsMap : Coordinator → ℤ → Coordinator → RequestTaskReply → List TaskRef → Type 0
GrantsMap c w c' r timers =
    (i : ℕ) × (t : Task) × IsFirst i t c.map_tasks
    × (c' ≡ map_claimed c i t w)
    × (r ≡ record { task_type = map_task; task_id = pos i; task_file = t.file })
    × (timers ≡ map_ref i ∷ [])

abbrev pub GrantsReduce : Coordinator → ℤ → Coordinator → RequestTaskReply → List TaskRef → Type 0
GrantsReduce c w c' r timers =
    (i : ℕ) × (t : Task) × AllCompleted c.map_tasks
    × IsFirst i t c.reduce_tasks
    × (c' ≡ reduce_claimed c i t w)
    × (r ≡ record { task_type = reduce_task; task_id = pos i; task_file = t.file })
    × (timers ≡ reduce_ref i ∷ [])

abbrev pub GrantsNone : Coordinator → Coordinator → RequestTaskReply → List TaskRef → Type 0
GrantsNone c c' r timers =
    (c' ≡ c)
    × (timers ≡ [])
    × NoneFresh c.map_tasks
    × (((r ≡ reply_of (idle_task exit_task))
          × AllCompleted c.map_tasks
          × AllCompleted c.reduce_tasks)
        ⊎ ((r ≡ reply_of (idle_task no_task))
            × (done c ≡ false)
            × (AllCompleted c.map_tasks → NoneFresh c.reduce_tasks)))

abbrev pub Grants :
    Coordinator → ℤ → Outcome (Coordinator × RequestTaskReply × List TaskRef) → Type 0
Grants c w panic = ⊥
Grants c w (ok (c', r, timers)) =
    GrantsMap c w c' r timers ⊎ GrantsReduce c w c' r timers ⊎ GrantsNone c c' r timers

-- The second critical section after the first, with the goroutine that it starts.
abbrev assigned :
    Coordinator → TaskRef → ℤ → Outcome (Coordinator × RequestTaskReply × List TaskRef)
assigned c r w = assign_task c r w >>= λ (c', reply). ok (c', reply, started_timers r reply)

assigned_map :
    (c c' : Coordinator) (i : ℕ) (t : Task) (w : ℤ)
    → IsValid c
    → IsFirst i t c.map_tasks
    → c' ≡ record c { map_tasks = set c.map_tasks i (dispatched i t) }
    → Grants c w (assigned c' (map_ref i) w)
unfolding assign_task
assigned_map c c' i t w h first same =
    let type = (IsTable-get map_task 0 c.map_tasks i t h.map_table first.0).0 in
    let found =
      get_elem?-set_self c.map_tasks i (dispatched i t)
        (lt-length_of_get_elem? c.map_tasks i t first.0) in
    rw same (
      rw (found, index_slice)
        (inl (
          i,
          t,
          first,
          ap (λ ts. record c { map_tasks = ts })
              (set-set c.map_tasks i (dispatched i t) (claimed i t w)),
          ap (λ k. record { task_type = k; task_id = pos i; task_file = t.file }) type,
          ap (λ k. if needs_timer k then map_ref i ∷ [] else []) type,
        )))

assigned_reduce :
    (c c' : Coordinator) (i : ℕ) (t : Task) (w : ℤ)
    → IsValid c
    → AllCompleted c.map_tasks
    → IsFirst i t c.reduce_tasks
    → c' ≡ record c { reduce_tasks = set c.reduce_tasks i (dispatched i t) }
    → Grants c w (assigned c' (reduce_ref i) w)
unfolding assign_task
assigned_reduce c c' i t w h all first same =
    let type = (IsTable-get reduce_task 0 c.reduce_tasks i t h.reduce_table first.0).0 in
    let found =
      get_elem?-set_self c.reduce_tasks i (dispatched i t)
        (lt-length_of_get_elem? c.reduce_tasks i t first.0) in
    rw same (
      rw (found, index_slice)
        (inr (
          inl (
            i,
            t,
            all,
            first,
            ap (λ ts. record c { reduce_tasks = ts })
                (set-set c.reduce_tasks i (dispatched i t) (claimed i t w)),
            ap (λ k. record { task_type = k; task_id = pos i; task_file = t.file }) type,
            ap (λ k. if needs_timer k then reduce_ref i ∷ [] else []) type,
          ))))

idle_reply :
    (c : Coordinator) (t : Task)
    → (((t ≡ idle_task exit_task) × AllCompleted c.map_tasks × AllCompleted c.reduce_tasks)
        ⊎ ((t ≡ idle_task no_task)
            × (done c ≡ false)
            × (AllCompleted c.map_tasks → NoneFresh c.reduce_tasks)))
    → ((reply_of t ≡ reply_of (idle_task exit_task))
        × AllCompleted c.map_tasks
        × AllCompleted c.reduce_tasks)
      ⊎ ((reply_of t ≡ reply_of (idle_task no_task))
          × (done c ≡ false)
          × (AllCompleted c.map_tasks → NoneFresh c.reduce_tasks))
idle_reply c t (inl (e, maps, reduces)) = inl (ap reply_of e, maps, reduces)
idle_reply c t (inr (e, unfinished, more)) = inr (ap reply_of e, unfinished, more)

no_timer :
    (c : Coordinator) (t : Task)
    → (((t ≡ idle_task exit_task) × AllCompleted c.map_tasks × AllCompleted c.reduce_tasks)
        ⊎ ((t ≡ idle_task no_task)
            × (done c ≡ false)
            × (AllCompleted c.map_tasks → NoneFresh c.reduce_tasks)))
    → started_timers (own t) (reply_of t) ≡ []
no_timer c t (inl (e, _, _)) = rw e refl
no_timer c t (inr (e, _, _)) = rw e refl

granted :
    (c : Coordinator) (w : ℤ) (r : Outcome (Coordinator × TaskRef))
    → IsValid c
    → Selects c r
    → Grants c w (r >>= λ (c', q). assigned c' q w)
granted c w panic h s = elim s [ ]
granted c w (ok (c', map_ref i)) h (t, first, same) = assigned_map c c' i t w h first same
granted c w (ok (c', reduce_ref i)) h (t, all, first, same) =
    assigned_reduce c c' i t w h all first same
granted c w (ok (c', own t)) h (same, none_fresh, which) =
    unfold assign_task in inr (inr (same, no_timer c t which, none_fresh, idle_reply c t which))

-- In a valid state `RequestTask` does not panic: it puts the first map task that is not started in
-- progress at the worker, hands it out and starts `waitForTask` for it; once every map task is
-- completed, it does the same with the first such reduce task; and otherwise it changes nothing,
-- starts nothing, and answers `ExitTask` if all tasks are completed, and `NoTask` if the job is not
-- done and no task can be handed out yet.
pub request_task-Grants : (c : Coordinator) (w : ℤ) → IsValid c → Grants c w (request_task c w)
unfolding request_task
request_task-Grants c w h = granted c w (select_task c) h (select_task-Selects c h)
