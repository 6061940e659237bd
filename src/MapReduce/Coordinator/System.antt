-- ===== src/MapReduce/Coordinator/System.antt =====
-- The coordinator with its concurrent handlers: RPC handlers that stand between their two critical
-- sections, and `waitForTask` goroutines that have not fired. An event is one critical section; a
-- list of events is an interleaving.
pub mod Watchers
pub mod Guarded
pub mod Events
pub mod Runs
pub mod Refinement
pub mod Contract
mod Examples
use tda596_distributed_syste.Prelude.{
  ℕ, ◌+◌, ◌==◌, if◌then◌else◌, Bool, true, false, Option, none, some, List, [], ◌∷◌, get_elem?,
  remove_at, count_if,
}
use tda596_distributed_syste.Prelude.Int.{ℤ}
use tda596_distributed_syste.MapReduce.Coordinator.{
  TaskRef, map_ref, reduce_ref, own, Coordinator, CompleteTaskArgs, Outcome, ok, panic, ◌>>=◌,
  select_task, assign_task, complete_task, wait_for_task, needs_timer,
}

pub record System : Type 0 where
  pub coord : Coordinator
  -- Handlers of `RequestTask` that have selected a task for a worker and not written to it yet.
  pub selected : List (TaskRef × ℤ)
  -- Goroutines of `waitForTask`.
  pub timers : List TaskRef

pub data Event : Type 0 where
  -- A worker calls `RequestTask`, which selects a task.
  request : ℤ → Event
  -- The handler at this position goes on to its second critical section.
  answer : ℕ → Event
  complete : CompleteTaskArgs → Event
  -- The goroutine at this position wakes up.
  expire : ℕ → Event

answer_with : System → ℕ → TaskRef → ℤ → Outcome System
answer_with s k r w = assign_task s.coord r w >>= λ (c', reply). ok (record {
  coord = c';
  selected = remove_at s.selected k;
  timers = if needs_timer reply.task_type then r ∷ s.timers else s.timers;
})

expire_with : System → ℕ → TaskRef → Outcome System
expire_with s k r =
    wait_for_task s.coord r >>= λ c'. ok (record s { coord = c'; timers = remove_at s.timers k })

-- A position where no handler or goroutine stands changes nothing.
pub step : System → Event → Outcome System
unfolding answer_with expire_with
step s (request w) =
    select_task s.coord >>= λ (c', r). ok (record s { coord = c'; selected = (r, w) ∷ s.selected })
step s (answer k) = elim (get_elem? s.selected k) [
  | none ↦ ok s
  | some (r, w) ↦ answer_with s k r w
]
step s (complete a) = complete_task s.coord a >>= λ (c', _). ok (record s { coord = c' })
step s (expire k) = elim (get_elem? s.timers k) [ none ↦ ok s | some r ↦ expire_with s k r ]

pub run : System → List Event → Outcome System
run s [] = ok s
run s (e ∷ es) = step s e >>= λ s'. run s' es

abbrev pub start : Coordinator → System
start c = record { coord = c; selected = []; timers = [] }
