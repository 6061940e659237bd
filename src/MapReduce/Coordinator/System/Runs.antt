-- ===== src/MapReduce/Coordinator/System/Runs.antt =====
-- What holds after every interleaving of the coordinator's critical sections.
use tda596_distributed_syste.Prelude.{
  ℕ, ◌≡◌, refl, List, [], ◌∷◌, String, length, count_if, count_if_pos, arith,
}
use tda596_distributed_syste.MapReduce.Coordinator.{
  Task, Coordinator, Outcome, ok, panic, ◌>>=◌, make_coordinator,
}
use tda596_distributed_syste.MapReduce.Coordinator.Invariant.{IsValid, has_started}
use tda596_distributed_syste.MapReduce.Coordinator.Safety.{Returns}
use tda596_distributed_syste.MapReduce.Coordinator.Completion.{
  make_coordinator-IsValid, make_coordinator_fresh,
}
use tda596_distributed_syste.MapReduce.Coordinator.System.{System, Event, step, run, start}
use tda596_distributed_syste.MapReduce.Coordinator.System.Watchers.{Watched}
use tda596_distributed_syste.MapReduce.Coordinator.System.Guarded.{All, Guarded, EventWithin}
use tda596_distributed_syste.MapReduce.Coordinator.System.Events.{step-Guarded}

after_step :
    (m n : ℕ) (es : List Event) (r : Outcome System)
    → ((s : System) → Guarded m n s → Returns (Guarded m n) (run s es))
    → Returns (Guarded m n) r
    → Returns (Guarded m n) (r >>= λ s. run s es)
after_step m n es panic k h = elim h [ ]
after_step m n es (ok s) k h = k s h

pub run-Guarded_from :
    (m n : ℕ) (s : System) (es : List Event)
    → Guarded m n s
    → All (EventWithin m n) es
    → Returns (Guarded m n) (run s es)
unfolding run
run-Guarded_from m n s [] g h = g
run-Guarded_from m n s (e ∷ es) g h =
    after_step m n es (step s e) (λ s' g'. run-Guarded_from m n s' es g' h.1)
      (step-Guarded m n s e g h.0)

unwatched : (ts : List Task) → count_if has_started ts ≡ 0 → Watched (λ _. 0) ts
unwatched ts h i t e = ground (arith, count_if_pos has_started ts i t e)

pub start-Guarded :
    (c : Coordinator)
    → IsValid c
    → (count_if has_started c.map_tasks ≡ 0) × (count_if has_started c.reduce_tasks ≡ 0)
    → Guarded (length c.map_tasks) (length c.reduce_tasks) (start c)
start-Guarded c h fresh = record {
  valid = h;
  map_size = refl;
  reduce_size = refl;
  selected_within = tt;
  timers_within = tt;
  maps_watched = unwatched c.map_tasks fresh.0;
  reduces_watched = unwatched c.reduce_tasks fresh.1;
}

-- The system that `MakeCoordinator` starts.
abbrev pub launched : List String → List String → ℕ → String → System
launched cloud_files files n_reduce position =
    start (make_coordinator cloud_files files n_reduce position)

-- The ids in the completion reports are within the slices of the system's coordinator.
abbrev pub EventsWithin : System → List Event → Type 0
EventsWithin s es = All (EventWithin (length s.coord.map_tasks) (length s.coord.reduce_tasks)) es

-- From a new coordinator, every interleaving of requests, answers, completion reports with ids in
-- range and time-outs runs without a panic, and ends in a valid state in which each task in progress
-- has exactly one handler or goroutine that will still touch it, a task that is not started has
-- none, and a completed one at most one.
pub run-Guarded :
    (cloud_files files : List String) (n_reduce : ℕ) (position : String) (es : List Event)
    → EventsWithin (launched cloud_files files n_reduce position) es
    → Returns
        (Guarded
          (length (launched cloud_files files n_reduce position).coord.map_tasks)
          (length (launched cloud_files files n_reduce position).coord.reduce_tasks))
        (run (launched cloud_files files n_reduce position) es)
run-Guarded cloud_files files n_reduce position es h =
    let c = make_coordinator cloud_files files n_reduce position in
    run-Guarded_from (length c.map_tasks) (length c.reduce_tasks) (start c) es
      (start-Guarded c (make_coordinator-IsValid cloud_files files n_reduce position)
        (make_coordinator_fresh cloud_files files n_reduce position))
      h
