-- ===== src/MapReduce/Coordinator/Handlers.antt =====
-- What each critical section of the coordinator does to a valid state, on every branch.
use tda596_distributed_syste.Prelude.{
  ℕ, ◌<◌, ◌==◌, ◌≡◌, refl, sym, ◌∙◌, ◌⊎◌, inl, inr, true, false, Option, none, some, List, length,
  get_elem?, set, count_if, lt-length_of_get_elem?, all_of_count_if, count_if_of_all, Bool-cases,
  arith,
}
use tda596_distributed_syste.MapReduce.Coordinator.{
  no_task, exit_task, Task, Coordinator, TaskRef, map_ref, reduce_ref, own, Outcome, ok, panic,
  is_not_started, idle_task, dispatched, done, select_reduce, select_task, scan,
}
use tda596_distributed_syste.MapReduce.Coordinator.Scan.{Finds, scan-Finds}
use tda596_distributed_syste.MapReduce.Coordinator.Invariant.{IsValid, has_completed}

-- The first index at which a task is not started.
abbrev pub IsFirst : ℕ → Task → List Task → Type 0
IsFirst i t ts =
    (get_elem? ts i ≡ some t)
    × (is_not_started t.status ≡ true)
    × ((j : ℕ) (u : Task) → j < i → get_elem? ts j ≡ some u → is_not_started u.status ≡ false)

abbrev pub NoneFresh : List Task → Type 0
NoneFresh ts = (j : ℕ) (u : Task) → get_elem? ts j ≡ some u → is_not_started u.status ≡ false

abbrev pub AllCompleted : List Task → Type 0
AllCompleted ts = (j : ℕ) (u : Task) → get_elem? ts j ≡ some u → has_completed u ≡ true

-- The promise of `selectTask`: the first map task that is not started, else (once every map task is
-- completed) the first such reduce task; the task is marked and nothing else changes. Where there is
-- none, `ExitTask` if the job is done, and `NoTask` if some task is still being worked on.
abbrev pub Selects : Coordinator → Outcome (Coordinator × TaskRef) → Type 0
Selects c panic = ⊥
Selects c (ok (c', map_ref i)) =
    (t : Task) × IsFirst i t c.map_tasks
    × (c' ≡ record c { map_tasks = set c.map_tasks i (dispatched i t) })
Selects c (ok (c', reduce_ref i)) =
    (t : Task) × AllCompleted c.map_tasks
    × IsFirst i t c.reduce_tasks
    × (c' ≡ record c { reduce_tasks = set c.reduce_tasks i (dispatched i t) })
Selects c (ok (c', own t)) =
    (c' ≡ c)
    × NoneFresh c.map_tasks
    × (((t ≡ idle_task exit_task) × AllCompleted c.map_tasks × AllCompleted c.reduce_tasks)
        ⊎ ((t ≡ idle_task no_task)
            × (done c ≡ false)
            × (AllCompleted c.map_tasks → NoneFresh c.reduce_tasks)))

all_completed :
    (n m : ℕ) (ts : List Task)
    → length ts ≡ n
    → m ≡ count_if has_completed ts
    → m ≡ n
    → AllCompleted ts
all_completed n m ts hl hc e = all_of_count_if has_completed ts (sym hc ∙ e ∙ sym hl)

Finds-IsFirst :
    (n : ℕ) (ts : List Task) (k : ℕ) (t : Task) → Finds 0 n ts (ok (some (k, t))) → IsFirst k t ts
Finds-IsFirst n ts k t (_, _, e, s, before) = (e, s, λ j u h. before j u (omega arith) h)

Finds-NoneFresh : (n : ℕ) (ts : List Task) → length ts ≡ n → Finds 0 n ts (ok none) → NoneFresh ts
Finds-NoneFresh n ts h f j u e =
    f j u (omega arith) (omega (arith, lt-length_of_get_elem? ts j u e)) e

open_map : (c : Coordinator) → (c.n_map_completed == c.n_map) ≡ false → done c ≡ false
unfolding done
open_map c h = ground arith

open_reduce : (c : Coordinator) → (c.n_reduce_completed == c.n_reduce) ≡ false → done c ≡ false
unfolding done
open_reduce c h = ground arith

maps_open :
    (c : Coordinator)
    → IsValid c
    → (c.n_map_completed == c.n_map) ≡ false
    → ¬ (AllCompleted c.map_tasks)
maps_open c h e all =
    ground (arith, count_if_of_all has_completed c.map_tasks all, h.map_count, h.map_length)

select_reduce-Selects :
    (c : Coordinator)
    → IsValid c
    → NoneFresh c.map_tasks
    → c.n_map_completed ≡ c.n_map
    → (r : Outcome (Option (ℕ × Task))) → scan c.n_reduce 0 c.reduce_tasks ≡ r
    → Finds 0 c.n_reduce c.reduce_tasks r
    → Selects c (select_reduce c)
unfolding select_reduce
select_reduce-Selects c h fresh full panic e f = elim f [ ]
select_reduce-Selects c h fresh full (ok (some (k, t))) e f =
    rw (e, select_reduce)
      (
        t,
        all_completed c.n_map c.n_map_completed c.map_tasks h.map_length h.map_count full,
        Finds-IsFirst c.n_reduce c.reduce_tasks k t f,
        refl,
      )
select_reduce-Selects c h fresh full (ok none) e f =
    let maps = all_completed c.n_map c.n_map_completed c.map_tasks h.map_length h.map_count full in
    let none_fresh = Finds-NoneFresh c.n_reduce c.reduce_tasks h.reduce_length f in
    elim (Bool-cases (c.n_reduce_completed == c.n_reduce)) [
      | inl last ↦
          rw (e, select_reduce, last)
            (
              refl,
              fresh,
              inl (
                refl,
                maps,
                all_completed c.n_reduce c.n_reduce_completed c.reduce_tasks h.reduce_length
                    h.reduce_count (ground arith),
              ),
            )
      | inr more ↦
          rw (e, select_reduce, more) (refl, fresh, inr (refl, open_reduce c more, λ _. none_fresh))
    ]

-- `selectTask` keeps its promise in every valid state, and does not panic.
pub select_task-Selects : (c : Coordinator) → IsValid c → Selects c (select_task c)
unfolding select_task
select_task-Selects c h =
    go (scan c.n_map 0 c.map_tasks) refl
      (scan-Finds c.n_map 0 c.n_map c.map_tasks (omega arith) (omega (arith, h.map_length)))
  where
    go :
        (r : Outcome (Option (ℕ × Task)))
        → scan c.n_map 0 c.map_tasks ≡ r
        → Finds 0 c.n_map c.map_tasks r
        → Selects c (select_task c)
    go panic e f = elim f [ ]
    go (ok (some (k, t))) e f =
        rw (e, select_task) (t, Finds-IsFirst c.n_map c.map_tasks k t f, refl)
    go (ok none) e f =
        let fresh = Finds-NoneFresh c.n_map c.map_tasks h.map_length f in
        elim (Bool-cases (c.n_map_completed == c.n_map)) [
          | inl full ↦
              rw (e, select_task, full)
                (select_reduce-Selects c h fresh (ground arith) _ refl (
                  scan-Finds c.n_reduce 0 c.n_reduce c.reduce_tasks (omega arith)
                    (omega (arith, h.reduce_length))))
          | inr more ↦
              rw (e, select_task, more)
                (refl, fresh, inr (refl, open_map c more, λ all. absurd (maps_open c h more all)))
        ]
