-- ===== src/MapReduce/Coordinator/System/Refinement.antt =====
-- The coordinator's critical sections as steps of the abstract job.
use mathlib.Core.Path.{subst}
use mathlib.Core.Option.{some-injective}
use tda596_distributed_syste.Prelude.{
  ℕ, zero, suc, ◌≡◌, refl, sym, ap, ◌∙◌, ◌⊎◌, inl, inr, Bool, true, some, List, [], ◌∷◌, get_elem?,
  set, get_elem?_of_lt, if◌then◌else◌, Bool-cases, Option-cases, arith,
}
use tda596_distributed_syste.Prelude.Int.{ℤ}
use tda596_distributed_syste.MapReduce.Job.{
  Progress, pending, running, finished, Job, AllFinished, JobStep, idle, start_map, start_reduce,
  end_map, end_reduce,
}
use tda596_distributed_syste.MapReduce.Coordinator.{
  TaskStatus, not_started, in_progress, completed, Task, Coordinator, TaskRef, map_ref, reduce_ref,
  own, Outcome, ok, panic, ◌>>=◌, select_task, assign_task, complete_task, wait_for_task,
  CompleteTaskArgs, dispatched, reset_task, accepts, done, index_slice, is_not_started,
  is_completed,
}
use tda596_distributed_syste.MapReduce.Coordinator.Invariant.{IsValid}
use tda596_distributed_syste.MapReduce.Coordinator.Handlers.{
  AllCompleted, Selects, select_task-Selects,
}
use tda596_distributed_syste.MapReduce.Coordinator.Safety.{Returns}
use tda596_distributed_syste.MapReduce.Coordinator.Completion.{
  map_counted, reduce_counted, complete_task-map, complete_task-reduce,
}
use tda596_distributed_syste.MapReduce.Coordinator.System.{
  System, Event, request, answer, complete, expire, step, answer_with, expire_with,
}
use tda596_distributed_syste.MapReduce.Coordinator.System.Events.{args_path}
use tda596_distributed_syste.MapReduce.Coordinator.System.Guarded.{
  All-get, RefWithin, Guarded, ArgsWithin, EventWithin,
}

abbrev pub progress : TaskStatus → Progress
progress not_started = pending
progress in_progress = running
progress completed = finished

abbrev pub progress_of : List Task → List Progress
progress_of [] = []
progress_of (t ∷ ts) = progress t.status ∷ progress_of ts

-- The abstract view.
abbrev pub job_of : Coordinator → Job
job_of c = record { maps = progress_of c.map_tasks; reduces = progress_of c.reduce_tasks }

progress_of-set :
    (ts : List Task) (i : ℕ) (v : Task)
    → progress_of (set ts i v) ≡ set (progress_of ts) i (progress v.status)
progress_of-set [] i v = refl
progress_of-set (t ∷ ts) zero v = refl
progress_of-set (t ∷ ts) (suc i) v = ap (◌∷◌ (progress t.status)) (progress_of-set ts i v)

pub progress_of-get :
    (ts : List Task) (i : ℕ) (t : Task)
    → get_elem? ts i ≡ some t
    → get_elem? (progress_of ts) i ≡ some (progress t.status)
progress_of-get [] i t e = ground arith
progress_of-get (u ∷ ts) zero t e = ground arith
progress_of-get (u ∷ ts) (suc i) t e = progress_of-get ts i t e

pub get-progress_of :
    (ts : List Task) (i : ℕ) (p : Progress)
    → get_elem? (progress_of ts) i ≡ some p
    → (t : Task) × (get_elem? ts i ≡ some t) × (progress t.status ≡ p)
get-progress_of [] i p e = ground arith
get-progress_of (u ∷ ts) zero p e = (u, refl, some-injective (progress u.status) p e)
get-progress_of (u ∷ ts) (suc i) p e = get-progress_of ts i p e

pub finished_lem : (s : TaskStatus) → is_completed s ≡ true → progress s ≡ finished
finished_lem s h = ground arith

pub completed_lem : (s : TaskStatus) → progress s ≡ finished → is_completed s ≡ true
completed_lem s h = ground arith

pub AllCompleted-AllFinished : (ts : List Task) → AllCompleted ts → AllFinished (progress_of ts)
AllCompleted-AllFinished ts all i p e =
    let (t, et, same) = get-progress_of ts i p e in sym same ∙ finished_lem t.status (all i t et)

set_same : (ps : List Progress) (i : ℕ) (p : Progress) → get_elem? ps i ≡ some p → set ps i p ≡ ps
set_same [] i p e = refl
set_same (q ∷ ps) zero p e = ap (λ r. r ∷ ps) (sym (some-injective q p e))
set_same (q ∷ ps) (suc i) p e = ap (◌∷◌ q) (set_same ps i p e)

-- A task's status stays as it was, or a task in progress is completed or put back.
abbrev EndsOrStays : TaskStatus → TaskStatus → Type 0
EndsOrStays s s' =
    (progress s' ≡ progress s)
    ⊎ ((progress s ≡ running) × ((progress s' ≡ finished) ⊎ (progress s' ≡ pending)))

same_progress :
    (ts : List Task) (i : ℕ) (t v : Task)
    → get_elem? ts i ≡ some t
    → progress v.status ≡ progress t.status
    → progress_of (set ts i v) ≡ progress_of ts
same_progress ts i t v e same =
    progress_of-set ts i v
    ∙ ap (set (progress_of ts) i) same
    ∙ set_same (progress_of ts) i (progress t.status) (progress_of-get ts i t e)

map_ends :
    (c : Coordinator) (i : ℕ) (t v : Task)
    → get_elem? c.map_tasks i ≡ some t
    → EndsOrStays t.status v.status
    → JobStep (job_of c) (record (job_of c) { maps = progress_of (set c.map_tasks i v) })
map_ends c i t v e (inl same) =
    idle (ap (λ ms. record (job_of c) { maps = ms }) (same_progress c.map_tasks i t v e same))
map_ends c i t v e (inr (was, which)) =
    end_map i (progress v.status) (progress_of-get c.map_tasks i t e ∙ ap some was) which
      (ap (λ ms. record (job_of c) { maps = ms }) (progress_of-set c.map_tasks i v))

reduce_ends :
    (c : Coordinator) (i : ℕ) (t v : Task)
    → get_elem? c.reduce_tasks i ≡ some t
    → EndsOrStays t.status v.status
    → JobStep (job_of c) (record (job_of c) { reduces = progress_of (set c.reduce_tasks i v) })
reduce_ends c i t v e (inl same) =
    idle (ap (λ rs. record (job_of c) { reduces = rs }) (same_progress c.reduce_tasks i t v e same))
reduce_ends c i t v e (inr (was, which)) =
    end_reduce i (progress v.status) (progress_of-get c.reduce_tasks i t e ∙ ap some was) which
      (ap (λ rs. record (job_of c) { reduces = rs }) (progress_of-set c.reduce_tasks i v))

fresh_lem : (t : Task) → is_not_started t.status ≡ true → progress t.status ≡ pending
fresh_lem t h = ground arith

reset_lem : (s : TaskStatus) (t : Task) → t.status ≡ s → EndsOrStays s (reset_task t).status
reset_lem not_started t e = inl (rw e refl)
reset_lem in_progress t e = inr (refl, inr (rw e refl))
reset_lem completed t e = inl (rw e refl)

-- A step of the system is a step of the job.
abbrev pub Steps : Coordinator → Outcome System → Type 0
Steps c r = Returns (λ s'. JobStep (job_of c) (job_of s'.coord)) r

request-Steps :
    (s : System) (w : ℤ) (r : Outcome (Coordinator × TaskRef))
    → Selects s.coord r
    → Steps s.coord (r >>= λ (c', q). ok (record s { coord = c'; selected = (q, w) ∷ s.selected }))
request-Steps s w panic sel = elim sel [ ]
request-Steps s w (ok (c', map_ref i)) (t, (e, fresh, _), same) = rw same (
    start_map i (progress_of-get s.coord.map_tasks i t e ∙ ap some (fresh_lem t fresh)) (
      ap (λ ms. record (job_of s.coord) { maps = ms })
        (progress_of-set s.coord.map_tasks i (dispatched i t))))
request-Steps s w (ok (c', reduce_ref i)) (t, all, (e, fresh, _), same) = rw same (
    start_reduce i (AllCompleted-AllFinished s.coord.map_tasks all)
      (progress_of-get s.coord.reduce_tasks i t e ∙ ap some (fresh_lem t fresh))
      (ap (λ rs. record (job_of s.coord) { reduces = rs })
        (progress_of-set s.coord.reduce_tasks i (dispatched i t))))
request-Steps s w (ok (c', own t)) (same, _, _) = idle (ap job_of same)

answer-Steps :
    (m n : ℕ) (s : System) (k : ℕ) (r : TaskRef) (w : ℤ)
    → Guarded m n s
    → RefWithin m n r
    → Steps s.coord (answer_with s k r w)
unfolding answer_with assign_task
answer-Steps m n s k (map_ref i) w g within =
    let (t, e) = get_elem?_of_lt s.coord.map_tasks i (omega (arith, g.map_size)) in
    rw (e, index_slice) (map_ends s.coord i t (record t { worker_id = w }) e (inl refl))
answer-Steps m n s k (reduce_ref i) w g within =
    let (t, e) = get_elem?_of_lt s.coord.reduce_tasks i (omega (arith, g.reduce_size)) in
    rw (e, index_slice) (reduce_ends s.coord i t (record t { worker_id = w }) e (inl refl))
answer-Steps m n s k (own t) w g within = idle refl

expire-Steps :
    (m n : ℕ) (s : System) (k : ℕ) (r : TaskRef)
    → Guarded m n s
    → RefWithin m n r
    → Steps s.coord (expire_with s k r)
unfolding expire_with wait_for_task
expire-Steps m n s k (map_ref i) g within =
    let (t, e) = get_elem?_of_lt s.coord.map_tasks i (omega (arith, g.map_size)) in
    rw (e, index_slice) (map_ends s.coord i t (reset_task t) e (reset_lem t.status t refl))
expire-Steps m n s k (reduce_ref i) g within =
    let (t, e) = get_elem?_of_lt s.coord.reduce_tasks i (omega (arith, g.reduce_size)) in
    rw (e, index_slice) (reduce_ends s.coord i t (reset_task t) e (reset_lem t.status t refl))
expire-Steps m n s k (own t) g within = idle refl

accepted : (t : Task) (w : ℤ) → accepts t w ≡ true → progress t.status ≡ running
accepted t w h = ground arith

complete_map-Steps :
    (s : System) (i : ℕ) (t : Task) (w : ℤ) (r : Outcome (Coordinator × Bool))
    → get_elem? s.coord.map_tasks i ≡ some t
    → Returns
        (λ (c', b).
          IsValid c'
          × (c' ≡ (if accepts t w then map_counted s.coord i t else s.coord))
          × (b ≡ done c'))
        r
    → Steps s.coord (r >>= λ (c', _). ok (record s { coord = c' }))
complete_map-Steps s i t w panic e p = elim p [ ]
complete_map-Steps s i t w (ok (c', b)) e (_, same, _) = elim (Bool-cases (accepts t w)) [
  | inl acc ↦
      let counts : c' ≡ map_counted s.coord i t = rw acc at same in
      rw counts (
        map_ends s.coord i t (record t { status = completed }) e (inr (accepted t w acc, inl refl)))
  | inr rej ↦ let unchanged : c' ≡ s.coord = rw rej at same in idle (ap job_of unchanged)
]

complete_reduce-Steps :
    (s : System) (i : ℕ) (t : Task) (w : ℤ) (r : Outcome (Coordinator × Bool))
    → get_elem? s.coord.reduce_tasks i ≡ some t
    → Returns
        (λ (c', b).
          IsValid c'
          × (c' ≡ (if accepts t w then reduce_counted s.coord i t else s.coord))
          × (b ≡ done c'))
        r
    → Steps s.coord (r >>= λ (c', _). ok (record s { coord = c' }))
complete_reduce-Steps s i t w panic e p = elim p [ ]
complete_reduce-Steps s i t w (ok (c', b)) e (_, same, _) = elim (Bool-cases (accepts t w)) [
  | inl acc ↦
      let counts : c' ≡ reduce_counted s.coord i t = rw acc at same in
      rw counts (
        reduce_ends s.coord i t (record t { status = completed }) e
          (inr (accepted t w acc, inl refl)))
  | inr rej ↦ let unchanged : c' ≡ s.coord = rw rej at same in idle (ap job_of unchanged)
]

complete-Steps :
    (m n : ℕ) (s : System) (a : CompleteTaskArgs)
    → Guarded m n s
    → ArgsWithin m n a
    → Steps s.coord (step s (complete a))
unfolding step
complete-Steps m n s a g (inl (i, ek, ei, bound)) =
    let (t, et) = get_elem?_of_lt s.coord.map_tasks i (omega (arith, g.map_size)) in
    subst (λ b. Steps s.coord (step s (complete b))) (args_path a ek ei)
      (complete_map-Steps s i t a.worker_id _ et
        (complete_task-map s.coord i t a.worker_id g.valid et))
complete-Steps m n s a g (inr (inl (i, ek, ei, bound))) =
    let (t, et) = get_elem?_of_lt s.coord.reduce_tasks i (omega (arith, g.reduce_size)) in
    subst (λ b. Steps s.coord (step s (complete b))) (args_path a ek ei)
      (complete_reduce-Steps s i t a.worker_id _ et
        (complete_task-reduce s.coord i t a.worker_id g.valid et))
complete-Steps m n s a g (inr (inr (inl ek))) =
    subst (λ b. Steps s.coord (step s (complete b))) (args_path a ek refl)
      (unfold complete_task in idle refl)
complete-Steps m n s a g (inr (inr (inr ek))) =
    subst (λ b. Steps s.coord (step s (complete b))) (args_path a ek refl)
      (unfold complete_task in idle refl)

pub step-Steps :
    (m n : ℕ) (s : System) (e : Event)
    → Guarded m n s
    → EventWithin m n e
    → Steps s.coord (step s e)
unfolding step
step-Steps m n s (request w) g h =
    request-Steps s w (select_task s.coord) (select_task-Selects s.coord g.valid)
step-Steps m n s (answer k) g h = elim (Option-cases (get_elem? s.selected k)) [
  | inl e ↦ rw (e, step) (idle refl)
  | inr ((r, w), e) ↦
      rw (e, step)
        (answer-Steps m n s k r w g
          (All-get (λ (q, _). RefWithin m n q) s.selected k (r, w) g.selected_within e))
]
step-Steps m n s (complete a) g h = complete-Steps m n s a g h
step-Steps m n s (expire k) g h = elim (Option-cases (get_elem? s.timers k)) [
  | inl e ↦ rw (e, step) (idle refl)
  | inr (r, e) ↦
      rw (e, step)
        (expire-Steps m n s k r g (All-get (RefWithin m n) s.timers k r g.timers_within e))
]
