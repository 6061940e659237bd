-- ===== src/MapReduce/Worker/Single.antt =====
-- A single worker against the coordinator.
use mathlib.Core.Option.{some-injective}
use text.Mathlib.Text.{◌==◌ as str_eq}
use tda596_distributed_syste.Prelude.{
  ℕ, zero, suc, ◌+◌, ◌<◌, ◌≡◌, refl, sym, ap, ◌∙◌, ◌⊎◌, inl, inr, Bool, true, false, not, Option,
  none, some, List, String, get_elem?, set, count_if, if◌then◌else◌, get_elem?-set_self,
  lt-length_of_get_elem?, count_if-set, set-set, get_elem?-set_cases, arith, [], ◌∷◌,
}
use tda596_distributed_syste.Prelude.Int.{ℤ, pos, eq_ℤ_iff}
use tda596_distributed_syste.MapReduce.Coordinator.{
  map_task, reduce_task, completed, Task, Coordinator, RequestTaskReply, TaskRef, map_ref,
  wait_for_task, Outcome, ok, panic, request_task, complete_task, done, accepts, is_in_progress,
  is_not_started, reset_task, index_slice,
}
use tda596_distributed_syste.MapReduce.Coordinator.Invariant.{IsValid, has_completed}
use tda596_distributed_syste.MapReduce.Coordinator.Handlers.{AllCompleted, NoneFresh}
use tda596_distributed_syste.MapReduce.Coordinator.Safety.{
  Returns, full_of_all, map_update, reduce_update,
}
use tda596_distributed_syste.MapReduce.Coordinator.Completion.{
  map_counted, reduce_counted, complete_task-map, complete_task-reduce, done_iff,
}
use tda596_distributed_syste.MapReduce.Coordinator.Requests.{
  Grants, claimed, map_claimed, reduce_claimed, request_task-Grants,
}
use tda596_distributed_syste.MapReduce.Worker.{
  report, dispatch, Services, WorkerEnd, no_more_tasks, all_completed, Round, stop, again, round,
}

set_self : (ts : List Task) (i : ℕ) (t : Task) → get_elem? ts i ≡ some t → set ts i t ≡ ts
set_self [] i t e = refl
set_self (u ∷ ts) zero t e = ap (λ v. v ∷ ts) (sym (some-injective u t e))
set_self (u ∷ ts) (suc i) t e = ap (◌∷◌ u) (set_self ts i t e)

-- A time-out of a completed task changes nothing.
wait_for_task_completed :
    (c : Coordinator) (i : ℕ) (t : Task)
    → get_elem? c.map_tasks i ≡ some t
    → has_completed t ≡ true
    → wait_for_task c (map_ref i) ≡ ok c
unfolding wait_for_task
wait_for_task_completed c i t e h =
    let same : reset_task t ≡ t = ground (arith, h) in
    rw (e, index_slice, same)
      (ap (λ ts. ok (record c { map_tasks = ts })) (set_self c.map_tasks i t e))

-- The services of a coordinator in the same world, with any effect `F` of the tasks on the files. A
-- panic of the coordinator is a failed call. A task takes less than the ten seconds of `waitForTask`:
-- none of the goroutines that `RequestTask` starts wakes up while its task runs, and later they
-- change nothing.
abbrev pub serving :
    {F : Type 0} → ℤ → (F → String → ℤ → F) → (F → ℤ → F) → Services (Coordinator × F)
serving w do_map do_reduce = record {
  request = λ (c, f). elim (request_task c w) [ ok (c', r, _) ↦ some (r, (c', f)) | panic ↦ none ];
  complete = λ (c, f) k i.
      elim (complete_task c (record { task_type = k; task_id = i; worker_id = w })) [
        | ok (c', b) ↦ some (b, (c', f))
        | panic ↦ none
      ];
  do_map = λ (c, f) file i. (c, do_map f file i);
  do_reduce = λ (c, f) i. (c, do_reduce f i);
}

-- Nobody else works: no task is in progress, and every map task has a file.
abbrev pub Idle : List Task → Type 0
Idle ts = (i : ℕ) (t : Task) → get_elem? ts i ≡ some t → is_in_progress t.status ≡ false

abbrev pub HasFiles : List Task → Type 0
HasFiles ts = (i : ℕ) (t : Task) → get_elem? ts i ≡ some t → str_eq t.file "" ≡ false

pub record IsReady (c : Coordinator) : Type 0 where
  pub valid : IsValid c
  pub maps_idle : Idle c.map_tasks
  pub reduces_idle : Idle c.reduce_tasks
  pub files : HasFiles c.map_tasks

-- The tasks that are left.
abbrev pub remaining : Coordinator → ℕ
remaining c =
    count_if (λ t. not (has_completed t)) c.map_tasks
    + count_if (λ t. not (has_completed t)) c.reduce_tasks

-- A round either ends with the job done, or completes one more task.
abbrev pub Progress : {F : Type 0} → Coordinator → Round (Coordinator × F) → Type 0
Progress c (stop e (c', f)) =
    (done c' ≡ true) × IsValid c' × ((e ≡ no_more_tasks) ⊎ (e ≡ all_completed))
Progress c (again (c', f)) = IsReady c' × (remaining c' < remaining c)

Idle-set :
    (ts : List Task) (i : ℕ) (v : Task)
    → Idle ts
    → is_in_progress v.status ≡ false
    → Idle (set ts i v)
Idle-set ts i v h hv j t e = ground (arith, get_elem?-set_cases ts i v j t e, h j t)

HasFiles-set :
    (ts : List Task) (i : ℕ) (v : Task)
    → HasFiles ts
    → str_eq v.file "" ≡ false
    → HasFiles (set ts i v)
HasFiles-set ts i v h hv j t e = ground (arith, get_elem?-set_cases ts i v j t e, h j t)

map_finished :
    {F : Type 0} (c c' : Coordinator) (i : ℕ) (t v : Task) (f : F) (b : Bool)
    → IsReady c
    → get_elem? c.map_tasks i ≡ some t
    → has_completed t ≡ false
    → v.status ≡ completed
    → v.file ≡ t.file
    → c'.map_tasks ≡ set c.map_tasks i v
    → c'.reduce_tasks ≡ c.reduce_tasks
    → IsValid c'
    → b ≡ done c'
    → Progress c (if b then stop all_completed (c', f) else again (c', f))
map_finished c c' i t v f true h e fresh vs vf em er valid d = (sym d, valid, inr refl)
map_finished c c' i t v f false h e fresh vs vf em er valid d = (
  record {
    valid = valid;
    maps_idle = rw em (Idle-set c.map_tasks i v h.maps_idle (rw vs));
    reduces_idle = rw er h.reduces_idle;
    files = rw em (HasFiles-set c.map_tasks i v h.files (rw vf (h.files i t e)));
  },
  rw (em, er) (ground (arith, count_if-set (λ u. not (has_completed u)) c.map_tasks i t v e)),
)

reduce_finished :
    {F : Type 0} (c c' : Coordinator) (i : ℕ) (t v : Task) (f : F) (b : Bool)
    → IsReady c
    → get_elem? c.reduce_tasks i ≡ some t
    → has_completed t ≡ false
    → v.status ≡ completed
    → c'.map_tasks ≡ c.map_tasks
    → c'.reduce_tasks ≡ set c.reduce_tasks i v
    → IsValid c'
    → b ≡ done c'
    → Progress c (if b then stop all_completed (c', f) else again (c', f))
reduce_finished c c' i t v f true h e fresh vs em er valid d = (sym d, valid, inr refl)
reduce_finished c c' i t v f false h e fresh vs em er valid d = (
  record {
    valid = valid;
    maps_idle = rw em h.maps_idle;
    reduces_idle = rw er (Idle-set c.reduce_tasks i v h.reduces_idle (rw vs));
    files = rw em h.files;
  },
  rw (em, er) (ground (arith, count_if-set (λ u. not (has_completed u)) c.reduce_tasks i t v e)),
)

pub self_accepts : (i : ℕ) (t : Task) (w : ℤ) → accepts (claimed i t w) w ≡ true
self_accepts i t w = (eq_ℤ_iff w w).1 refl

completed_of_idle : (ts : List Task) → Idle ts → NoneFresh ts → AllCompleted ts
completed_of_idle ts idle none_fresh j u e = ground (arith, idle j u e, none_fresh j u e)

-- While nobody works on a task, an unfinished job has a task to hand out.
not_stuck :
    (c : Coordinator)
    → IsReady c
    → NoneFresh c.map_tasks
    → done c ≡ false
    → (AllCompleted c.map_tasks → NoneFresh c.reduce_tasks)
    → ⊥
not_stuck c h none_fresh unfinished more =
    let maps = completed_of_idle c.map_tasks h.maps_idle none_fresh in
    let reduces = completed_of_idle c.reduce_tasks h.reduces_idle (more maps) in
    let finished = (done_iff c h.valid).1 (maps, reduces) in cc

module _ {F : Type 0} (w : ℤ) (do_map : F → String → ℤ → F) (do_reduce : F → ℤ → F) where
  reported_map :
      (c : Coordinator) (i : ℕ) (t : Task) (f : F) (r : Outcome (Coordinator × Bool))
      → IsReady c
      → get_elem? c.map_tasks i ≡ some t
      → is_not_started t.status ≡ true
      → Returns
          (λ (c', b).
            IsValid c'
            × (c' ≡ (
                if accepts (claimed i t w) w
                then map_counted (map_claimed c i t w) i (claimed i t w)
                else map_claimed c i t w))
            × (b ≡ done c'))
          r
      → complete_task
          (map_claimed c i t w)
          (record { task_type = map_task; task_id = pos i; worker_id = w })
        ≡ r
      → Progress c (report (serving w do_map do_reduce) map_task (pos i) (map_claimed c i t w, f))
  unfolding report
  reported_map c i t f panic h e fresh p er = elim p [ ]
  reported_map c i t f (ok (c', b)) h e fresh (valid, same, d) er =
      let v = record (claimed i t w) { status = completed } in
      let counts : c' ≡ map_counted (map_claimed c i t w) i (claimed i t w) =
        rw (self_accepts i t w) at same in
      rw (er, report)
        (map_finished c c' i t v f b h e (ground arith) refl refl
          (ap (λ x. x.map_tasks) counts ∙ set-set c.map_tasks i (claimed i t w) v)
          (ap (λ x. x.reduce_tasks) counts) valid d)

  reported_reduce :
      (c : Coordinator) (i : ℕ) (t : Task) (f : F) (r : Outcome (Coordinator × Bool))
      → IsReady c
      → get_elem? c.reduce_tasks i ≡ some t
      → is_not_started t.status ≡ true
      → Returns
          (λ (c', b).
            IsValid c'
            × (c' ≡ (
                if accepts (claimed i t w) w
                then reduce_counted (reduce_claimed c i t w) i (claimed i t w)
                else reduce_claimed c i t w))
            × (b ≡ done c'))
          r
      → complete_task
          (reduce_claimed c i t w)
          (record { task_type = reduce_task; task_id = pos i; worker_id = w })
        ≡ r
      → Progress c
          (report (serving w do_map do_reduce) reduce_task (pos i) (reduce_claimed c i t w, f))
  unfolding report
  reported_reduce c i t f panic h e fresh p er = elim p [ ]
  reported_reduce c i t f (ok (c', b)) h e fresh (valid, same, d) er =
      let v = record (claimed i t w) { status = completed } in
      let counts : c' ≡ reduce_counted (reduce_claimed c i t w) i (claimed i t w) =
        rw (self_accepts i t w) at same in
      rw (er, report)
        (reduce_finished c c' i t v f b h e (ground arith) refl (ap (λ x. x.map_tasks) counts)
          (ap (λ x. x.reduce_tasks) counts ∙ set-set c.reduce_tasks i (claimed i t w) v) valid d)

  granted_round :
      (c : Coordinator) (f : F) (r : Outcome (Coordinator × RequestTaskReply × List TaskRef))
      → IsReady c
      → Grants c w r
      → request_task c w ≡ r
      → Progress c (round (serving w do_map do_reduce) (c, f))
  unfolding round dispatch
  granted_round c f panic h g er = elim g [ ]
  granted_round c f (ok (c', rep, timers)) h (inl (i, t, (e, fresh, _), ec, ep, _)) er =
      rw (er, round)
        (rw (ec, ep)
          (rw (h.files i t e) (
            reported_map c i t (do_map f t.file (pos i)) _ h e fresh
              (complete_task-map (map_claimed c i t w) i (claimed i t w) w
                (map_update c i t (claimed i t w) h.valid e refl refl (ground arith))
                (get_elem?-set_self c.map_tasks i (claimed i t w)
                  (lt-length_of_get_elem? c.map_tasks i t e)))
              refl)))
  granted_round c f (ok (c', rep, timers)) h (inr (inl (i, t, all, (e, fresh, _), ec, ep, _))) er =
      rw (er, round)
        (rw (ec, ep)
          (reported_reduce c i t (do_reduce f (pos i)) _ h e fresh
            (complete_task-reduce (reduce_claimed c i t w) i (claimed i t w) w
              (reduce_update c i t (claimed i t w) h.valid e refl refl (ground arith)
                (inl ((full_of_all c h.valid all))))
              (get_elem?-set_self c.reduce_tasks i (claimed i t w)
                (lt-length_of_get_elem? c.reduce_tasks i t e)))
            refl))
  granted_round c f (ok (c', rep, timers)) h
        (inr (inr (ec, _, none_fresh, inl (ep, maps, reduces)))) er =
      rw (er, round) (rw (ec, ep) ((done_iff c h.valid).1 (maps, reduces), h.valid, inl refl))
  granted_round c f (ok (c', rep, timers)) h
        (inr (inr (ec, _, none_fresh, inr (ep, unfinished, more)))) er =
      absurd (not_stuck c h none_fresh unfinished more)

  pub round-Progress :
      (c : Coordinator) (f : F) → IsReady c → Progress c (round (serving w do_map do_reduce) (c, f))
  round-Progress c f h =
      granted_round c f (request_task c w) h (request_task-Grants c w h.valid) refl

  -- The loop has returned, with every task completed.
  abbrev pub Finished : Option (WorkerEnd × (Coordinator × F)) → Type 0
  Finished none = ⊥
  Finished (some (e, (c', f'))) =
      (done c' ≡ true) × IsValid c' × ((e ≡ no_more_tasks) ⊎ (e ≡ all_completed))
