-- ===== src/MapReduce/Worker/Preservation.antt =====
-- A condition that a single worker's tasks keep holds when its loop ends.
use tda596_distributed_syste.Prelude.{
  ℕ, zero, suc, ◌<◌, ◌≡◌, refl, inl, inr, Bool, true, false, Option, some, String, get_elem?,
  if◌then◌else◌, get_elem?-set_self, lt-length_of_get_elem?, arith, List,
}
use tda596_distributed_syste.Prelude.Int.{ℤ, pos}
use tda596_distributed_syste.MapReduce.Coordinator.{
  map_task, reduce_task, Task, Coordinator, RequestTaskReply, TaskRef, Outcome, ok, panic,
  request_task, complete_task, done, accepts,
}
use tda596_distributed_syste.MapReduce.Coordinator.Invariant.{IsValid}
use tda596_distributed_syste.MapReduce.Coordinator.Handlers.{AllCompleted}
use tda596_distributed_syste.MapReduce.Coordinator.Safety.{
  Returns, full_of_all, map_update, reduce_update,
}
use tda596_distributed_syste.MapReduce.Coordinator.Completion.{
  map_counted, reduce_counted, complete_task-map, complete_task-reduce,
}
use tda596_distributed_syste.MapReduce.Coordinator.Requests.{
  Grants, claimed, map_claimed, reduce_claimed, request_task-Grants,
}
use tda596_distributed_syste.MapReduce.Worker.{
  report, dispatch, WorkerEnd, all_completed, Round, stop, again, round, work,
}
use tda596_distributed_syste.MapReduce.Worker.Single.{
  serving, IsReady, remaining, Progress, round-Progress, self_accepts,
}

-- Any condition on the coordinator and the files that a completed map task keeps, and a completed
-- reduce task too, once all map tasks are completed.
module _ {F : Type 0} (w : ℤ) (do_map : F → String → ℤ → F) (do_reduce : F → ℤ → F)
    (Inv : Coordinator → F → Type 0)
    (keeps_map : (c : Coordinator) (i : ℕ) (t : Task) (f : F)
      → Inv c f
      → get_elem? c.map_tasks i ≡ some t
      → Inv (map_counted (map_claimed c i t w) i (claimed i t w)) (do_map f t.file (pos i)))
    (keeps_reduce : (c : Coordinator) (i : ℕ) (t : Task) (f : F)
      → Inv c f
      → AllCompleted c.map_tasks
      → get_elem? c.reduce_tasks i ≡ some t
      → Inv (reduce_counted (reduce_claimed c i t w) i (claimed i t w)) (do_reduce f (pos i))) where
  abbrev Kept : Round (Coordinator × F) → Type 0
  Kept (stop e (c, f)) = Inv c f
  Kept (again (c, f)) = Inv c f

  either_way :
      (c : Coordinator) (f : F) (b : Bool)
      → Inv c f
      → Kept (if b then stop all_completed (c, f) else again (c, f))
  either_way c f true h = h
  either_way c f false h = h

  map_task-Kept :
      (c : Coordinator) (i : ℕ) (t : Task) (f : F) (r : Outcome (Coordinator × Bool))
      → Inv c f
      → get_elem? c.map_tasks i ≡ some t
      → Returns
          (λ (c', b).
            IsValid c'
            × (c' ≡ (
                if accepts (claimed i t w) w
                then map_counted (map_claimed c i t w) i (claimed i t w)
                else map_claimed c i t w))
            × (b ≡ done c'))
          r
      → complete_task
          (map_claimed c i t w)
          (record { task_type = map_task; task_id = pos i; worker_id = w })
        ≡ r
      → Kept (
          report
            (serving w do_map do_reduce)
            map_task
            (pos i)
            (map_claimed c i t w, do_map f t.file (pos i)))
  unfolding report
  map_task-Kept c i t f panic h e p er = elim p [ ]
  map_task-Kept c i t f (ok (c', b)) h e (valid, same, d) er =
      let counts : c' ≡ map_counted (map_claimed c i t w) i (claimed i t w) =
        rw (self_accepts i t w) at same in
      rw (er, report, counts)
        (either_way (map_counted (map_claimed c i t w) i (claimed i t w)) (do_map f t.file (pos i))
          b (keeps_map c i t f h e))

  reduce_task-Kept :
      (c : Coordinator) (i : ℕ) (t : Task) (f : F) (r : Outcome (Coordinator × Bool))
      → Inv c f
      → AllCompleted c.map_tasks
      → get_elem? c.reduce_tasks i ≡ some t
      → Returns
          (λ (c', b).
            IsValid c'
            × (c' ≡ (
                if accepts (claimed i t w) w
                then reduce_counted (reduce_claimed c i t w) i (claimed i t w)
                else reduce_claimed c i t w))
            × (b ≡ done c'))
          r
      → complete_task
          (reduce_claimed c i t w)
          (record { task_type = reduce_task; task_id = pos i; worker_id = w })
        ≡ r
      → Kept (
          report
            (serving w do_map do_reduce)
            reduce_task
            (pos i)
            (reduce_claimed c i t w, do_reduce f (pos i)))
  unfolding report
  reduce_task-Kept c i t f panic h all e p er = elim p [ ]
  reduce_task-Kept c i t f (ok (c', b)) h all e (valid, same, d) er =
      let counts : c' ≡ reduce_counted (reduce_claimed c i t w) i (claimed i t w) =
        rw (self_accepts i t w) at same in
      rw (er, report, counts)
        (either_way (reduce_counted (reduce_claimed c i t w) i (claimed i t w))
          (do_reduce f (pos i)) b (keeps_reduce c i t f h all e))

  granted-Kept :
      (c : Coordinator) (f : F) (r : Outcome (Coordinator × RequestTaskReply × List TaskRef))
      → IsReady c
      → Inv c f
      → Grants c w r
      → request_task c w ≡ r
      → Kept (round (serving w do_map do_reduce) (c, f))
  unfolding round dispatch
  granted-Kept c f panic h v g er = elim g [ ]
  granted-Kept c f (ok (c', rep, timers)) h v (inl (i, t, (e, fresh, _), ec, ep, _)) er =
      rw (er, round)
        (rw (ec, ep)
          (rw (h.files i t e) (
            map_task-Kept c i t f _ v e
              (complete_task-map (map_claimed c i t w) i (claimed i t w) w
                (map_update c i t (claimed i t w) h.valid e refl refl (ground arith))
                (get_elem?-set_self c.map_tasks i (claimed i t w)
                  (lt-length_of_get_elem? c.map_tasks i t e)))
              refl)))
  granted-Kept c f (ok (c', rep, timers)) h v (inr (inl (i, t, all, (e, fresh, _), ec, ep, _))) er =
      rw (er, round)
        (rw (ec, ep)
          (reduce_task-Kept c i t f _ v all e
            (complete_task-reduce (reduce_claimed c i t w) i (claimed i t w) w
              (reduce_update c i t (claimed i t w) h.valid e refl refl (ground arith)
                (inl ((full_of_all c h.valid all))))
              (get_elem?-set_self c.reduce_tasks i (claimed i t w)
                (lt-length_of_get_elem? c.reduce_tasks i t e)))
            refl))
  granted-Kept c f (ok (c', rep, timers)) h v (inr (inr (ec, _, none_fresh, inl (ep, _, _)))) er =
      rw (er, round) (rw (ec, ep) v)
  granted-Kept c f (ok (c', rep, timers)) h v (inr (inr (ec, _, none_fresh, inr (ep, _, _)))) er =
      rw (er, round) (rw (ec, ep) v)

  -- The loop has returned with the job done, and the condition holds.
  abbrev pub Delivers : Option (WorkerEnd × (Coordinator × F)) → Type 0
  Delivers o =
      (e : WorkerEnd) × (c : Coordinator) × (f : F) × (o ≡ some (e, (c, f)))
      × (done c ≡ true)
      × IsValid c
      × Inv c f

  delivered_step :
      (fuel : ℕ) (c : Coordinator) (f : F) (r : Round (Coordinator × F))
      → round (serving w do_map do_reduce) (c, f) ≡ r
      → Progress c r
      → Kept r
      → ((c' : Coordinator) (f' : F)
          → IsReady c'
          → remaining c' < remaining c
          → Inv c' f'
          → Delivers (work (serving w do_map do_reduce) fuel (c', f')))
      → Delivers (work (serving w do_map do_reduce) (suc fuel) (c, f))
  unfolding work
  delivered_step fuel c f (stop e (c', f')) er p v k = rw (er, work) (e, c', f', refl, p.0, p.1, v)
  delivered_step fuel c f (again (c', f')) er p v k = rw (er, work) (k c' f' p.0 p.1 v)

  pub work-Delivers :
      (fuel : ℕ) (c : Coordinator) (f : F)
      → IsReady c
      → Inv c f
      → remaining c < fuel
      → Delivers (work (serving w do_map do_reduce) fuel (c, f))
  work-Delivers zero c f h v bound = absurd (omega arith)
  work-Delivers (suc fuel) c f h v bound =
      delivered_step fuel c f (round (serving w do_map do_reduce) (c, f)) refl
        (round-Progress w do_map do_reduce c f h)
        (granted-Kept c f (request_task c w) h v (request_task-Grants c w h.valid) refl)
        (λ c' f' h' less v'. work-Delivers fuel c' f' h' v' (omega arith))
