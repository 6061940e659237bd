-- ===== src/MapReduce/Coordinator/System/Contract.antt =====
-- What the coordinator promises: its runs are runs of the abstract job.
use text.Mathlib.Text.{◌==◌ as str_eq}
use mathlib.Core.Path.{subst}
use mathlib.Core.Option.{some-injective}
use tda596_distributed_syste.Prelude.{
  ℕ, zero, suc, ◌≡◌, refl, sym, ap, ◌∙◌, true, some, List, [], ◌∷◌, String, length, replicate,
  get_elem?_of_lt, if◌then◌else◌, lt-length_of_get_elem?, arith,
}
use tda596_distributed_syste.MapReduce.Job.{
  pending, finished, Job, JobStep, JobRun, stop, next, StaysFinished, JobRun-StaysFinished,
}
use tda596_distributed_syste.MapReduce.Coordinator.{
  Task, Outcome, ok, panic, ◌>>=◌, map_tasks_from, reduce_tasks_from, make_coordinator, done,
}
use tda596_distributed_syste.MapReduce.Coordinator.Handlers.{AllCompleted}
use tda596_distributed_syste.MapReduce.Coordinator.Safety.{Returns}
use tda596_distributed_syste.MapReduce.Coordinator.Completion.{
  make_coordinator-IsValid, make_coordinator_fresh, done_iff,
}
use tda596_distributed_syste.MapReduce.Coordinator.System.{System, Event, step, run}
use tda596_distributed_syste.MapReduce.Coordinator.System.Refinement.{
  progress, progress_of, job_of, finished_lem, completed_lem, progress_of-get, Steps, step-Steps,
}
use tda596_distributed_syste.MapReduce.Coordinator.System.Runs.{
  EventsWithin, launched, start-Guarded,
}
use tda596_distributed_syste.MapReduce.Coordinator.System.Events.{step-Guarded}
use tda596_distributed_syste.MapReduce.Coordinator.System.Guarded.{All, Guarded, EventWithin}

-- A guarded system that the job has reached.
abbrev Follows : ℕ → ℕ → Job → System → Type 0
Follows m n j s = Guarded m n s × JobRun j (job_of s.coord)

follow :
    (m n : ℕ) (s : System) (es : List Event) (r : Outcome System)
    → Returns (Guarded m n) r
    → Steps s.coord r
    → ((s' : System) → Guarded m n s' → Returns (Follows m n (job_of s'.coord)) (run s' es))
    → Returns (Follows m n (job_of s.coord)) (r >>= λ s'. run s' es)
follow m n s es panic g h k = elim h [ ]
follow m n s es (ok s') g h k = ahead (run s' es) (k s' g)
  where
    ahead :
        (r : Outcome System)
        → Returns (Follows m n (job_of s'.coord)) r
        → Returns (Follows m n (job_of s.coord)) r
    ahead panic x = x
    ahead (ok s'') (g'', rest) = (g'', next h rest)

run-Follows :
    (m n : ℕ) (s : System) (es : List Event)
    → Guarded m n s
    → All (EventWithin m n) es
    → Returns (Follows m n (job_of s.coord)) (run s es)
unfolding run
run-Follows m n s [] g h = (g, stop)
run-Follows m n s (e ∷ es) g h =
    follow m n s es (step s e) (step-Guarded m n s e g h.0) (step-Steps m n s e g h.0)
      (λ s' g'. run-Follows m n s' es g' h.1)

-- A job with all its tasks before it.
abbrev pub fresh_job : ℕ → ℕ → Job
fresh_job m n = record { maps = replicate m pending; reduces = replicate n pending }

fresh_maps :
    (i : ℕ) (files : List String)
    → progress_of (map_tasks_from i files) ≡ replicate (length files) pending
unfolding map_tasks_from
fresh_maps i [] = refl
fresh_maps i (f ∷ files) = ap (◌∷◌ pending) (fresh_maps (suc i) files)

fresh_reduces : (i n : ℕ) → progress_of (reduce_tasks_from i n) ≡ replicate n pending
unfolding reduce_tasks_from
fresh_reduces i zero = refl
fresh_reduces i (suc n) = ap (◌∷◌ pending) (fresh_reduces (suc i) n)

job_of-make_coordinator :
    (cloud_files files : List String) (n : ℕ) (position : String)
    → job_of (make_coordinator cloud_files files n position)
      ≡ fresh_job (length (if str_eq position "cloud" then cloud_files else files)) n
unfolding make_coordinator
job_of-make_coordinator cloud_files files n position =
    let files' = if str_eq position "cloud" then cloud_files else files in
    ap (λ ms. record { maps = ms; reduces = progress_of (reduce_tasks_from 0 n) })
      (fresh_maps 0 files')
    ∙ ap (λ rs. record { maps = replicate (length files') pending; reduces = rs })
        (fresh_reduces 0 n)

launched-Guarded :
    (cloud_files files : List String) (n : ℕ) (position : String)
    → let s = launched cloud_files files n position in
      Guarded (length s.coord.map_tasks) (length s.coord.reduce_tasks) s
launched-Guarded cloud_files files n position =
    start-Guarded (make_coordinator cloud_files files n position)
      (make_coordinator-IsValid cloud_files files n position)
      (make_coordinator_fresh cloud_files files n position)

-- What the events do together is a run of the abstract job.
run-JobRun :
    (cloud_files files : List String) (n : ℕ) (position : String) (es : List Event)
    → EventsWithin (launched cloud_files files n position) es
    → Returns
        (λ s'.
          JobRun
            (fresh_job (length (if str_eq position "cloud" then cloud_files else files)) n)
            (job_of s'.coord))
        (run (launched cloud_files files n position) es)
run-JobRun cloud_files files n position es h =
    let s = launched cloud_files files n position in
    followed (run s es) (
      run-Follows (length s.coord.map_tasks) (length s.coord.reduce_tasks) s es
        (launched-Guarded cloud_files files n position) h)
  where
    followed :
        (r : Outcome System)
        → Returns
            (Follows
              (length (launched cloud_files files n position).coord.map_tasks)
              (length (launched cloud_files files n position).coord.reduce_tasks)
              (job_of (make_coordinator cloud_files files n position)))
            r
        → Returns
            (λ s'.
              JobRun
                (fresh_job (length (if str_eq position "cloud" then cloud_files else files)) n)
                (job_of s'.coord))
            r
    followed panic x = elim x [ ]
    followed (ok s') x =
        subst (λ j. JobRun j (job_of s'.coord))
          (job_of-make_coordinator cloud_files files n position) x.1

-- The coordinator refines the abstract job, step by step: from a new coordinator, which is the job with
-- a map task for each file and `n` reduce tasks, all pending, after every interleaving of requests,
-- answers, completion reports with ids in range and time-outs, the next such event returns, and
-- what it does to the tasks is one step of the job or nothing: a pending task starts, a reduce task
-- only when all map tasks have finished, or a running task finishes or goes back.
pub run-JobStep :
    (cloud_files files : List String) (n : ℕ) (position : String) (es : List Event) (e : Event)
    (s : System)
    → EventsWithin (launched cloud_files files n position) es
    → EventsWithin (launched cloud_files files n position) (e ∷ [])
    → run (launched cloud_files files n position) es ≡ ok s
    → (job_of (launched cloud_files files n position).coord
        ≡ fresh_job (length (if str_eq position "cloud" then cloud_files else files)) n)
      × Returns (λ s'. JobStep (job_of s.coord) (job_of s'.coord)) (step s e)
run-JobStep cloud_files files n position es e s h h' runs =
    let s₀ = launched cloud_files files n position in
    let m = length s₀.coord.map_tasks in
    let k = length s₀.coord.reduce_tasks in
    let reached =
      subst (Returns (Follows m k (job_of s₀.coord))) runs
        (run-Follows m k s₀ es (launched-Guarded cloud_files files n position) h) in
    (job_of-make_coordinator cloud_files files n position, step-Steps m k s e reached.0 h'.0)

completed_stay :
    (ts ts' : List Task)
    → length ts' ≡ length ts
    → StaysFinished (progress_of ts) (progress_of ts')
    → AllCompleted ts
    → AllCompleted ts'
completed_stay ts ts' len stays all i t e =
    let (u, eu) = get_elem?_of_lt ts i (omega (arith, lt-length_of_get_elem? ts' i t e)) in
    let was = stays i (progress_of-get ts i u eu ∙ ap some (finished_lem u.status (all i u eu))) in
    completed_lem t.status
      (some-injective (progress t.status) finished (sym (progress_of-get ts' i t e) ∙ was))

-- `Done` is final: after any interleaving from a new coordinator, with ids in range, once `Done` says
-- true it still does after any further one.
pub done_forever :
    (cloud_files files : List String) (n : ℕ) (position : String) (es es' : List Event) (s : System)
    → EventsWithin (launched cloud_files files n position) es
    → EventsWithin (launched cloud_files files n position) es'
    → run (launched cloud_files files n position) es ≡ ok s
    → done s.coord ≡ true
    → Returns (λ s'. done s'.coord ≡ true) (run s es')
done_forever cloud_files files n position es es' s h h' e finished_now =
    let s₀ = launched cloud_files files n position in
    let m = length s₀.coord.map_tasks in
    let k = length s₀.coord.reduce_tasks in
    let reached =
      subst (Returns (Follows m k (job_of s₀.coord))) e
        (run-Follows m k s₀ es (launched-Guarded cloud_files files n position) h) in
    stays_done m k reached.0 (run s es') (run-Follows m k s es' reached.0 h')
  where
    stays_done :
        (m k : ℕ)
        → Guarded m k s
        → (r : Outcome System) → Returns (Follows m k (job_of s.coord)) r
        → Returns (λ s'. done s'.coord ≡ true) r
    stays_done m k g panic x = elim x [ ]
    stays_done m k g (ok s') (g', jobs) =
        let (maps, reduces) = (done_iff s.coord g.valid).0 finished_now in
        let (maps_stay, reduces_stay) = JobRun-StaysFinished jobs in
        (done_iff s'.coord g'.valid).1 (
          completed_stay s.coord.map_tasks s'.coord.map_tasks
              (omega (arith, g.map_size, g'.map_size)) maps_stay maps,
          completed_stay s.coord.reduce_tasks s'.coord.reduce_tasks
              (omega (arith, g.reduce_size, g'.reduce_size)) reduces_stay reduces,
        )
