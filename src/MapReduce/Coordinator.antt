-- ===== src/MapReduce/Coordinator.antt =====
-- Lab3/src/mr/coordinator.go and rpc.go: the coordinator's state and its RPC handlers.
-- A handler that takes the lock once is one function from state to state. A slice access out of
-- range is a Go panic. `RequestTask` takes the lock twice, so it is two functions here.
pub mod Scan
pub mod Invariant
pub mod Handlers
pub mod Safety
pub mod Completion
pub mod Requests
pub mod System
use text.Mathlib.Text.{◌==◌ as str_eq}
use tda596_distributed_syste.Prelude.{
  ℕ, zero, suc, ◌+◌, ◌==◌, if◌then◌else◌, Bool, true, false, ◌&&◌, Option, none, some, List, [],
  ◌∷◌, String, length, get_elem?, set,
}
use tda596_distributed_syste.Prelude.Int.{ℤ, pos, negsuc, minus_one, eq_ℤ}

pub data TaskType : Type 0 where
  map_task reduce_task no_task exit_task : TaskType

pub data TaskStatus : Type 0 where
  not_started in_progress completed : TaskStatus

pub record Task : Type 0 where
  pub type : TaskType
  pub status : TaskStatus
  pub index : ℤ
  pub file : String
  pub worker_id : ℤ

pub record Coordinator : Type 0 where
  pub host_addr : String
  pub host_port : String
  pub n_map : ℕ
  pub n_reduce : ℕ
  pub n_map_completed : ℕ
  pub n_reduce_completed : ℕ
  pub map_tasks : List Task
  pub reduce_tasks : List Task

pub record RequestTaskReply : Type 0 where
  pub task_type : TaskType
  pub task_id : ℤ
  pub task_file : String

pub record CompleteTaskArgs : Type 0 where
  pub task_type : TaskType
  pub task_id : ℤ
  pub worker_id : ℤ

-- The `*Task` that `selectTask` returns: into one of the two slices, or to a task of its own.
pub data TaskRef : Type 0 where
  map_ref reduce_ref : ℕ → TaskRef
  own : Task → TaskRef

-- A handler returns, or panics at a slice access out of range.
pub data Outcome {ℓ} (A : Type ℓ) : Type ℓ where
  ok : A → Outcome A
  panic : Outcome A

infixl 5 ◌>>=◌
abbrev pub ◌>>=◌ {ℓ κ} : {A : Type ℓ} {B : Type κ} → Outcome A → (A → Outcome B) → Outcome B
ok a >>= f = f a
panic >>= f = panic

abbrev pub index_slice {ℓ} : {A : Type ℓ} → List A → ℕ → Outcome A
index_slice xs i = elim (get_elem? xs i) [ none ↦ panic | some x ↦ ok x ]

-- The same with Go's signed index.
abbrev pub index_signed : List Task → ℤ → Outcome (ℕ × Task)
index_signed ts (pos i) = index_slice ts i >>= λ t. ok (i, t)
index_signed ts (negsuc i) = panic

abbrev pub is_not_started : TaskStatus → Bool
is_not_started not_started = true
is_not_started _ = false

abbrev pub is_in_progress : TaskStatus → Bool
is_in_progress in_progress = true
is_in_progress _ = false

abbrev pub is_completed : TaskStatus → Bool
is_completed completed = true
is_completed _ = false

-- `&Task{NoTask, NotStarted, -1, "", -1}` and the same with `ExitTask`.
abbrev pub idle_task : TaskType → Task
idle_task k = record {
  type = k;
  status = not_started;
  index = minus_one;
  file = "";
  worker_id = minus_one;
}

pub get_n_reduce : Coordinator → ℕ
get_n_reduce c = length c.reduce_tasks

-- `for i := 0; i < n; i++ { if tasks[i].Status == NotStarted … }` with `rounds` rounds left; `none`
-- is the end of the loop.
pub scan : ℕ → ℕ → List Task → Outcome (Option (ℕ × Task))
scan zero i ts = ok none
scan (suc rounds) i ts =
    let rest = scan rounds (suc i) ts in
    index_slice ts i >>= λ t. if is_not_started t.status then ok (some (i, t)) else rest

abbrev pub dispatched : ℕ → Task → Task
dispatched i t = record t { status = in_progress; index = pos i }

select_reduce : Coordinator → Outcome (Coordinator × TaskRef)
select_reduce c = scan c.n_reduce 0 c.reduce_tasks >>= elim [
  | some (i, t) ↦
      ok (record c { reduce_tasks = set c.reduce_tasks i (dispatched i t) }, reduce_ref i)
  | none ↦
      if c.n_reduce_completed == c.n_reduce
      then ok (c, own (idle_task exit_task))
      else ok (c, own (idle_task no_task))
]

pub select_task : Coordinator → Outcome (Coordinator × TaskRef)
unfolding select_reduce
select_task c = scan c.n_map 0 c.map_tasks >>= elim [
  | some (i, t) ↦ ok (record c { map_tasks = set c.map_tasks i (dispatched i t) }, map_ref i)
  | none ↦ if c.n_map_completed == c.n_map then select_reduce c else ok (c, own (idle_task no_task))
]

abbrev pub reply_of : Task → RequestTaskReply
reply_of t = record { task_type = t.type; task_id = t.index; task_file = t.file }

-- The part of `RequestTask` under its own lock: it writes the worker's id through the pointer and
-- fills in the reply. (Whether it starts `waitForTask` is `needs_timer`.)
pub assign_task : Coordinator → TaskRef → ℤ → Outcome (Coordinator × RequestTaskReply)
assign_task c (map_ref i) w = index_slice c.map_tasks i >>= λ t.
    ok (record c { map_tasks = set c.map_tasks i (record t { worker_id = w }) }, reply_of t)
assign_task c (reduce_ref i) w = index_slice c.reduce_tasks i >>= λ t.
    ok (record c { reduce_tasks = set c.reduce_tasks i (record t { worker_id = w }) }, reply_of t)
assign_task c (own t) w = ok (c, reply_of t)

abbrev pub needs_timer : TaskType → Bool
needs_timer map_task = true
needs_timer reduce_task = true
needs_timer _ = false

-- The tasks for which `RequestTask` starts `waitForTask`: the one that it hands out, if any.
abbrev pub started_timers : TaskRef → RequestTaskReply → List TaskRef
started_timers r reply = if needs_timer reply.task_type then r ∷ [] else []

-- `RequestTask` with nothing in between its two critical sections: the coordinator, the reply and the
-- goroutines that it has started.
pub request_task : Coordinator → ℤ → Outcome (Coordinator × RequestTaskReply × List TaskRef)
request_task c w = select_task c >>= λ (c', r).
    assign_task c' r w >>= λ (c'', reply). ok (c'', reply, started_timers r reply)

abbrev pub can_exit : Coordinator → Bool
can_exit c = c.n_map_completed == c.n_map && c.n_reduce_completed == c.n_reduce

-- Only the worker that a task in progress is assigned to completes it.
abbrev pub accepts : Task → ℤ → Bool
accepts t w = is_in_progress t.status && eq_ℤ t.worker_id w

pub complete_map : Coordinator → CompleteTaskArgs → Outcome Coordinator
complete_map c a = index_signed c.map_tasks a.task_id >>= λ (i, t).
    if accepts t a.worker_id
    then ok (record c {
      map_tasks = set c.map_tasks i (record t { status = completed });
      n_map_completed = c.n_map_completed + 1;
    })
    else ok c

pub complete_reduce : Coordinator → CompleteTaskArgs → Outcome Coordinator
complete_reduce c a = index_signed c.reduce_tasks a.task_id >>= λ (i, t).
    if accepts t a.worker_id
    then ok (record c {
      reduce_tasks = set c.reduce_tasks i (record t { status = completed });
      n_reduce_completed = c.n_reduce_completed + 1;
    })
    else ok c

-- The reply is `CanExit`; for another type of task it keeps its zero value.
pub complete_task : Coordinator → CompleteTaskArgs → Outcome (Coordinator × Bool)
complete_task c a = elim a.task_type [
  | map_task ↦ complete_map c a >>= λ c'. ok (c', can_exit c')
  | reduce_task ↦ complete_reduce c a >>= λ c'. ok (c', can_exit c')
  | _ ↦ ok (c, false)
]

abbrev pub reset_task : Task → Task
reset_task t =
    if is_in_progress t.status then record t { status = not_started; worker_id = minus_one } else t

-- `waitForTask` after its ten seconds.
unfoldable pub wait_for_task : Coordinator → TaskRef → Outcome Coordinator
wait_for_task c (map_ref i) = index_slice c.map_tasks i >>= λ t.
    ok (record c { map_tasks = set c.map_tasks i (reset_task t) })
wait_for_task c (reduce_ref i) = index_slice c.reduce_tasks i >>= λ t.
    ok (record c { reduce_tasks = set c.reduce_tasks i (reset_task t) })
wait_for_task c (own t) = ok c

-- `Done`; with position "cloud" it also downloads the output files, which is left out.
pub done : Coordinator → Bool
done c = c.n_map == c.n_map_completed && c.n_reduce == c.n_reduce_completed

unfoldable pub map_tasks_from : ℕ → List String → List Task
map_tasks_from i [] = []
map_tasks_from i (f ∷ fs) =
    record { type = map_task; status = not_started; index = pos i; file = f; worker_id = minus_one }
    ∷ map_tasks_from (suc i) fs

-- `n` tasks, the first with index `i`.
unfoldable pub reduce_tasks_from : ℕ → ℕ → List Task
reduce_tasks_from i zero = []
reduce_tasks_from i (suc n) =
    record {
      type = reduce_task;
      status = not_started;
      index = pos i;
      file = "";
      worker_id = minus_one;
    }
    ∷ reduce_tasks_from (suc i) n

-- `cloud_files` is what `getCloudFileList("pg-*")` returns. Starting the RPC server and clearing the
-- output files and the temporary directory are left out.
unfoldable pub make_coordinator : List String → List String → ℕ → String → Coordinator
unfolding map_tasks_from reduce_tasks_from
make_coordinator cloud_files files n_reduce position =
    let cloud = str_eq position "cloud" in
    let files' = if cloud then cloud_files else files in
    record {
      host_addr = if cloud then "0.0.0.0" else "localhost";
      host_port = "8000";
      n_map = length files';
      n_reduce = n_reduce;
      n_map_completed = 0;
      n_reduce_completed = 0;
      map_tasks = map_tasks_from 0 files';
      reduce_tasks = reduce_tasks_from 0 n_reduce;
    }
