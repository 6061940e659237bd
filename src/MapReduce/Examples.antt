-- ===== src/MapReduce/Examples.antt =====
-- Small jobs, and the theorems at work on them.
use text.Mathlib.Text.{◌==◌ as str_eq}
use tda596_distributed_syste.Prelude.{
  ◌||◌, Bool, ℕ, none, some, if◌then◌else◌, ◌≡◌, refl, inl, inr, true, List, [], ◌∷◌, String,
  length, arith,
}
use tda596_distributed_syste.Prelude.Int.{ℤ, pos, minus_one}
use tda596_distributed_syste.MapReduce.Coordinator.{
  TaskType, CompleteTaskArgs, TaskStatus, not_started, completed, map_task, reduce_task,
  in_progress, Task, Coordinator, panic, make_coordinator, map_tasks_from, reduce_tasks_from, done,
  complete_task, request_task,
}
use tda596_distributed_syste.MapReduce.Coordinator.Invariant.{IsValid}
use tda596_distributed_syste.MapReduce.Coordinator.Safety.{Returns}
use tda596_distributed_syste.MapReduce.Coordinator.Completion.{
  map_counted, complete_task-map, complete_task_past_end,
}
use tda596_distributed_syste.MapReduce.Coordinator.Requests.{Grants, request_task-Grants}
use tda596_distributed_syste.MapReduce.Coordinator.System.{
  System, Event, request, answer, complete, expire, run,
}
use tda596_distributed_syste.MapReduce.Coordinator.System.Guarded.{ArgsWithin, Guarded}
use tda596_distributed_syste.MapReduce.Coordinator.System.Runs.{EventsWithin, launched, run-Guarded}
use tda596_distributed_syste.FileServer.{Env, written, home_page}
use tda596_distributed_syste.FileServer.Laws.{get_request}
use tda596_distributed_syste.MapReduce.CloudFiles.{
  get_cloud_file_list, matching, get_cloud_file_list-home_page,
}
use tda596_distributed_syste.MapReduce.Shuffle.{KeyValue, collect, values_at}
use tda596_distributed_syste.MapReduce.Shuffle.Grouping.{joined, values_of}
use tda596_distributed_syste.MapReduce.Shuffle.Laws.{intermediate, shuffle_complete}
use tda596_distributed_syste.MapReduce.Worker.Local.{Store}

abbrev first_task : TaskStatus → ℤ → Task
first_task s w = record {
  type = map_task;
  status = s;
  index = pos 0;
  file = "a.txt";
  worker_id = w;
}

abbrev only_reduce : TaskStatus → ℤ → Task
only_reduce s w = record { type = reduce_task; status = s; index = pos 0; file = ""; worker_id = w }

-- One file and one reduce task, which are `t` and `u`, with the counters.
abbrev job : ℕ → ℕ → Task → Task → Coordinator
job maps reduces t u = record {
  host_addr = "localhost";
  host_port = "8000";
  n_map = 1;
  n_reduce = 1;
  n_map_completed = maps;
  n_reduce_completed = reduces;
  map_tasks = t ∷ [];
  reduce_tasks = u ∷ [];
}

abbrev new_job : Coordinator
new_job = job 0 0 (first_task not_started minus_one) (only_reduce not_started minus_one)

abbrev mapping_job : Coordinator
mapping_job = job 0 0 (first_task in_progress (pos 7)) (only_reduce not_started minus_one)

abbrev reducing_job : Coordinator
reducing_job = job 1 0 (first_task completed (pos 7)) (only_reduce in_progress (pos 7))

new_job-IsValid : IsValid new_job
new_job-IsValid = record {
  map_length = refl;
  reduce_length = refl;
  map_count = refl;
  reduce_count = refl;
  map_table = (refl, refl, tt);
  reduce_table = (refl, refl, tt);
  phase = inr refl;
}

mapping_job-IsValid : IsValid mapping_job
mapping_job-IsValid = record {
  map_length = refl;
  reduce_length = refl;
  map_count = refl;
  reduce_count = refl;
  map_table = (refl, refl, tt);
  reduce_table = (refl, refl, tt);
  phase = inr refl;
}

reducing_job-IsValid : IsValid reducing_job
reducing_job-IsValid = record {
  map_length = refl;
  reduce_length = refl;
  map_count = refl;
  reduce_count = refl;
  map_table = (refl, refl, tt);
  reduce_table = (refl, refl, tt);
  phase = inl refl;
}

abbrev report_by : TaskType → ℤ → CompleteTaskArgs
report_by k w = record { task_type = k; task_id = pos 0; worker_id = w }

complete_task-map_example :
    Returns
      (λ (c', b).
        IsValid c'
        × (c' ≡ map_counted mapping_job 0 (first_task in_progress (pos 7)))
        × (b ≡ done c'))
      (complete_task mapping_job (report_by map_task (pos 7)))
complete_task-map_example =
    complete_task-map mapping_job 0 (first_task in_progress (pos 7)) (pos 7) mapping_job-IsValid
      refl

complete_task_past_end_example :
    complete_task new_job (record { task_type = map_task; task_id = pos 5; worker_id = pos 7 })
    ≡ panic
complete_task_past_end_example =
    complete_task_past_end new_job map_task new_job.map_tasks 5 (pos 7) refl (omega arith)

request_task-Grants_example : Grants new_job (pos 7) (request_task new_job (pos 7))
request_task-Grants_example = request_task-Grants new_job (pos 7) new_job-IsValid

-- A worker takes the only map task, times out, and reports too late.
abbrev late : List Event
late =
    request (pos 7)
    ∷ answer 0
    ∷ expire 0
    ∷ request (pos 8)
    ∷ complete (report_by map_task (pos 7))
    ∷ answer 0
    ∷ complete (report_by map_task (pos 8))
    ∷ []

abbrev launched_job : System
launched_job = launched [] ("a.txt" ∷ []) 1 "local"

late-EventsWithin : EventsWithin launched_job late
unfolding make_coordinator map_tasks_from reduce_tasks_from
late-EventsWithin =
    let own_slice : ArgsWithin 1 1 (report_by map_task (pos 8)) =
      inl (0, refl, refl, omega arith) in
    (tt, (tt, (tt, (tt, (inl (0, refl, refl, omega arith), (tt, (own_slice, tt)))))))

run-Guarded_example :
    Returns
      (Guarded (length launched_job.coord.map_tasks) (length launched_job.coord.reduce_tasks))
      (run launched_job late)
run-Guarded_example = run-Guarded [] ("a.txt" ∷ []) 1 "local" late late-EventsWithin

-- The effect on the files: what was mapped, then what was reduced.
abbrev note_map : List String → String → ℤ → List String
note_map log file i = file ∷ log

abbrev note_reduce : List String → ℤ → List String
note_reduce log i = "reduced" ∷ log

-- A file of two words, the same one twice. A stand-in for FNV sends "a" to an odd number.
abbrev first_letter : String → ℕ
first_letter s = if str_eq s "a" then 1 else 2

abbrev word : String → KeyValue
word s = record { key = s; value = "1" }

abbrev two_words : String → List KeyValue
two_words file = word "a" ∷ word "a" ∷ []

abbrev last_value : String → List String → String
last_value key [] = ""
last_value key (v ∷ vs) = v

abbrev as_it_is : List String → List String
as_it_is keys = keys

abbrev empty_store : Store
empty_store = record { outputs = λ i. none; results = λ r. none }

-- Two map tasks emit words.
abbrev two_maps : List (List KeyValue)
two_maps = (word "a" ∷ word "b" ∷ []) ∷ (word "a" ∷ []) ∷ []

shuffle_complete_example :
    (files : List (List KeyValue)) × (intermediate first_letter 2 1 two_maps ≡ some files)
    × (values_at (collect [] files) "a" ≡ values_of "a" (joined two_maps))
shuffle_complete_example = shuffle_complete first_letter 2 1 two_maps "a" (omega arith)

-- Three files on the file server, two of which the pattern matches.
abbrev cloud_env : Env
cloud_env = record {
  disk = record {
    can_create = λ name. true;
    can_write = λ name. true;
    can_remove = λ name. true;
    can_list = λ name. true;
  };
  read_dir = λ dir. some ("pg-a.txt" ∷ "mr-0-0" ∷ "pg-b.txt" ∷ []);
  directive = λ format. "";
}

abbrev is_input : String → Bool
is_input name = str_eq name "pg-a.txt" || str_eq name "pg-b.txt"

get_cloud_file_list-home_page_example :
    (body : String) × (home_page cloud_env [] (get_request "/root") ≡ written [] body)
    × (get_cloud_file_list is_input body ≡ "pg-a.txt" ∷ "pg-b.txt" ∷ [])
    × ((make_coordinator (get_cloud_file_list is_input body) [] 2 "cloud").map_tasks
        ≡ map_tasks_from 0 ("pg-a.txt" ∷ "pg-b.txt" ∷ []))
unfolding matching
get_cloud_file_list-home_page_example =
    get_cloud_file_list-home_page cloud_env [] ("pg-a.txt" ∷ "mr-0-0" ∷ "pg-b.txt" ∷ []) [] is_input
      2 refl (refl, (refl, (refl, tt))) refl
