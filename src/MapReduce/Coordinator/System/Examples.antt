-- ===== src/MapReduce/Coordinator/System/Examples.antt =====
-- A job with one file and no reduce task, from its start to its end.
use tda596_distributed_syste.Prelude.{◌≡◌, refl, inl, true, List, [], ◌∷◌, arith}
use tda596_distributed_syste.Prelude.Int.{pos}
use tda596_distributed_syste.MapReduce.Job.{JobStep}
use tda596_distributed_syste.MapReduce.Coordinator.{
  map_task, completed, map_ref, CompleteTaskArgs, ok, done, select_task, scan, assign_task,
  complete_task, complete_map, make_coordinator, map_tasks_from, reduce_tasks_from,
}
use tda596_distributed_syste.MapReduce.Coordinator.Safety.{Returns}
use tda596_distributed_syste.MapReduce.Coordinator.System.{
  System, Event, request, answer, complete, expire, step, answer_with, run,
}
use tda596_distributed_syste.MapReduce.Coordinator.System.Runs.{EventsWithin, launched}
use tda596_distributed_syste.MapReduce.Coordinator.System.Refinement.{job_of}
use tda596_distributed_syste.MapReduce.Coordinator.System.Contract.{
  fresh_job, run-JobStep, done_forever,
}

abbrev report : CompleteTaskArgs
report = record { task_type = map_task; task_id = pos 0; worker_id = pos 7 }

abbrev one_file : System
one_file = launched [] ("a.txt" ∷ []) 0 "local"

abbrev whole_job : List Event
whole_job = request (pos 7) ∷ answer 0 ∷ complete report ∷ []

whole_job-EventsWithin : EventsWithin one_file whole_job
unfolding make_coordinator map_tasks_from
whole_job-EventsWithin = (tt, (tt, (inl (0, refl, refl, omega arith), tt)))

abbrev finished_job : System
finished_job = record {
  coord = record {
    host_addr = "localhost";
    host_port = "8000";
    n_map = 1;
    n_reduce = 0;
    n_map_completed = 1;
    n_reduce_completed = 0;
    map_tasks =
        record {
          type = map_task;
          status = completed;
          index = pos 0;
          file = "a.txt";
          worker_id = pos 7;
        }
        ∷ [];
    reduce_tasks = [];
  };
  selected = [];
  timers = map_ref 0 ∷ [];
}

whole_job_runs : run one_file whole_job ≡ ok finished_job
unfolding run step answer_with select_task scan assign_task complete_task complete_map
    make_coordinator map_tasks_from reduce_tasks_from
whole_job_runs = refl

-- A late time-out, once the job is done.
run-JobStep_example :
    (job_of one_file.coord ≡ fresh_job 1 0)
    × Returns
        (λ s'. JobStep (job_of finished_job.coord) (job_of s'.coord))
        (step finished_job (expire 0))
run-JobStep_example =
    run-JobStep [] ("a.txt" ∷ []) 0 "local" whole_job (expire 0) finished_job whole_job-EventsWithin
      (tt, tt) whole_job_runs

done_forever_example : Returns (λ s'. done s'.coord ≡ true) (run finished_job (expire 0 ∷ []))
unfolding done
done_forever_example =
    done_forever [] ("a.txt" ∷ []) 0 "local" whole_job (expire 0 ∷ []) finished_job
      whole_job-EventsWithin (tt, tt) whole_job_runs refl
