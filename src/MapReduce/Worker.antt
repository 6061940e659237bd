-- ===== src/MapReduce/Worker.antt =====
-- Lab3/src/mr/worker.go: the loop of `Worker`. What it calls is a record of services over the state
-- of the world; a call that fails is `none`. What getNReduce answers is used by doMap alone, so it is
-- part of `do_map` here. The pause between two rounds is left out.
pub mod Single
pub mod Preservation
pub mod Delivery
pub mod Local
use text.Mathlib.Text.{◌==◌ as str_eq}
use tda596_distributed_syste.Prelude.{
  ℕ, zero, suc, if◌then◌else◌, Bool, true, false, ◌||◌, Option, none, some, String,
}
use tda596_distributed_syste.Prelude.Int.{ℤ}
use tda596_distributed_syste.MapReduce.Coordinator.{
  TaskType, map_task, reduce_task, no_task, exit_task, RequestTaskReply,
}

-- `requestTask` and `completeTask` (the RPCs, with this process's id as the worker id), and what
-- `doMap` and `doReduce` do to the files.
pub record Services (S : Type 0) : Type 0 where
  pub request : S → Option (RequestTaskReply × S)
  pub complete : S → TaskType → ℤ → Option (Bool × S)
  pub do_map : S → String → ℤ → S
  pub do_reduce : S → ℤ → S

-- Why `Worker` returned.
pub data WorkerEnd : Type 0 where
  wrong_argument request_failed no_more_tasks report_failed all_completed : WorkerEnd

-- One round of the loop: it returns, or goes on.
pub data Round (S : Type 0) : Type 0 where
  stop : WorkerEnd → S → Round S
  again : S → Round S

module _ {S : Type 0} (v : Services S) where
  -- `exit, ok = completeTask(…)` and the test after it.
  report : TaskType → ℤ → S → Round S
  report k i s = elim (v.complete s k i) [
    | none ↦ stop report_failed s
    | some (exit, s') ↦ if exit then stop all_completed s' else again s'
  ]

  dispatch : TaskType → RequestTaskReply → S → Round S
  dispatch exit_task r s = stop no_more_tasks s
  dispatch no_task r s = again s
  dispatch map_task r s =
      if str_eq r.task_file ""
      then again s
      else report map_task r.task_id (v.do_map s r.task_file r.task_id)
  dispatch reduce_task r s = report reduce_task r.task_id (v.do_reduce s r.task_id)

  pub round : S → Round S
  round s = elim (v.request s) [
    | none ↦ stop request_failed s
    | some (r, s') ↦ dispatch r.task_type r s'
  ]

  -- The loop with fuel; `none` means that the fuel ran out.
  pub work : ℕ → S → Option (WorkerEnd × S)
  work zero s = none
  work (suc fuel) s = elim (round s) [ stop e s' ↦ some (e, s') | again s' ↦ work fuel s' ]

  -- `position` selects the addresses to call; any other value than these two returns at once.
  pub worker : String → ℕ → S → Option (WorkerEnd × S)
  worker position fuel s =
      if str_eq position "cloud" || str_eq position "local"
      then work fuel s
      else some (wrong_argument, s)
