-- ===== src/Chord/Upkeep.antt =====
-- The periodic tasks that main.go of Lab2/Node starts at a node, on the network. A task runs as a whole
-- here; the nodes may take turns in any order.
pub mod Health
pub mod Laws
use tda596_distributed_syste.Prelude.{ℕ, Bool, Option, none, some, List, [], ◌∷◌, String}
use tda596_distributed_syste.Chord.Node.{Node}
use tda596_distributed_syste.Chord.Net.{End, returned, failed, crashed, waiting, Net, update}
use tda596_distributed_syste.Chord.Storage.{Disk, check_predecessor}
use tda596_distributed_syste.Chord.Stabilize.{stablize}
use tda596_distributed_syste.Chord.Fingers.{fix_fingers}

-- The functions that `main` hands to the three executors.
pub data Task : Type 0 where
  stabilizing fixing_fingers checking_predecessor : Task

-- A tick of an executor's timer: the node at an address and its task.
pub record Tick : Type 0 where
  pub address : String
  pub task : Task

-- A panic in a task takes the node's process down: `none`.
abbrev pub unless_crashed : End → Net → Option Net
unless_crashed crashed net = none
unless_crashed returned net = some net
unless_crashed failed net = some net
unless_crashed waiting net = some net

module _ (str_hash : String → ℕ) (disk : Disk) (fuel : ℕ) (dial : String → Bool)
    (local_address : String) where
  run_task : Net → String → Node → Task → Option Net
  run_task net address node stabilizing =
      let r = stablize str_hash disk net address in unless_crashed r.1 r.0
  run_task net address node fixing_fingers =
      let r = fix_fingers str_hash fuel net node in unless_crashed r.1 (update net address r.0)
  run_task net address node checking_predecessor =
      elim (check_predecessor dial local_address node) [
        | none ↦ none
        | some node' ↦ some (update net address node')
      ]

  -- A timer that ticks where no node runs has nothing to start.
  tick : Net → Tick → Option Net
  unfolding run_task
  tick net t = elim (net t.address) [
    | none ↦ some net
    | some node ↦ run_task net t.address node t.task
  ]

  -- Ticks of any nodes' timers, one after the other.
  pub run_ticks : Net → List Tick → Option Net
  unfolding tick
  run_ticks net [] = some net
  run_ticks net (t ∷ ts) = elim (tick net t) [ none ↦ none | some net' ↦ run_ticks net' ts ]
