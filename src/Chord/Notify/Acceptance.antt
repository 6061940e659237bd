-- ===== src/Chord/Notify/Acceptance.antt =====
-- When NotifyRPC of Lab2/Node/stabilizing.go takes the caller as predecessor.
use text.Mathlib.TextEquality.{eq_iff}
use tda596_distributed_syste.Prelude.{ℕ, ◌≡◌, ◌⊎◌, inl, inr, true, false, String, arith}
use tda596_distributed_syste.Chord.Ring.{hash_id, between}
use tda596_distributed_syste.Chord.Node.{Node}
use tda596_distributed_syste.Chord.Net.{ok, Net}
use tda596_distributed_syste.Chord.Routing.{get_name_rpc}
use tda596_distributed_syste.Chord.Storage.{Disk}
use tda596_distributed_syste.Chord.Notify.{notify}

-- A node without a predecessor, or one whose predecessor answers and lies before the caller.
pub notify_takes :
    (str_hash : String → ℕ) (disk : Disk) (net : Net) (node : Node) (address p p_name name : String)
    → (node.predecessor ≡ "") ⊎ (node.predecessor ≡ p)
    → get_name_rpc str_hash net p ≡ ok p_name
    → get_name_rpc str_hash net address ≡ ok name
    → between (hash_id str_hash p_name) (hash_id str_hash name) node.identifier false ≡ true
    → notify str_hash disk net node address ≡ ok (record node { predecessor = address }, true)
unfolding notify
notify_takes str_hash disk net node address p p_name name (inl vacant) knows calls inside =
    ground (arith, vacant, eq_iff node.predecessor "")
notify_takes str_hash disk net node address p p_name name (inr known) knows calls inside =
    ground (arith, known, eq_iff node.predecessor "", knows, calls, inside)
