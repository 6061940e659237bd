-- ===== src/Chord/Stabilize/Laws.antt =====
-- About the successor that `stablize` settles on.
use text.Mathlib.TextEquality.{eq_iff}
use tda596_distributed_syste.Prelude.{
  ℕ, ltb, ◌≡◌, ◌≢◌, if◌then◌else◌, none, some, List, [], ◌∷◌, ◌++◌, String, arith,
}
use tda596_distributed_syste.Chord.Ring.{hash_id}
use tda596_distributed_syste.Chord.Ring.Arcs.{arc, between_iff}
use tda596_distributed_syste.Chord.Node.{Node, get_predecessor_rpc}
use tda596_distributed_syste.Chord.Net.{ok, err, Net, chord_call}
use tda596_distributed_syste.Chord.Routing.{get_name_rpc}
use tda596_distributed_syste.Chord.Storage.{Disk}
use tda596_distributed_syste.Chord.Stabilize.{adopt, refresh_successors}

-- When the first successor answers and names a predecessor that answers too, `stablize` puts that
-- predecessor first exactly when it lies strictly between the node and the successor on the way
-- clockwise, and otherwise keeps the successor.
adopt_closer :
    (str_hash : String → ℕ) (disk : Disk) (net : Net) (node n : Node) (s pred pred_name : String)
    → chord_call net s ≡ ok n
    → get_predecessor_rpc n ≡ some pred
    → pred ≢ ""
    → get_name_rpc str_hash net pred ≡ ok pred_name
    → adopt str_hash disk net node s
      ≡ ok (
          if ltb
            (arc (hash_id str_hash node.name) (hash_id str_hash pred_name))
            (arc (hash_id str_hash node.name) (hash_id str_hash n.name))
          then some pred
          else none)
unfolding adopt
adopt_closer str_hash disk net node n s pred pred_name called known named calls = ground (
  arith,
  called,
  known,
  calls,
  eq_iff pred "",
  (between_iff (hash_id str_hash node.name) (hash_id str_hash pred_name) (hash_id str_hash n.name)
      (omega arith) (omega arith) (omega arith)).0,
)

-- A first successor that does not answer is taken off the list: those behind it move up, and the
-- list keeps its length with an empty address at its end.
pub refresh_successors_dead :
    (str_hash : String → ℕ) (disk : Disk) (net : Net) (node : Node) (s : String) (old : List String)
    → node.successors ≡ s ∷ old
    → chord_call net s ≡ err
    → s ≢ ""
    → refresh_successors str_hash disk net node ≡ some (old ++ "" ∷ [])
unfolding refresh_successors
refresh_successors_dead str_hash disk net node s old e dead known =
    ground (arith, e, dead, eq_iff s "")
