-- ===== src/Chord/Examples/Tasks.antt =====
-- The periodic tasks of stabilizing.go, and the files that move, on rings of a few nodes.
use text.Mathlib.Text.{◌==◌ as str_eq}
use tda596_distributed_syste.Prelude.{
  ◌<◌, length, ◌≡◌, ◌≢◌, refl, ap, true, false, none, some, [], ◌∷◌, String, arith,
}
use tda596_distributed_syste.Prelude.Text.{split}
use tda596_distributed_syste.Chord.Ring.{between}
use tda596_distributed_syste.Chord.Node.{Node, create_chord, init_finger_table}
use tda596_distributed_syste.Chord.Node.Creation.{alone_cases, init_finger_table-HasFingers, alone}
use tda596_distributed_syste.Chord.Net.{ok, Net, update, chord_call}
use tda596_distributed_syste.Chord.Storage.{read_file, has_id}
use tda596_distributed_syste.Chord.Notify.{leaves, move_file}
use tda596_distributed_syste.Chord.Notify.Laws.{has_ptr, move_file_loses}
use tda596_distributed_syste.Chord.Routing.Lookup.{chord_call_inv}
use tda596_distributed_syste.Chord.Fingers.{fix_fingers}
use tda596_distributed_syste.Chord.Fingers.Soundness.{SoundAfterCall, own_lookup, fix_fingers-Sound}
use tda596_distributed_syste.Chord.Upkeep.{
  stabilizing, fixing_fingers, checking_predecessor, run_ticks,
}
use tda596_distributed_syste.Chord.Upkeep.Health.{IsHealthy, create_chord-IsHealthy}
use tda596_distributed_syste.Chord.Upkeep.Laws.{run_ticks-IsHealthy}
use tda596_distributed_syste.Chord.Examples.{
  by_length, node_at, founder, founder_parts, founder_named, good_disk,
}

-- Three nodes: at 8000 with identifier 1, at 8002 with identifier 2, and the founder with 3.
abbrev first_node : Node
first_node = node_at "a" 1 "localhost:8000"

abbrev middle_node : Node
middle_node = record (node_at "ax" 2 "localhost:8002") {
  bucket = record { ptr = 0; id = 9; name = "old" } ∷ [];
}

abbrev last_node : Node
last_node = record founder {
  predecessor = "localhost:8000";
  bucket = record { ptr = 0; id = 9; name = "letter" } ∷ [];
  chord_storage = record { name = "letter"; content = "Dear all" } ∷ [];
}

abbrev three : Net
three = update (update (alone last_node) "localhost:8000" first_node) "localhost:8002" middle_node

apart : ◌≢◌ {A = String} "localhost:8001" "localhost:8002"
apart e = let same : true ≡ false = ap (str_eq "localhost:8001") e in absurd (ground (arith, same))

-- The founder gives its letter away to the node at 8002, which holds a file of that identifier.
move_file_loses_example :
    (node' : Node) × (move_file by_length good_disk "localhost:8001" 10 "localhost:8002" three
        (record { ptr = 0; id = 9; name = "letter" })
        "localhost:8001"
      ≡ some node')
    × (has_ptr 0 node'.bucket ≡ false)
    × (read_file node'.chord_storage "letter" ≡ none)
    × (move_file by_length good_disk "localhost:8001" 10 "localhost:8002" three
          (record { ptr = 0; id = 9; name = "letter" })
          "localhost:8002"
        ≡ some middle_node)
move_file_loses_example =
    move_file_loses by_length good_disk three "localhost:8001" "localhost:8002" last_node
      middle_node 10 (record { ptr = 0; id = 9; name = "letter" }) apart refl refl
      (unfold chord_call split in refl) refl (refl, tt) (tt, tt) refl
      (unfold leaves between in refl) (unfold has_id in refl)

abbrev ready : Node
ready = init_finger_table founder

ready_successors :
    (n : Node)
    → chord_call (alone (create_chord ready)) ready.address ≡ ok n
    → 0 < length n.successors
unfolding init_finger_table
ready_successors n e =
    let (_, is) =
      alone_cases (create_chord ready) ready.address n
        (chord_call_inv (alone (create_chord ready)) ready.address n e) in
    rw is (unfold create_chord in omega arith)

fix_fingers-Sound_example :
    SoundAfterCall by_length
      (own_lookup by_length 64 (alone (create_chord ready)) ready)
      (fix_fingers by_length 64 (alone (create_chord ready)) ready)
fix_fingers-Sound_example =
    fix_fingers-Sound by_length 64 (alone (create_chord ready)) ready
      (init_finger_table-HasFingers founder refl) ready_successors

run_ticks-IsHealthy_example :
    (net' : Net) × (run_ticks by_length good_disk 64
        (λ a. false)
        "localhost"
        (alone (create_chord ready))
        (record { address = "localhost:8001"; task = stabilizing }
          ∷ record { address = "localhost:8001"; task = fixing_fingers }
          ∷ record { address = "localhost:8001"; task = checking_predecessor }
          ∷ [])
      ≡ some net')
    × IsHealthy by_length 3 net'
unfolding init_finger_table
run_ticks-IsHealthy_example =
    run_ticks-IsHealthy by_length good_disk 64 3 (λ a. false) "localhost"
      (alone (create_chord ready))
      (record { address = "localhost:8001"; task = stabilizing }
        ∷ record { address = "localhost:8001"; task = fixing_fingers }
        ∷ record { address = "localhost:8001"; task = checking_predecessor }
        ∷ [])
      (create_chord-IsHealthy by_length ready founder_parts founder_named (omega arith)
        (init_finger_table-HasFingers founder refl))
