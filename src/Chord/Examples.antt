-- ===== src/Chord/Examples.antt =====
-- A ring of one node, and the theorems at work on it.
mod Tasks
mod Joining
use text.Mathlib.Text.{◌==◌ as str_eq}
use tda596_distributed_syste.Prelude.{
  ◌⊎◌, inl, ℕ, ◌<◌, ◌≤◌, ◌≡◌, ◌≢◌, ◌||◌, ◌↔◌, refl, ap, true, false, none, some, List, [], ◌∷◌,
  String, length, arith, if◌then◌else◌, replicate,
}
use tda596_distributed_syste.Prelude.Text.{split, ◌&◌}
use tda596_distributed_syste.Chord.Ring.{hash_id, between}
use tda596_distributed_syste.Chord.Ring.Arcs.{arc, between_iff}
use tda596_distributed_syste.Chord.Node.{
  init_successors, host_port, decimal, decimal_from, digit, Node, get_name, BucketEntry, StoredFile,
  FileRpc, Arguments, create_chord, new_node, init_finger_table,
}
use tda596_distributed_syste.Chord.Node.Creation.{
  init_finger_table-HasFingers, alone_cases, alone, create_chord-Settled, new_node_lem,
}
use tda596_distributed_syste.Chord.Net.{ok, Net, update, chord_call, returned, crashed}
use tda596_distributed_syste.Chord.Routing.{
  get_name_rpc, first_successor, closest, close_preceding_node, respond, find, find_successor_rpc,
}
use tda596_distributed_syste.Chord.Routing.Lookup.{
  Settled, IsSuccessor, Answers, find_successor_rpc-Answers, find-IsSuccessor,
}
use tda596_distributed_syste.Chord.Storage.{
  Disk, remove_file, read_file, check_predecessor, clean_redundant_file, has_id,
  check_file_exist_rpc,
}
use tda596_distributed_syste.Chord.Storage.Laws.{
  clean_redundant_file-read_file, check_predecessor_dead, wanted, has_named,
}
use tda596_distributed_syste.Chord.Client.{
  Keys, client_store_file, client_get_file, check_args_valid, invalid, join_chord,
}
use tda596_distributed_syste.Chord.Client.Laws.{
  Distinct, HasRoom, InRange, client_get_file-client_store_file, check_args_valid-InRange,
}
use tda596_distributed_syste.Chord.Routing.Newcomer.{Unaware}
use tda596_distributed_syste.Chord.Client.Joining.{join_chord-IsSuccessor}
use tda596_distributed_syste.Chord.Commands.{
  Machine, start, running, look_up_command, looked_up, stored_at, not_stored,
}
use tda596_distributed_syste.Chord.Commands.Laws.{
  Holds, new_node_of, start-Settled, look_up_command-IsSuccessor,
}
use tda596_distributed_syste.Chord.Notify.{notify_rpc, leaves, delete_entry, move_file}
use tda596_distributed_syste.Chord.Notify.Laws.{move_file_loses}
use tda596_distributed_syste.Chord.Fingers.{fix_fingers}
use tda596_distributed_syste.Chord.Stabilize.{stablize}
use tda596_distributed_syste.Chord.Repair.{IsClosed, join_chord-stablize-IsClosed}
use tda596_distributed_syste.Chord.Upkeep.{
  stabilizing, fixing_fingers, checking_predecessor, run_ticks,
}
use tda596_distributed_syste.Chord.Upkeep.Health.{IsHealthy, create_chord-IsHealthy}
use tda596_distributed_syste.Chord.Upkeep.Laws.{run_ticks-IsHealthy}

-- A stand-in for SHA-1: the length of the name.
abbrev pub by_length : String → ℕ
by_length s = length (split b'x' s)

abbrev pub node_at : String → ℕ → String → Node
node_at name id address = record {
  name = name;
  identifier = id;
  address = address;
  finger_table = replicate 7 (record { id = 0; address = "" });
  next = 0;
  predecessor = "";
  successors = "" ∷ "" ∷ "" ∷ [];
  encrypt_flag = true;
  bucket = [];
  backup = [];
  chord_storage = [];
  fresh_ptr = 0;
}

abbrev pub founder : Node
founder = node_at "axx" 3 "localhost:8001"

abbrev pub ring : Net
ring = alone (create_chord founder)

pub founder_parts : length (split b':' "localhost:8001") ≡ 2
unfolding split
founder_parts = refl

pub founder_named : founder.identifier ≡ hash_id by_length founder.name
unfolding split
founder_named = refl

abbrev pub plain_args : Arguments
plain_args = record {
  address = "localhost";
  port = 8001;
  join_address = "Unspecified";
  join_port = 8000;
  stabilize = 3000;
  fix_fingers = 1000;
  check_pred = 3000;
  successors = 3;
  client_name = "Default";
}

pub ring-Settled : Settled by_length ring
ring-Settled = create_chord-Settled by_length founder founder_parts founder_named (omega arith)

find_successor_rpc-Answers_example :
    Answers by_length ring 6 (find_successor_rpc by_length ring 64 (create_chord founder) 70)
find_successor_rpc-Answers_example =
    find_successor_rpc-Answers by_length ring 64 "localhost:8001" (create_chord founder) 70
      ring-Settled (unfold create_chord in refl) (omega arith)

find-IsSuccessor_example :
    (s : String) × (find by_length ring 64 70 "localhost:8001" ≡ ok s) × IsSuccessor ring 6 s
find-IsSuccessor_example =
    find-IsSuccessor by_length ring 64 "localhost:8001" (create_chord founder) 70 ring-Settled
      (unfold create_chord in refl) (omega arith)

between_iff_example :
    ((between 60 3 5 false ≡ true) ↔ (arc 60 3 < arc 60 5))
    × ((between 60 3 5 true ≡ true) ↔ (arc 60 3 ≤ arc 60 5))
between_iff_example = between_iff 60 3 5 (omega arith) (omega arith) (omega arith)

-- A disk that takes everything.
abbrev pub good_disk : Disk
good_disk = record {
  can_create = λ _. true;
  can_write = λ _. true;
  can_remove = λ _. true;
  can_list = λ _. true;
}

abbrev pub letter : FileRpc
letter = record { id = 9; name = "letter"; content = "Dear all" }

clean_redundant_file-read_file_example :
    read_file (clean_redundant_file by_length good_disk founder).chord_storage "letter" ≡ (
      if wanted by_length founder "letter" || false || false
      then read_file founder.chord_storage "letter"
      else none)
clean_redundant_file-read_file_example =
    clean_redundant_file-read_file by_length good_disk founder "letter"

abbrev guarded_node : Node
guarded_node = record founder {
  predecessor = "localhost:8000";
  backup = record { ptr = 4; id = 9; name = "letter" } ∷ [];
}

check_predecessor_dead_example :
    (bucket : List BucketEntry) × (check_predecessor (λ _. false) "10.0.0.2" guarded_node
      ≡ some (record guarded_node { predecessor = ""; bucket = bucket }))
    × ((id : ℕ)
        → has_id id bucket ≡ (has_named id guarded_node.backup || has_id id guarded_node.bucket))
check_predecessor_dead_example =
    check_predecessor_dead (λ _. false) "10.0.0.2" "localhost" "8000" [] guarded_node
      (λ e. absurd (cc e)) (unfold split in refl) refl (tt, tt, tt)

-- The founder alone stores a file and fetches it; the stand-in for RSA marks what it encrypts.
abbrev marks : Keys
marks = record { encrypt = λ c. some "sealed"; decrypt = λ c. some "Dear all" }

pub ring-Distinct : Distinct ring
ring-Distinct a b n r ea eb same =
    let (a_is, _) = alone_cases (create_chord founder) a n ea in
    let (b_is, _) = alone_cases (create_chord founder) b r eb in rw (a_is, b_is) refl

ring-HasRoom : (a : String) (n : Node) → ring a ≡ some n → HasRoom (hash_id by_length "letter") n
unfolding create_chord has_id
ring-HasRoom a n e = let (_, is) = alone_cases (create_chord founder) a n e in rw is (tt, refl)

client_get_file-client_store_file_example :
    (net' : Net) × (files : List StoredFile) × (client_store_file by_length marks 64 good_disk ring
        (record { name = "letter"; content = "Dear all" } ∷ [])
        "letter"
        (create_chord founder)
      ≡ ok net')
    × (client_get_file by_length marks 64 good_disk net' [] "letter" (create_chord founder)
        ≡ ok (files, true))
    × (read_file files "letter" ≡ some "Dear all")
client_get_file-client_store_file_example =
    client_get_file-client_store_file by_length marks 64 good_disk ring
      (record { name = "letter"; content = "Dear all" } ∷ []) [] "letter" "Dear all" "sealed"
      (create_chord founder) ring-Settled ring-Distinct (unfold create_chord in refl) (omega arith)
      (λ name. (refl, refl)) ring-HasRoom (unfold read_file in refl) refl refl

plain_args_pass : check_args_valid (λ _. true) plain_args ≢ invalid
unfolding check_args_valid
plain_args_pass e = absurd (cc e)

check_args_valid-InRange_example :
    InRange plain_args
    × ((plain_args.join_address ≡ "Unspecified")
        ⊎ ((1024 ≤ plain_args.join_port) × (plain_args.join_port ≤ 65535)))
check_args_valid-InRange_example = check_args_valid-InRange (λ _. true) plain_args plain_args_pass

abbrev here : Machine
here = record {
  ip2 = "10.0.0.1";
  local_address = "10.0.0.2";
  folder = none;
  can_listen = λ s. true;
  reached_at = λ s. s;
}

start-Settled_example :
    (net : Net) × (start by_length marks good_disk 64 (λ s. true) here plain_args (λ _. none)
      ≡ running net)
    × (net (new_node_of by_length here plain_args).address
        ≡ some (create_chord (new_node_of by_length here plain_args)))
    × Settled by_length net
start-Settled_example =
    start-Settled by_length marks good_disk 64 (λ s. true) here plain_args
      (unfold check_args_valid in refl) refl
      (unfold new_node init_successors init_finger_table in refl)
      (unfold new_node init_successors init_finger_table host_port decimal decimal_from digit
          split in
        refl)

look_up_command-IsSuccessor_example :
    (s : String) × (owner : IsSuccessor ring (hash_id by_length "letter") s) × (((look_up_command
            by_length marks good_disk 64 ring "letter" founder
          ≡ looked_up (some s) (stored_at (get_name owner.node)))
        × Holds "letter" owner.node.bucket)
      ⊎ ((look_up_command by_length marks good_disk 64 ring "letter" founder
            ≡ looked_up (some s) not_stored)
          × (¬ Holds "letter" owner.node.bucket)))
look_up_command-IsSuccessor_example =
    look_up_command-IsSuccessor by_length marks good_disk 64 ring "letter" founder
      (create_chord founder) ring-Settled (unfold create_chord in refl) (omega arith)
