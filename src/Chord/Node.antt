-- ===== src/Chord/Node.antt =====
-- Lab2/Node/node.go: a node's state, its construction, and the RPCs that only read it. Files are the
-- texts under `chord_storage`, `file_download` and `file_upload`; the RSA keys are left out.
pub mod Creation
use text.Mathlib.Text.{◌==◌ as str_eq}
use tda596_distributed_syste.Prelude.{
  ℕ, zero, suc, ◌/◌, ◌%◌, ltb, ◌==◌, if◌then◌else◌, Bool, true, ◌||◌, Option, none, some, List, [],
  ◌∷◌, map, String, length, replicate,
}
use tda596_distributed_syste.Prelude.Text.{◌&◌}
use tda596_distributed_syste.Chord.Ring.{finger_table_size, hash_id, finger_entry}

-- `Id` is the number that the bytes encode.
pub record FingerEntry : Type 0 where
  pub id : ℕ
  pub address : String

-- A key of `Bucket` and `Backup` is a pointer to a number; two keys are one if the pointers are.
pub record BucketEntry : Type 0 where
  pub ptr : ℕ
  pub id : ℕ
  pub name : String

-- A file on disk, by its name.
pub record StoredFile : Type 0 where
  pub name : String
  pub content : String

pub record FileRpc : Type 0 where
  pub id : ℕ
  pub name : String
  pub content : String

pub record Node : Type 0 where
  pub name : String
  pub identifier : ℕ
  pub address : String
  pub finger_table : List FingerEntry
  pub next : ℕ
  pub predecessor : String
  pub successors : List String
  pub encrypt_flag : Bool
  pub bucket : List BucketEntry
  pub backup : List BucketEntry
  pub chord_storage : List StoredFile
  -- The next pointer that an allocation returns.
  pub fresh_ptr : ℕ

pub record Arguments : Type 0 where
  pub address : String
  pub port : ℕ
  pub join_address : String
  pub join_port : ℕ
  pub stabilize : ℕ
  pub fix_fingers : ℕ
  pub check_pred : ℕ
  pub successors : ℕ
  pub client_name : String

unfoldable pub digit : ℕ → String
digit n =
    if n == 0
    then "0"
    else if n == 1
    then "1"
    else if n == 2
    then "2"
    else if n == 3
    then "3"
    else if n == 4
    then "4"
    else if n == 5
    then "5"
    else if n == 6
    then "6"
    else if n == 7
    then "7"
    else if n == 8
    then "8"
    else "9"

-- `%d`, with fuel for the digits.
unfoldable pub decimal_from : ℕ → ℕ → String
decimal_from zero n = ""
decimal_from (suc fuel) n =
    let rest = decimal_from fuel (n / 10) & digit (n % 10) in if ltb n 10 then digit n else rest

unfoldable pub decimal : ℕ → String
unfolding decimal_from digit
decimal n = decimal_from (suc n) n

-- `fmt.Sprintf("%s:%d", ip, port)`
unfoldable pub host_port : String → ℕ → String
host_port ip port = ip & ":" & decimal port

-- The entries 1 to 6 of the finger table, `rounds` of them from `i` on.
fingers_from : ℕ → ℕ → ℕ → String → List FingerEntry
fingers_from zero i identifier address = []
fingers_from (suc rounds) i identifier address =
    record { id = finger_entry identifier i; address = address }
    ∷ fingers_from rounds (suc i) identifier address

unfoldable pub init_finger_table : Node → Node
unfolding fingers_from
init_finger_table node = record node {
  finger_table =
      record { id = node.identifier; address = node.address }
      ∷ fingers_from finger_table_size 1 node.identifier node.address;
}

unfoldable pub init_successors : Node → Node
init_successors node = record node { successors = map (λ _. "") node.successors }

-- The files of an existing `chord_storage` folder are put in the bucket under new pointers.
restore : (String → ℕ) → ℕ → List StoredFile → List BucketEntry
restore str_hash ptr [] = []
restore str_hash ptr (f ∷ fs) =
    record { ptr = ptr; id = hash_id str_hash f.name; name = f.name }
    ∷ restore str_hash (suc ptr) fs

-- `NewNode`, with what it asks the network for (`getip2`, `getLocalAddress`) and the files of the
-- node's folder, if it is there already. Creating the folders and the keys is left out.
unfoldable pub new_node :
    (String → ℕ) → String → String → Option (List StoredFile) → Arguments → Node
unfolding restore
new_node str_hash ip2 local_address folder args =
    let ip =
      if str_eq args.address "localhost" || str_eq args.address "127.0.0.1"
      then args.address
      else if str_eq args.address "0.0.0.0"
      then ip2
      else local_address in
    let address = host_port ip args.port in
    let name = if str_eq args.client_name "Default" then address else args.client_name in
    let node : Node = record {
      name = name;
      identifier = hash_id str_hash name;
      address = address;
      finger_table = replicate (suc finger_table_size) (record { id = 0; address = "" });
      next = 0;
      predecessor = "";
      successors = replicate args.successors "";
      encrypt_flag = true;
      bucket = [];
      backup = [];
      chord_storage = [];
      fresh_ptr = 0;
    } in
    let node' = init_successors (init_finger_table node) in
    elim folder [
      | none ↦ node'
      | some files ↦ record node' {
        bucket = restore str_hash 0 files;
        chord_storage = files;
        fresh_ptr = length files;
      }
    ]

unfoldable pub create_chord : Node → Node
create_chord node = record node {
  predecessor = "";
  successors = map (λ _. node.address) node.successors;
}

unfoldable pub get_name : Node → String
get_name node = node.name

unfoldable pub get_successor_list : Node → List String
get_successor_list node = node.successors

-- An empty predecessor is an error.
unfoldable pub get_predecessor_rpc : Node → Option String
get_predecessor_rpc node = if str_eq node.predecessor "" then none else some node.predecessor

pub set_predecessor : Node → String → Node
set_predecessor node address = record node { predecessor = address }
