-- ===== src/Chord/Notify.antt =====
-- Lab2/Node/stabilizing.go: `NotifyRPC` and the files that it moves. A node is the state at an
-- address of the network; a call of the node's own address reaches that same state.
pub mod Laws
pub mod Moves
pub mod Pointers
pub mod Acceptance
use text.Mathlib.Text.{◌==◌ as str_eq}
use tda596_distributed_syste.Prelude.{
  ℕ, zero, suc, ◌+◌, ◌-◌, ◌%◌, ltb, ◌==◌, if◌then◌else◌, Bool, true, false, not, ◌&&◌, ◌||◌, Option,
  none, some, List, [], ◌∷◌, ◌++◌, String, length, get_elem?, set,
}
use tda596_distributed_syste.Prelude.Text.{split}
use tda596_distributed_syste.Chord.Ring.{
  finger_table_size, hash_mod, hash_id, between, finger_entry,
}
use tda596_distributed_syste.Chord.Node.{
  Node, FingerEntry, BucketEntry, StoredFile, FileRpc, get_name, get_predecessor_rpc,
  get_successor_list,
}
use tda596_distributed_syste.Chord.Net.{
  Reply, ok, err, panic, no_answer, ◌>>=◌, End, returned, failed, crashed, Net, chord_call, update,
}
use tda596_distributed_syste.Chord.Routing.{
  FindSuccessorReply, get_name_rpc, first_successor, find_successor_rpc,
}
use tda596_distributed_syste.Chord.Storage.{
  Disk, read_file, remove_file, store_file_rpc, delete_successor_backup, successor_store_file,
  clean_redundant_file,
}

-- The file that `moveFiles` sends for an entry; one that cannot be read is sent empty.
abbrev pub packed : Node → BucketEntry → FileRpc
packed node e = record {
  id = e.id;
  name = e.name;
  content = elim (read_file node.chord_storage e.name) [ none ↦ "" | some c ↦ c ];
}

module _ (str_hash : String → ℕ) (disk : Disk) where
  -- `notify` at `node`: the new state and whether the predecessor was set; `err` changes nothing.
  pub notify : Net → Node → String → Reply (Node × Bool)
  notify net node address =
      if str_eq node.predecessor ""
      then ok (record node { predecessor = address }, true)
      else get_name_rpc str_hash net node.predecessor >>= λ pred_name.
          get_name_rpc str_hash net address >>= λ address_name.
          if between (hash_id str_hash pred_name) (hash_id str_hash address_name) node.identifier
            false
          then ok (record node { predecessor = address }, true)
          else ok (node, false)

  -- Whether `moveFiles` sends a file with this id to the node with id `to`.
  unfoldable pub leaves : ℕ → ℕ → ℕ → Bool
  leaves identifier to id = (between id to identifier true && not (id == identifier)) || id == to

  -- `delete(node.Bucket, key)`
  pub delete_entry : BucketEntry → List BucketEntry → List BucketEntry
  delete_entry x [] = []
  delete_entry x (e ∷ es) = if e.ptr == x.ptr then es else e ∷ delete_entry x es

  -- `os.Remove`, whose failure is only printed.
  pub delete_file : List StoredFile → String → List StoredFile
  delete_file files name = if disk.can_remove name then remove_file files name else files

  -- One round of `moveFiles`: the file is sent, and whatever became of it there, deleted here.
  pub move_file : String → ℕ → String → Net → BucketEntry → Net
  move_file self to address net e = elim (net self) [
    | none ↦ net
    | some node ↦
        let net' : Net = elim (chord_call net address) [
          | ok target ↦ update net address (store_file_rpc disk target (packed node e)).0
          | _ ↦ net
        ] in
        let net'' : Net = elim (net' self) [
          | none ↦ net'
          | some node' ↦ update net' self (record node' {
            bucket = delete_entry e node'.bucket;
            chord_storage = delete_file node'.chord_storage e.name;
          })
        ] in
        if leaves node.identifier to e.id then net'' else net
  ]

  move_entries : String → ℕ → String → Net → List BucketEntry → Net
  move_entries self to address net [] = net
  move_entries self to address net (e ∷ es) =
      move_entries self to address (move_file self to address net e) es

  pub move_files : Net → String → String → Net
  unfolding move_file move_entries
  move_files net self address = elim (get_name_rpc str_hash net address) [
    | ok name ↦ elim (net self) [
      | none ↦ net
      | some node ↦ move_entries self (hash_id str_hash name) address net node.bucket
    ]
    | _ ↦ net
  ]

  set_notified : Net → String → String → Net
  set_notified net self address = elim (net self) [
    | none ↦ net
    | some node ↦ elim (notify net node address) [ ok (node', _) ↦ update net self node' | _ ↦ net ]
  ]

  -- `NotifyRPC` at the node `self`.
  pub notify_rpc : Net → String → String → Net
  unfolding set_notified
  notify_rpc net self address = elim (net self) [
    | none ↦ net
    | some node ↦ elim (first_successor str_hash net node) [
      | ok s ↦
          set_notified (if str_eq s node.address then net else move_files net self address) self
            address
      | _ ↦ net
    ]
  ]
