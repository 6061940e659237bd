-- ===== src/Chord/Fingers.antt =====
-- Lab2/Node/stabilizing.go: `fixFingers`, the periodic task that refreshes the finger table.
pub mod Soundness
pub mod Anchors
use text.Mathlib.Text.{◌==◌ as str_eq}
use tda596_distributed_syste.Prelude.{
  ℕ, zero, suc, ◌+◌, ◌-◌, ◌%◌, ltb, ◌==◌, if◌then◌else◌, Bool, true, false, not, ◌&&◌, ◌||◌, Option,
  none, some, List, [], ◌∷◌, ◌++◌, String, length, get_elem?, set,
}
use tda596_distributed_syste.Prelude.Text.{split}
use tda596_distributed_syste.Chord.Ring.{
  finger_table_size, hash_mod, hash_id, between, finger_entry,
}
use tda596_distributed_syste.Chord.Node.{
  Node, FingerEntry, BucketEntry, StoredFile, FileRpc, get_name, get_predecessor_rpc,
  get_successor_list,
}
use tda596_distributed_syste.Chord.Net.{
  Reply, ok, err, panic, no_answer, ◌>>=◌, End, returned, failed, crashed, waiting, Net, chord_call,
  update,
}
use tda596_distributed_syste.Chord.Routing.{
  FindSuccessorReply, get_name_rpc, first_successor, find_successor_rpc,
}
use tda596_distributed_syste.Chord.Storage.{
  Disk, read_file, remove_file, store_file_rpc, delete_successor_backup, successor_store_file,
  clean_redundant_file,
}

module _ (str_hash : String → ℕ) where
  changed : Node → ℕ → (FingerEntry → FingerEntry) → Option FingerEntry → Option Node
  changed node i f none = none
  changed node i f (some e) = some (record node { finger_table = set node.finger_table i (f e) })

  -- Writes to `FingerTable[i]`; `none` is an index out of range.
  change_finger : Node → ℕ → (FingerEntry → FingerEntry) → Option Node
  unfolding changed
  change_finger node i f = changed node i f (get_elem? node.finger_table i)

  abbrev differs : String → FingerEntry → Bool
  differs address e = not (str_eq e.address address) && not (str_eq address "")

  -- Goes on with the changed node.
  and_then : Node → Option Node → (Node → Node × End) → Node × End
  and_then node none rest = (node, crashed)
  and_then node (some node') rest = rest node'

  set_following : (Node → Node × End) → String → Node → ℕ → Node × End
  unfolding change_finger and_then
  set_following rest address node i =
      let id = finger_entry node.identifier i in
      and_then (record node { next = i })
        (change_finger (record node { next = i }) i
          (λ e. if differs address e then record { id = id; address = address } else e))
        rest

  follow_named : (Node → Node × End) → String → Node → ℕ → Reply String → Node × End
  unfolding set_following
  follow_named rest address node i (ok name) =
      if between node.identifier (finger_entry node.identifier i) (hash_id str_hash name) false
        && not (str_eq address "")
      then set_following rest address node i
      else (node, returned)
  follow_named rest address node i err = (record node { next = i }, failed)
  follow_named rest address node i panic = (record node { next = i }, failed)
  follow_named rest address node i no_answer = (record node { next = i }, failed)

  -- The loop of `fixFingers` that gives the same successor to the entries that follow, with fuel for
  -- its rounds; `crashed` if they are used up.
  fix_following : ℕ → Net → String → Node → Node × End
  unfolding follow_named
  fix_following zero net address node = (node, crashed)
  fix_following (suc rounds) net address node =
      let rest = fix_following rounds net address in
      if ltb finger_table_size (node.next + 1)
      then (record node { next = 0 }, returned)
      else follow_named rest address node (node.next + 1) (get_name_rpc str_hash net address)

  abbrev next_finger : ℕ → ℕ
  next_finger next = if ltb finger_table_size (next + 1) then 1 else next + 1

  fix_named : (Node → Node × End) → String → Node → ℕ → Reply String → Node × End
  unfolding change_finger and_then
  fix_named rest address node i (ok name) =
      let id = finger_entry node.identifier i in
      and_then (record node { next = i })
        (change_finger (record node { next = i }) i
          (λ e. record { id = id; address = if differs address e then address else e.address }))
        rest
  fix_named rest address node i err = (record node { next = i }, failed)
  fix_named rest address node i panic = (record node { next = i }, failed)
  fix_named rest address node i no_answer = (record node { next = i }, failed)

  -- The node asks itself: a panic of its own RPC ends the process.
  fix_found : Net → Node → ℕ → Reply FindSuccessorReply → Node × End
  unfolding fix_named fix_following
  fix_found net node i (ok r) =
      fix_named (fix_following finger_table_size net r.successor_address) r.successor_address node i
        (get_name_rpc str_hash net r.successor_address)
  fix_found net node i err = (record node { next = i }, failed)
  fix_found net node i panic = (record node { next = i }, crashed)
  fix_found net node i no_answer = (record node { next = i }, waiting)

  -- `fixFingers` at `node`, with fuel for its lookup.
  pub fix_fingers : ℕ → Net → Node → Node × End
  unfolding fix_found
  fix_fingers fuel net node =
      let i = next_finger node.next in
      fix_found net node i (
        chord_call net node.address >>= λ n.
        find_successor_rpc str_hash net fuel n (finger_entry node.identifier i))
