-- ===== src/Chord/Stabilize.antt =====
-- Lab2/Node/stabilizing.go: `stablize`, the periodic task that follows the ring and backs up files.
pub mod Laws
pub mod Pointers
pub mod Adoption
pub mod Stability
use text.Mathlib.Text.{◌==◌ as str_eq}
use tda596_distributed_syste.Prelude.{
  ℕ, if◌then◌else◌, false, not, ◌&&◌, Option, none, some, List, [], ◌∷◌, ◌++◌, String,
}
use tda596_distributed_syste.Chord.Ring.{hash_id, between}
use tda596_distributed_syste.Chord.Node.{
  Node, BucketEntry, StoredFile, get_predecessor_rpc, get_successor_list,
}
use tda596_distributed_syste.Chord.Net.{
  Reply, ok, ◌>>=◌, End, returned, failed, crashed, Net, chord_call, update,
}
use tda596_distributed_syste.Chord.Routing.{get_name_rpc}
use tda596_distributed_syste.Chord.Storage.{
  Disk, read_file, delete_successor_backup, successor_store_file, clean_redundant_file,
}
use tda596_distributed_syste.Chord.Notify.{notify_rpc}

module _ (str_hash : String → ℕ) (disk : Disk) where
  -- `node.Successors[i+1] = successors[i]` for all but the last of the list that the first successor
  -- sent; `none` is a write out of range.
  copy_successors : String → List String → List String → Option (List String)
  copy_successors s [] old = some (s ∷ old)
  copy_successors s (x ∷ []) old = some (s ∷ old)
  copy_successors s (x ∷ y ∷ xs) [] = none
  copy_successors s (x ∷ y ∷ xs) (o ∷ old) = elim (copy_successors x (y ∷ xs) old) [
    | none ↦ none
    | some l ↦ some (s ∷ l)
  ]

  -- The first part of `stablize`: the node's successor list after it has asked its first successor.
  pub refresh_successors : Net → Node → Option (List String)
  unfolding copy_successors
  refresh_successors net node = elim node.successors [
    | [] ↦ none
    | s ∷ old ↦ elim (chord_call net s) [
      | ok n ↦ copy_successors s (get_successor_list n) old
      | _ ↦ if str_eq s "" then some (node.address ∷ old) else some (old ++ "" ∷ [])
    ]
  ]

  -- The second part: the address to put first, unless it stays; `err` ends `stablize`.
  pub adopt : Net → Node → String → Reply (Option String)
  adopt net node s = elim (chord_call net s) [
    | ok n ↦ elim (get_predecessor_rpc n) [
      | none ↦ ok none
      | some pred ↦ get_name_rpc str_hash net pred >>= λ pred_name.
          if not (str_eq pred "")
            && between (hash_id str_hash node.name) (hash_id str_hash pred_name)
                (hash_id str_hash n.name) false
          then ok (some pred)
          else ok none
    ]
    | _ ↦ ok none
  ]

  -- The copies of the bucket go to the first successor's backup, up to two files of one name in a
  -- row; a file that cannot be read is an error.
  copy_bucket : Net → String → List StoredFile → String → List BucketEntry → Net × End
  copy_bucket net s files last [] = (net, returned)
  copy_bucket net s files last (e ∷ es) =
      let skip = copy_bucket net s files last es in
      let send = elim (read_file files e.name) as (λ _. Net × End) [
        | none ↦ (net, failed)
        | some content ↦ elim (chord_call net s) [
          | ok n ↦
              copy_bucket
                (update net s (
                  successor_store_file disk n
                    (record { id = e.id; name = e.name; content = content })))
                s files e.name es
          | _ ↦ copy_bucket net s files e.name es
        ]
      ] in
      if str_eq e.name last then (net, returned) else if str_eq e.name "" then skip else send

  clean : Net → String → Net
  clean net self = elim (net self) [
    | none ↦ net
    | some node ↦ update net self (clean_redundant_file str_hash disk node)
  ]

  -- The last part of `stablize`, once the first successor `s` is settled.
  pub back_up : Net → String → String → Net × End
  unfolding copy_bucket clean
  back_up net self s = elim (chord_call net s) [
    | ok n ↦
        let net' = update net s (delete_successor_backup n) in
        elim (net' self) [
          | none ↦ (net', returned)
          | some node ↦
              let (net'', e) = copy_bucket net' s node.chord_storage "" node.bucket in
              let cleaned = clean net'' self in
              if str_eq s node.address
              then (net', returned)
              else elim e [ returned ↦ (cleaned, returned) | other ↦ (net'', other) ]
        ]
    | _ ↦ (net, failed)
  ]

  -- With the successor list in place: adopt the successor's predecessor, notify, back up.
  pub settle : Net → String → Node → String → List String → Net × End
  unfolding back_up
  settle net self node s others = elim (adopt net node s) [
    | ok found ↦
        let first : String = elim found [ none ↦ s | some pred ↦ pred ] in
        let net' = update net self (record node { successors = first ∷ others }) in
        let notified : Net = elim (chord_call net' first) [
          | ok _ ↦ notify_rpc str_hash disk net' first node.address
          | _ ↦ net'
        ] in
        back_up notified self first
    | _ ↦ (net, failed)
  ]

  -- `stablize` at the node `self`.
  pub stablize : Net → String → Net × End
  unfolding settle
  stablize net self = elim (net self) [
    | none ↦ (net, crashed)
    | some node ↦ elim (refresh_successors net node) [
      | none ↦ (net, crashed)
      | some [] ↦ (net, crashed)
      | some (s ∷ others) ↦
          let node' = record node { successors = s ∷ others } in
          settle (update net self node') self node' s others
    ]
  ]
