-- ===== src/Chord/Notify/Moves.antt =====
-- moveFiles of Lab2/Node/stabilizing.go, with the states between its steps, changes no pointer.
use tda596_distributed_syste.Prelude.{
  ℕ, ◌≡◌, refl, if◌then◌else◌, Bool-cases, inl, inr, Option, none, some, List, [], ◌∷◌, String,
}
use tda596_distributed_syste.Chord.Ring.{hash_id}
use tda596_distributed_syste.Chord.Node.{Node, BucketEntry}
use tda596_distributed_syste.Chord.Net.{Reply, ok, err, panic, no_answer, Net, chord_call, update}
use tda596_distributed_syste.Chord.Routing.{get_name_rpc}
use tda596_distributed_syste.Chord.Routing.Lookup.{chord_call_inv}
use tda596_distributed_syste.Chord.Storage.{Disk, store_file_rpc}
use tda596_distributed_syste.Chord.Storage.Pointers.{store_file_rpc-pointers}
use tda596_distributed_syste.Chord.Pointers.{Keeps, Keeps-trans, update-Keeps}
use tda596_distributed_syste.Chord.Notify.{
  packed, delete_entry, delete_file, leaves, move_file, move_entries, move_files,
}

module _ (str_hash : String → ℕ) (disk : Disk) where
  -- A file sent to the node at an address.
  abbrev sent : Net → String → Node → BucketEntry → Reply Node → Net
  sent net address node e (ok target) =
      update net address (store_file_rpc disk target (packed node e)).0
  sent net address node e _ = net

  sent-Keeps :
      (net : Net) (address : String) (node : Node) (e : BucketEntry) (r : Reply Node)
      → chord_call net address ≡ r
      → Keeps net (sent net address node e r)
  sent-Keeps net address node e (ok target) called a =
      update-Keeps net address target (store_file_rpc disk target (packed node e)).0
        (chord_call_inv net address target called)
        (store_file_rpc-pointers disk target (packed node e)) a
  sent-Keeps net address node e err called a = refl
  sent-Keeps net address node e panic called a = refl
  sent-Keeps net address node e no_answer called a = refl

  -- A file deleted here.
  abbrev dropped : Net → String → BucketEntry → Option Node → Net
  dropped net self e none = net
  dropped net self e (some node) = update net self (record node {
    bucket = delete_entry str_hash disk e node.bucket;
    chord_storage = delete_file str_hash disk node.chord_storage e.name;
  })

  dropped-Keeps :
      (net : Net) (self : String) (e : BucketEntry) (o : Option Node)
      → net self ≡ o
      → Keeps net (dropped net self e o)
  dropped-Keeps net self e none here a = refl
  dropped-Keeps net self e (some node) here a =
      update-Keeps net self node
        (record node {
          bucket = delete_entry str_hash disk e node.bucket;
          chord_storage = delete_file str_hash disk node.chord_storage e.name;
        })
        here refl a

  -- A round of `moveFiles` at a node that runs.
  abbrev round : String → ℕ → String → Net → BucketEntry → Option Node → Net
  round self to address net e none = net
  round self to address net e (some node) =
      let net' = sent net address node e (chord_call net address) in
      if leaves str_hash disk node.identifier to e.id then dropped net' self e (net' self) else net

  round-Keeps :
      (self : String) (to : ℕ) (address : String) (net : Net) (e : BucketEntry) (o : Option Node)
      → Keeps net (round self to address net e o)
  round-Keeps self to address net e none a = refl
  round-Keeps self to address net e (some node) a =
      let net' = sent net address node e (chord_call net address) in
      elim (Bool-cases (leaves str_hash disk node.identifier to e.id)) [
        | inl leave ↦ rw leave (
            Keeps-trans net net' (dropped net' self e (net' self))
              (sent-Keeps net address node e (chord_call net address) refl)
              (dropped-Keeps net' self e (net' self) refl) a)
        | inr stay ↦ rw stay refl
      ]

  move_entries-Keeps :
      (self : String) (to : ℕ) (address : String) (net : Net) (es : List BucketEntry)
      → Keeps net (move_entries str_hash disk self to address net es)
  unfolding move_entries move_file
  move_entries-Keeps self to address net [] a = refl
  move_entries-Keeps self to address net (e ∷ es) a =
      let net' = round self to address net e (net self) in
      Keeps-trans net net' (move_entries str_hash disk self to address net' es)
        (round-Keeps self to address net e (net self)) (move_entries-Keeps self to address net' es)
        a

  abbrev moved_to : Net → String → String → String → Option Node → Net
  moved_to net self address name none = net
  moved_to net self address name (some node) =
      move_entries str_hash disk self (hash_id str_hash name) address net node.bucket

  moved_to-Keeps :
      (net : Net) (self address name : String) (o : Option Node)
      → Keeps net (moved_to net self address name o)
  moved_to-Keeps net self address name none a = refl
  moved_to-Keeps net self address name (some node) a =
      move_entries-Keeps self (hash_id str_hash name) address net node.bucket a

  abbrev moved : Net → String → String → Reply String → Net
  moved net self address (ok name) = moved_to net self address name (net self)
  moved net self address _ = net

  moved-Keeps :
      (net : Net) (self address : String) (r : Reply String) → Keeps net (moved net self address r)
  moved-Keeps net self address (ok name) a = moved_to-Keeps net self address name (net self) a
  moved-Keeps net self address err a = refl
  moved-Keeps net self address panic a = refl
  moved-Keeps net self address no_answer a = refl

  -- Whatever `moveFiles` sends and deletes, all pointers stay.
  pub move_files-Keeps :
      (net : Net) (self address : String) → Keeps net (move_files str_hash disk net self address)
  unfolding move_files
  move_files-Keeps net self address a =
      moved-Keeps net self address (get_name_rpc str_hash net address) a
