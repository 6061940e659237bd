-- ===== src/Chord/Notify/Pointers.antt =====
-- NotifyRPC of Lab2/Node/stabilizing.go changes one predecessor and no other pointer.
use text.Mathlib.Text.{◌==◌ as str_eq}
use text.Mathlib.TextEquality.{eq_iff}
use tda596_distributed_syste.Prelude.{
  ℕ, ◌≡◌, refl, ap, ◌∙◌, if◌then◌else◌, Bool, true, false, Option, none, some, List, [], ◌∷◌,
  String, arith,
}
use tda596_distributed_syste.Chord.Node.{Node, get_name}
use tda596_distributed_syste.Chord.Net.{Reply, ok, err, panic, no_answer, Net, chord_call, update}
use tda596_distributed_syste.Chord.Routing.{get_name_rpc, first_successor}
use tda596_distributed_syste.Chord.Storage.{Disk}
use tda596_distributed_syste.Chord.Pointers.{
  Pointers, pointers, Keeps, Keeps-runs, place, place_of, KeepsPlaces, KeepsPlaces-trans,
  Keeps-KeepsPlaces, update-KeepsPlaces, can_dial, Dialled, Keeps-Dialled, update-Dialled,
}
use tda596_distributed_syste.Chord.Notify.{move_files, notify, set_notified, notify_rpc}
use tda596_distributed_syste.Chord.Notify.Moves.{move_files-Keeps}

module _ (str_hash : String → ℕ) (disk : Disk) where
  -- The name at an address is one of the pointers.
  get_name_rpc-Keeps :
      (net net' : Net) (a : String)
      → Keeps net net'
      → get_name_rpc str_hash net' a ≡ get_name_rpc str_hash net a
  unfolding get_name_rpc get_name chord_call
  get_name_rpc-Keeps net net' a k = ground (arith, k a)

  -- A node whose pointers are the same decides the same.
  notify-Keeps :
      (net net' : Net) (node node' : Node) (address : String)
      → Keeps net net'
      → pointers node' ≡ pointers node
      → notify str_hash disk net node address ≡ ok (record node { predecessor = address }, true)
      → notify str_hash disk net' node' address ≡ ok (record node' { predecessor = address }, true)
  unfolding notify
  notify-Keeps net net' node node' address k same taken = ground (
    arith,
    same,
    taken,
    get_name_rpc-Keeps net net' node.predecessor k,
    get_name_rpc-Keeps net net' address k,
  )

  -- The network once the files have moved; a node that is its own successor moves none.
  abbrev files_moved : Net → String → String → Bool → Net
  files_moved net self address alone =
      if alone then net else move_files str_hash disk net self address

  files_moved-Keeps :
      (net : Net) (self address : String) (alone : Bool)
      → Keeps net (files_moved net self address alone)
  files_moved-Keeps net self address true a = refl
  files_moved-Keeps net self address false a = move_files-Keeps str_hash disk net self address a

  notify_rpc_lem :
      (net : Net) (self address s : String) (others : List String) (node : Node)
      → net self ≡ some node
      → node.successors ≡ s ∷ others
      → notify_rpc str_hash disk net self address
        ≡ set_notified str_hash disk
            (files_moved net self address (str_eq s node.address))
            self
            address
  unfolding notify_rpc first_successor
  notify_rpc_lem net self address s others node here room =
      rw (here, notify_rpc, room, first_successor) refl

  set_notified_lem :
      (net : Net) (self address : String) (node node' : Node) (taken : Bool)
      → net self ≡ some node
      → notify str_hash disk net node address ≡ ok (node', taken)
      → set_notified str_hash disk net self address ≡ update net self node'
  unfolding set_notified
  set_notified_lem net self address node node' taken here e = rw (here, set_notified, e) refl

  -- A node that takes the caller as predecessor still does so after `moveFiles`.
  pub notify_rpc_takes :
      (net : Net) (self address s : String) (others : List String) (node : Node)
      → net self ≡ some node
      → node.successors ≡ s ∷ others
      → notify str_hash disk net node address ≡ ok (record node { predecessor = address }, true)
      → (node' : Node) × (notify_rpc str_hash disk net self address self ≡ some node')
        × (pointers node' ≡ pointers (record node { predecessor = address }))
  notify_rpc_takes net self address s others node here room taken =
      let alone = str_eq s node.address in
      let k = files_moved-Keeps net self address alone in
      let (node', here', same) =
        Keeps-runs net (files_moved net self address alone) self node k here in
      let taken' =
        notify-Keeps net (files_moved net self address alone) node node' address k same taken in
      (
        record node' { predecessor = address },
        ap (λ r. r self) (notify_rpc_lem net self address s others node here room)
            ∙ ap (λ r. r self)
                (set_notified_lem (files_moved net self address alone) self address node'
                  (record node' { predecessor = address }) true here' taken')
            ∙ ground (arith, eq_iff self self),
        ap (λ (p : Pointers). record p { predecessor = address }) same,
      )

  abbrev written : Net → String → Reply (Node × Bool) → Net
  written net self (ok (node', _)) = update net self node'
  written net self _ = net

  notify-place :
      (net : Net) (node node' : Node) (address : String) (taken : Bool)
      → notify str_hash disk net node address ≡ ok (node', taken)
      → place node' ≡ place node
  unfolding notify
  notify-place net node node' address taken e = ground (arith, e)

  written-KeepsPlaces :
      (net : Net) (self address : String) (node : Node) (r : Reply (Node × Bool))
      → net self ≡ some node
      → notify str_hash disk net node address ≡ r
      → KeepsPlaces net (written net self r)
  written-KeepsPlaces net self address node (ok (node', taken)) here e a =
      update-KeepsPlaces net self node node' here (notify-place net node node' address taken e) a
  written-KeepsPlaces net self address node err here e a = refl
  written-KeepsPlaces net self address node panic here e a = refl
  written-KeepsPlaces net self address node no_answer here e a = refl

  abbrev set_at : Net → String → String → Option Node → Net
  set_at net self address none = net
  set_at net self address (some node) = written net self (notify str_hash disk net node address)

  set_at-KeepsPlaces :
      (net : Net) (self address : String) (o : Option Node)
      → net self ≡ o
      → KeepsPlaces net (set_at net self address o)
  set_at-KeepsPlaces net self address none here a = refl
  set_at-KeepsPlaces net self address (some node) here a =
      written-KeepsPlaces net self address node (notify str_hash disk net node address) here refl a

  set_notified-KeepsPlaces :
      (net : Net) (self address : String)
      → KeepsPlaces net (set_notified str_hash disk net self address)
  unfolding set_notified
  set_notified-KeepsPlaces net self address = set_at-KeepsPlaces net self address (net self) refl

  notify_rpc_nobody :
      (net : Net) (self address : String)
      → net self ≡ none
      → notify_rpc str_hash disk net self address ≡ net
  unfolding notify_rpc
  notify_rpc_nobody net self address here = rw (here, notify_rpc) refl

  notify_rpc_alone :
      (net : Net) (self address : String) (node : Node)
      → net self ≡ some node
      → node.successors ≡ []
      → notify_rpc str_hash disk net self address ≡ net
  unfolding notify_rpc first_successor
  notify_rpc_alone net self address node here room =
      rw (here, notify_rpc, room, first_successor) refl

  -- Whatever `NotifyRPC` does, no pointer but a predecessor changes.
  pub notify_rpc-KeepsPlaces :
      (net : Net) (self address : String)
      → KeepsPlaces net (notify_rpc str_hash disk net self address)
  notify_rpc-KeepsPlaces net self address a = by_node (net self) refl
    where
      by_list :
          (node : Node) (l : List String)
          → net self ≡ some node
          → node.successors ≡ l
          → place_of (notify_rpc str_hash disk net self address a) ≡ place_of (net a)
      by_list node [] here room =
          ap (λ r. place_of (r a)) (notify_rpc_alone net self address node here room)
      by_list node (s ∷ others) here room =
          let net' = files_moved net self address (str_eq s node.address) in
          ap (λ r. place_of (r a)) (notify_rpc_lem net self address s others node here room)
          ∙ KeepsPlaces-trans net net' (set_notified str_hash disk net' self address)
              (Keeps-KeepsPlaces net net'
                (files_moved-Keeps net self address (str_eq s node.address)))
              (set_notified-KeepsPlaces net' self address) a

      by_node :
          (o : Option Node)
          → net self ≡ o
          → place_of (notify_rpc str_hash disk net self address a) ≡ place_of (net a)
      by_node none here = ap (λ r. place_of (r a)) (notify_rpc_nobody net self address here)
      by_node (some node) here = by_list node node.successors here refl

  -- The predecessor stays or becomes the caller.
  notify-can_dial :
      (net : Net) (node node' : Node) (address : String) (taken : Bool)
      → can_dial node.predecessor ≡ true
      → can_dial address ≡ true
      → notify str_hash disk net node address ≡ ok (node', taken)
      → can_dial node'.predecessor ≡ true
  unfolding notify
  notify-can_dial net node node' address taken old new e = ground (arith, e, old, new)

  written-Dialled :
      (net : Net) (self address : String) (node : Node) (r : Reply (Node × Bool))
      → Dialled net
      → net self ≡ some node
      → can_dial address ≡ true
      → notify str_hash disk net node address ≡ r
      → Dialled (written net self r)
  written-Dialled net self address node (ok (node', taken)) h here new e =
      update-Dialled net self node' h
        (notify-can_dial net node node' address taken (h self node here) new e)
  written-Dialled net self address node err h here new e = h
  written-Dialled net self address node panic h here new e = h
  written-Dialled net self address node no_answer h here new e = h

  set_at-Dialled :
      (net : Net) (self address : String) (o : Option Node)
      → Dialled net
      → net self ≡ o
      → can_dial address ≡ true
      → Dialled (set_at net self address o)
  set_at-Dialled net self address none h here new = h
  set_at-Dialled net self address (some node) h here new =
      written-Dialled net self address node (notify str_hash disk net node address) h here new refl

  set_notified-Dialled :
      (net : Net) (self address : String)
      → Dialled net
      → can_dial address ≡ true
      → Dialled (set_notified str_hash disk net self address)
  unfolding set_notified
  set_notified-Dialled net self address h new =
      set_at-Dialled net self address (net self) h refl new

  -- A caller that can be dialled leaves every node a predecessor that can be, or none.
  pub notify_rpc-Dialled :
      (net : Net) (self address : String)
      → Dialled net
      → can_dial address ≡ true
      → Dialled (notify_rpc str_hash disk net self address)
  notify_rpc-Dialled net self address h new = by_node (net self) refl
    where
      by_list :
          (node : Node) (l : List String)
          → net self ≡ some node
          → node.successors ≡ l
          → Dialled (notify_rpc str_hash disk net self address)
      by_list node [] here room = rw (notify_rpc_alone net self address node here room) h
      by_list node (s ∷ others) here room =
          let alone = str_eq s node.address in
          rw (notify_rpc_lem net self address s others node here room) (
            set_notified-Dialled (files_moved net self address alone) self address
              (Keeps-Dialled net (files_moved net self address alone)
                (files_moved-Keeps net self address alone) h)
              new)

      by_node :
          (o : Option Node) → net self ≡ o → Dialled (notify_rpc str_hash disk net self address)
      by_node none here = rw (notify_rpc_nobody net self address here) h
      by_node (some node) here = by_list node node.successors here refl
