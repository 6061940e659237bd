-- ===== src/Chord/Client/Joining.antt =====
-- About joinChord of Lab2/Node/node.go on a ring whose nodes do not know the new one yet.
use text.Mathlib.Text.{◌==◌ as str_eq}
use text.Mathlib.TextEquality.{eq_iff}
use tda596_distributed_syste.Prelude.{
  ℕ, ◌%◌, ◌≤◌, ◌≡◌, refl, ◌∙◌, true, false, none, some, List, ◌∷◌, String, arith,
}
use tda596_distributed_syste.Chord.Ring.{hash_mod}
use tda596_distributed_syste.Chord.Node.{Node}
use tda596_distributed_syste.Chord.Net.{ok, Net, chord_call, update, returned}
use tda596_distributed_syste.Chord.Routing.{find_successor_rpc}
use tda596_distributed_syste.Chord.Routing.Lookup.{
  Settled, IsSuccessor, chord_call_ok, find_successor_rpc-Answers,
}
use tda596_distributed_syste.Chord.Routing.Newcomer.{
  Unaware, chord_call-update, find_successor_rpc-update,
}
use tda596_distributed_syste.Chord.Storage.{Disk}
use tda596_distributed_syste.Chord.Notify.{notify_rpc}
use tda596_distributed_syste.Chord.Client.{joined, announce, settle_join, join_chord}

-- What `joinChord` does after a lookup that found a node.
join_chord_found :
    (str_hash : String → ℕ) (disk : Disk) (fuel : ℕ) (net : Net) (self join_node s old : String)
    (others : List String) (node contact m : Node)
    → net self ≡ some node
    → chord_call net join_node ≡ ok contact
    → find_successor_rpc str_hash net fuel contact node.identifier
      ≡ ok (record { found = true; successor_address = s })
    → node.successors ≡ old ∷ others
    → chord_call (update net self (record node { predecessor = ""; successors = s ∷ others })) s
      ≡ ok m
    → join_chord str_hash disk fuel net self join_node ≡ (
      notify_rpc str_hash disk
          (update net self (record node { predecessor = ""; successors = s ∷ others }))
          s
          node.address,
      returned,
    )
unfolding join_chord settle_join joined announce
join_chord_found str_hash disk fuel net self join_node s old others node contact m here called found
      room notified =
    rw (here, join_chord, called, found, room, settle_join, joined, notified, announce) refl

-- Joining a ring: a new node that listens at an address which no node of a settled network names, with
-- room for a successor, and that joins at the address of any node, ends without an error, with fuel
-- for 64 calls: it has no predecessor, its first successor is the first node at or after its
-- identifier, and that node is notified of it.
pub join_chord-IsSuccessor :
    (str_hash : String → ℕ) (disk : Disk) (fuel : ℕ) (net : Net) (self join_node old : String)
    (others : List String) (node contact : Node)
    → Settled str_hash net
    → ((b : String) (m : Node) → net b ≡ some m → Unaware self m)
    → net self ≡ none
    → net join_node ≡ some contact
    → node.successors ≡ old ∷ others
    → hash_mod ≤ fuel
    → (s : String) × IsSuccessor net (node.identifier % hash_mod) s
      × (join_chord str_hash disk fuel (update net self node) self join_node ≡ (
        notify_rpc str_hash disk
            (update
              (update net self node)
              self
              (record node { predecessor = ""; successors = s ∷ others }))
            s
            node.address,
        returned,
      ))
join_chord-IsSuccessor str_hash disk fuel net self join_node old others node contact settled unaware
      absent runs room enough =
    let (s, answer, owner) =
      find_successor_rpc-Answers str_hash net fuel join_node contact node.identifier settled runs
        enough in
    let here : str_eq join_node self ≡ false =
      ground (arith, eq_iff join_node self, runs, absent) in
    let called : chord_call (update net self node) join_node ≡ ok contact =
      chord_call-update net self node join_node here
      ∙ chord_call_ok net join_node contact (settled join_node contact runs).callable runs in
    let found =
      find_successor_rpc-update str_hash net self node fuel join_node contact node.identifier
        unaware runs
      ∙ answer in
    let same : str_eq self self ≡ true = ground (arith, eq_iff self self) in
    let apart : str_eq s self ≡ false = ground (arith, eq_iff s self, owner.runs, absent) in
    let node' = record node { predecessor = ""; successors = s ∷ others } in
    let notified : chord_call (update (update net self node) self node') s ≡ ok owner.node =
      chord_call-update (update net self node) self node' s apart
      ∙ chord_call-update net self node s apart
      ∙ chord_call_ok net s owner.node (settled s owner.node owner.runs).callable owner.runs in
    (
      s,
      owner,
      join_chord_found str_hash disk fuel (update net self node) self join_node s old others node
          contact owner.node (rw same refl) called found room notified,
    )
