-- ===== src/Chord/Fingers/Anchors.antt =====
-- fixFingers of Lab2/Node/stabilizing.go writes the finger table and its index, and nothing else.
use tda596_distributed_syste.Prelude.{
  ℕ, zero, suc, ◌+◌, ltb, ◌≡◌, refl, ◌∙◌, Bool-cases, inl, inr, Option, none, some, [], String,
  get_elem?, arith,
}
use tda596_distributed_syste.Chord.Ring.{finger_table_size}
use tda596_distributed_syste.Chord.Node.{Node, FingerEntry}
use tda596_distributed_syste.Chord.Net.{Reply, ok, err, panic, no_answer, End, Net}
use tda596_distributed_syste.Chord.Pointers.{Pointers, pointers}
use tda596_distributed_syste.Chord.Routing.{FindSuccessorReply, get_name_rpc}
use tda596_distributed_syste.Chord.Fingers.{
  changed, change_finger, and_then, set_following, follow_named, fix_following, next_finger,
  fix_named, fix_found, fix_fingers,
}

-- The pointers without the finger table and its index.
abbrev pub anchor : Node → Pointers
anchor n = record (pointers n) { finger_table = []; next = 0 }

-- What stands after a task is the node with other fingers.
abbrev Anchors : Node → Node × End → Type 0
Anchors node r = anchor r.0 ≡ anchor node

module _ (str_hash : String → ℕ) where
  and_then-Anchors :
      (node : Node) (i : ℕ) (f : FingerEntry → FingerEntry) (o : Option FingerEntry)
      (rest : Node → Node × End)
      → ((m : Node) → Anchors m (rest m))
      → Anchors node (and_then str_hash node (changed str_hash node i f o) rest)
  unfolding and_then changed
  and_then-Anchors node i f none rest k = refl
  and_then-Anchors node i f (some e) rest k = k _ ∙ refl

  set_following-Anchors :
      (rest : Node → Node × End) (address : String) (node : Node) (i : ℕ)
      → ((m : Node) → Anchors m (rest m))
      → Anchors node (set_following str_hash rest address node i)
  unfolding set_following change_finger
  set_following-Anchors rest address node i k =
      and_then-Anchors (record node { next = i }) i _ (get_elem? node.finger_table i) rest k

  follow_named-Anchors :
      (rest : Node → Node × End) (address : String) (node : Node) (i : ℕ) (r : Reply String)
      → ((m : Node) → Anchors m (rest m))
      → Anchors node (follow_named str_hash rest address node i r)
  unfolding follow_named
  follow_named-Anchors rest address node i (ok name) k =
      ground (arith, set_following-Anchors rest address node i k)
  follow_named-Anchors rest address node i err k = refl
  follow_named-Anchors rest address node i panic k = refl
  follow_named-Anchors rest address node i no_answer k = refl

  fix_following-Anchors :
      (rounds : ℕ) (net : Net) (address : String) (node : Node)
      → Anchors node (fix_following str_hash rounds net address node)
  unfolding fix_following
  fix_following-Anchors zero net address node = refl
  fix_following-Anchors (suc rounds) net address node =
      elim (Bool-cases (ltb finger_table_size (node.next + 1))) [
        | inl past ↦ rw past refl
        | inr within ↦ rw within (
            follow_named-Anchors (fix_following str_hash rounds net address) address node
              (node.next + 1) (get_name_rpc str_hash net address)
              (fix_following-Anchors rounds net address))
      ]

  fix_named-Anchors :
      (rest : Node → Node × End) (address : String) (node : Node) (i : ℕ) (r : Reply String)
      → ((m : Node) → Anchors m (rest m))
      → Anchors node (fix_named str_hash rest address node i r)
  unfolding fix_named change_finger
  fix_named-Anchors rest address node i (ok name) k =
      and_then-Anchors (record node { next = i }) i _ (get_elem? node.finger_table i) rest k
  fix_named-Anchors rest address node i err k = refl
  fix_named-Anchors rest address node i panic k = refl
  fix_named-Anchors rest address node i no_answer k = refl

  fix_found-Anchors :
      (net : Net) (node : Node) (i : ℕ) (r : Reply FindSuccessorReply)
      → Anchors node (fix_found str_hash net node i r)
  unfolding fix_found
  fix_found-Anchors net node i (ok r) =
      fix_named-Anchors (fix_following str_hash finger_table_size net r.successor_address)
        r.successor_address node i (get_name_rpc str_hash net r.successor_address)
        (fix_following-Anchors finger_table_size net r.successor_address)
  fix_found-Anchors net node i err = refl
  fix_found-Anchors net node i panic = refl
  fix_found-Anchors net node i no_answer = refl

  pub fix_fingers-anchor :
      (fuel : ℕ) (net : Net) (node : Node)
      → anchor (fix_fingers str_hash fuel net node).0 ≡ anchor node
  unfolding fix_fingers
  fix_fingers-anchor fuel net node = fix_found-Anchors net node (next_finger str_hash node.next) _
