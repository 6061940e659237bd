-- ===== src/Chord/Node/Creation.antt =====
-- What `NewNode` and `createChord` start from.
use text.Mathlib.Text.{◌==◌ as str_eq}
use text.Mathlib.TextEquality.{eq_iff}
use tda596_distributed_syste.Prelude.{
  Bool, true, false, ℕ, zero, suc, ◌+◌, ◌<◌, ◌≡◌, refl, Option, none, some, List, [], ◌∷◌, String,
  length, get_elem?, arith, map, replicate, ap, if◌then◌else◌,
}
use tda596_distributed_syste.Prelude.Text.{split}
use tda596_distributed_syste.Chord.Ring.{hash_id, finger_table_size, finger_entry, between}
use tda596_distributed_syste.Chord.Node.{
  Node, FingerEntry, StoredFile, Arguments, new_node, create_chord, fingers_from, init_finger_table,
  init_successors,
}
use tda596_distributed_syste.Chord.Net.{Net, update}
use tda596_distributed_syste.Chord.Routing.Lookup.{IsSettled, Settled}
use tda596_distributed_syste.Chord.Fingers.Soundness.{HasFingers}

fingers_from-get :
    (rounds i identifier : ℕ) (address : String) (j : ℕ) (e : FingerEntry)
    → get_elem? (fingers_from rounds i identifier address) j ≡ some e
    → e.id ≡ finger_entry identifier (i + j)
unfolding fingers_from
fingers_from-get zero i identifier address j e h = ground arith
fingers_from-get (suc rounds) i identifier address zero e h = ground arith
fingers_from-get (suc rounds) i identifier address (suc j) e h =
    ground (arith, fingers_from-get rounds (suc i) identifier address j e h)

pub init_finger_table-HasFingers :
    (node : Node) → node.next ≡ 0 → HasFingers (init_finger_table node)
unfolding init_finger_table
init_finger_table-HasFingers node h = record {
  size = unfold fingers_from in refl;
  ids = λ i e ei pos. entry i e ei pos;
  in_table = omega arith;
}
  where
    entry :
        (i : ℕ) (e : FingerEntry)
        → get_elem? (init_finger_table node).finger_table i ≡ some e
        → 0 < i
        → e.id ≡ finger_entry node.identifier i
    entry zero e ei pos = absurd (omega arith)
    entry (suc i) e ei pos =
        ground (arith, fingers_from-get finger_table_size 1 node.identifier node.address i e ei)

initialised-HasFingers :
    (node : Node) → node.next ≡ 0 → HasFingers (init_successors (init_finger_table node))
unfolding init_successors
initialised-HasFingers node h =
    let k = init_finger_table-HasFingers node h in
    record { size = k.size; ids = k.ids; in_table = k.in_table }

-- A new node has its identifier from its name, and a well-formed finger table, whatever its
-- arguments, its address and the files it finds.
pub new_node_lem :
    (str_hash : String → ℕ) (ip2 local_address : String) (folder : Option (List StoredFile))
    (args : Arguments)
    → let node = new_node str_hash ip2 local_address folder args in
      (node.identifier ≡ hash_id str_hash node.name) × HasFingers node
unfolding new_node
new_node_lem str_hash ip2 local_address none args =
    (unfold init_finger_table init_successors in refl, initialised-HasFingers _ refl)
new_node_lem str_hash ip2 local_address (some files) args =
    let k = initialised-HasFingers _ refl in
    (
      unfold init_finger_table init_successors in refl,
      record { size = k.size; ids = k.ids; in_table = k.in_table },
    )

length-replicate : (n : ℕ) (a b : String) → length (map (λ (s : String). b) (replicate n a)) ≡ n
length-replicate zero a b = refl
length-replicate (suc n) a b = ap suc (length-replicate n a b)

-- The list has as many successors as the arguments say.
pub new_node-successors :
    (str_hash : String → ℕ) (ip2 local_address : String) (folder : Option (List StoredFile))
    (args : Arguments)
    → length (new_node str_hash ip2 local_address folder args).successors ≡ args.successors
unfolding new_node
new_node-successors str_hash ip2 local_address none args =
    unfold init_finger_table init_successors in length-replicate args.successors "" ""
new_node-successors str_hash ip2 local_address (some files) args =
    unfold init_finger_table init_successors in length-replicate args.successors "" ""

-- The network of one node.
abbrev pub alone : Node → Net
alone node = update (λ _. none) node.address node

pub alone_cases :
    (node : Node) (a : String) (n : Node) → alone node a ≡ some n → (a ≡ node.address) × (n ≡ node)
alone_cases node a n e = go (str_eq a node.address) refl e
  where
    go :
        (b : Bool)
        → str_eq a node.address ≡ b
        → (if b then some node else none) ≡ some n
        → (a ≡ node.address) × (n ≡ node)
    go true s h = ground (arith, eq_iff a node.address)
    go false s h = ground arith

first_of_map :
    (x : String) (xs : List String)
    → 0 < length xs
    → (others : List String) × (map (λ _. x) xs ≡ x ∷ others)
first_of_map x [] h = absurd (omega arith)
first_of_map x (y ∷ ys) h = (map (λ _. x) ys, refl)

created-IsSettled :
    (str_hash : String → ℕ) (node : Node)
    → length (split b':' node.address) ≡ 2
    → node.identifier ≡ hash_id str_hash node.name
    → 0 < length node.successors
    → IsSettled str_hash (alone (create_chord node)) node.address (create_chord node)
unfolding create_chord
created-IsSettled str_hash node parts named some_kept =
    let (others, e) = first_of_map node.address node.successors some_kept in
    record {
      callable = parts;
      identified = named;
      successor = node.address;
      others = others;
      successor_first = e;
      successor_node = create_chord node;
      successor_runs = ground (arith, eq_iff node.address node.address);
      adjacent = λ b r er.
          let (_, same) = alone_cases (create_chord node) b r er in
          rw same (unfold between in ground arith);
    }

-- A node that creates a ring makes a network on which its successor is right: itself. (Its address is
-- of the form "ip:port", its identifier is its name's, and it keeps at least one successor.)
pub create_chord-Settled :
    (str_hash : String → ℕ) (node : Node)
    → length (split b':' node.address) ≡ 2
    → node.identifier ≡ hash_id str_hash node.name
    → 0 < length node.successors
    → Settled str_hash (alone (create_chord node))
create_chord-Settled str_hash node parts named some_kept a n e =
    let (ea, en) = alone_cases (create_chord node) a n e in
    rw (ea, en) (unfold create_chord in created-IsSettled str_hash node parts named some_kept)
