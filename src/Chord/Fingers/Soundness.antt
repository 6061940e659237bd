-- ===== src/Chord/Fingers/Soundness.antt =====
-- The shape of the finger table, for Lab2/Node/stabilizing.go's fixFingers.
use tda596_distributed_syste.Prelude.{
  ℕ, zero, suc, ◌+◌, ◌<◌, ◌≤◌, ◌≡◌, ◌⊎◌, inl, inr, refl, ◌∙◌, if◌then◌else◌, Bool, true, false,
  Option, none, some, ◌≢◌, String, length, get_elem?, set, length-set, get_elem?-set_at,
  get_elem?_of_lt, arith,
}
use tda596_distributed_syste.Chord.Ring.{finger_table_size, finger_entry}
use tda596_distributed_syste.Chord.Node.{Node, FingerEntry}
use tda596_distributed_syste.Chord.Net.{
  Reply, ok, err, panic, no_answer, ◌>>=◌, End, returned, failed, waiting, Net, chord_call,
}
use tda596_distributed_syste.Chord.Routing.{
  FindSuccessorReply, get_name_rpc, respond, first_successor, close_preceding_node,
  find_successor_rpc,
}
use tda596_distributed_syste.Chord.Fingers.{
  change_finger, differs, and_then, set_following, follow_named, fix_following, next_finger,
  fix_named, fix_found, fix_fingers,
}

-- Seven entries; entry i, from 1 on, is for the identifier 2^(i-1) after the node's; and `next` is an
-- index into the table.
pub record HasFingers (node : Node) : Type 0 where
  pub size : length node.finger_table ≡ suc finger_table_size
  pub ids :
      (i : ℕ) (e : FingerEntry)
      → get_elem? node.finger_table i ≡ some e
      → 0 < i
      → e.id ≡ finger_entry node.identifier i
  pub in_table : node.next ≤ finger_table_size

set_finger-HasFingers :
    (node : Node) (i : ℕ) (v : FingerEntry)
    → HasFingers node
    → (0 < i → v.id ≡ finger_entry node.identifier i)
    → HasFingers (record node { finger_table = set node.finger_table i v })
set_finger-HasFingers node i v h right = record {
  size = length-set node.finger_table i v ∙ h.size;
  ids = λ j e ej pos. elim (get_elem?-set_at node.finger_table i v j e ej) [
    | inl (same, is) ↦ rw (is, ← same) (right (rw same pos))
    | inr old ↦ h.ids j e old pos
  ];
  in_table = h.in_table;
}

-- What `change_finger` does to a well-formed node at an index of the table.
abbrev Changes : Node → ℕ → Option Node → Type 0
Changes node i none = ⊥
Changes node i (some node') =
    HasFingers node' × (node'.next ≡ node.next) × (node'.identifier ≡ node.identifier)

change_finger-Changes :
    (str_hash : String → ℕ) (node : Node) (i : ℕ) (f : FingerEntry → FingerEntry)
    → HasFingers node
    → i ≤ finger_table_size
    → ((e : FingerEntry)
        → e.id ≡ finger_entry node.identifier i
        → (f e).id ≡ finger_entry node.identifier i)
    → 0 < i
    → Changes node i (change_finger str_hash node i f)
unfolding change_finger
change_finger-Changes str_hash node i f h inside keep pos =
    let (e, ee) = get_elem?_of_lt node.finger_table i (omega (arith, h.size)) in
    rw ee (set_finger-HasFingers node i (f e) h (λ _. keep e (h.ids i e ee pos)), refl, refl)

-- How a task may end: it returns nil or an error, with the table well formed.
abbrev Sound : Node × End → Type 0
Sound (node, e) = HasFingers node × ((e ≡ returned) ⊎ (e ≡ failed))

Sound-if :
    (b : Bool) (x y : Node × End)
    → (b ≡ true → Sound x)
    → (b ≡ false → Sound y)
    → Sound (if b then x else y)
Sound-if true x y hx hy = hx refl
Sound-if false x y hx hy = hy refl

with_next :
    (node : Node) (k : ℕ)
    → HasFingers node
    → k ≤ finger_table_size
    → HasFingers (record node { next = k })
with_next node k h bound = record { size = h.size; ids = h.ids; in_table = bound }

module _ (str_hash : String → ℕ) where
  and_then-Sound :
      (node : Node) (i : ℕ) (r : Option Node) (rest : Node → Node × End)
      → Changes node i r
      → ((node' : Node) → HasFingers node' → node'.next ≡ node.next → Sound (rest node'))
      → Sound (and_then str_hash node r rest)
  unfolding and_then
  and_then-Sound node i none rest c k = elim c [ ]
  and_then-Sound node i (some node') rest (h, same, _) k = k node' h same

  -- What the loop does with an index of the table, if what comes after it is sound.
  abbrev SoundAfter : ℕ → (Node → Node × End) → Type 0
  SoundAfter i rest = (node : Node) → HasFingers node → node.next ≡ i → Sound (rest node)

  set_following-Sound :
      (rest : Node → Node × End) (address : String) (node : Node) (i : ℕ)
      → HasFingers node
      → 0 < i
      → i ≤ finger_table_size
      → SoundAfter i rest
      → Sound (set_following str_hash rest address node i)
  unfolding set_following
  set_following-Sound rest address node i h pos bound k =
      and_then-Sound (record node { next = i }) i _ rest
        (change_finger-Changes str_hash (record node { next = i }) i
          (λ e.
            if differs str_hash address e
            then record { id = finger_entry node.identifier i; address = address }
            else e)
          (with_next node i h bound) bound (λ e ee. ground arith) pos)
        k

  follow_named-Sound :
      (rest : Node → Node × End) (address : String) (node : Node) (i : ℕ) (r : Reply String)
      → HasFingers node
      → 0 < i
      → i ≤ finger_table_size
      → SoundAfter i rest
      → Sound (follow_named str_hash rest address node i r)
  unfolding follow_named
  follow_named-Sound rest address node i (ok name) h pos bound k =
      Sound-if _ _ _ (λ _. set_following-Sound rest address node i h pos bound k)
        (λ _. (h, inl refl))
  follow_named-Sound rest address node i err h pos bound k = (with_next node i h bound, inr refl)
  follow_named-Sound rest address node i panic h pos bound k = (with_next node i h bound, inr refl)
  follow_named-Sound rest address node i no_answer h pos bound k =
      (with_next node i h bound, inr refl)

  fix_following-Sound :
      (rounds : ℕ) (net : Net) (address : String) (node : Node)
      → HasFingers node
      → finger_table_size < node.next + rounds
      → Sound (fix_following str_hash rounds net address node)
  unfolding fix_following
  fix_following-Sound zero net address node h enough = absurd (omega (arith, h.in_table))
  fix_following-Sound (suc rounds) net address node h enough =
      Sound-if _ _ _ (λ over. (with_next node 0 h (omega arith), inl refl))
        (λ inside.
          follow_named-Sound (fix_following str_hash rounds net address) address node
            (node.next + 1) (get_name_rpc str_hash net address) h (omega arith) (ground arith)
            (λ node' h' e. fix_following-Sound rounds net address node' h' (omega arith)))

  fix_named-Sound :
      (rest : Node → Node × End) (address : String) (node : Node) (i : ℕ) (r : Reply String)
      → HasFingers node
      → 0 < i
      → i ≤ finger_table_size
      → SoundAfter i rest
      → Sound (fix_named str_hash rest address node i r)
  unfolding fix_named
  fix_named-Sound rest address node i (ok name) h pos bound k =
      and_then-Sound (record node { next = i }) i _ rest
        (change_finger-Changes str_hash (record node { next = i }) i
          (λ e. record {
            id = finger_entry node.identifier i;
            address = if differs str_hash address e then address else e.address;
          })
          (with_next node i h bound) bound (λ e ee. refl) pos)
        k
  fix_named-Sound rest address node i err h pos bound k = (with_next node i h bound, inr refl)
  fix_named-Sound rest address node i panic h pos bound k = (with_next node i h bound, inr refl)
  fix_named-Sound rest address node i no_answer h pos bound k = (with_next node i h bound, inr refl)

  -- The same for a task that starts with a call of the node's own RPC, whose reply is `r`.
  pub record SoundAfterCall (r : Reply FindSuccessorReply) (o : Node × End) : Type 0 where
    pub fingers : HasFingers o.0
    pub ends : (o.1 ≡ returned) ⊎ (o.1 ≡ failed) ⊎ ((o.1 ≡ waiting) × (r ≡ no_answer))

  after_call : (r : Reply FindSuccessorReply) (o : Node × End) → Sound o → SoundAfterCall r o
  after_call r (node, e) (h, inl back) = record { fingers = h; ends = inl back }
  after_call r (node, e) (h, inr fails) = record { fingers = h; ends = inr (inl fails) }

  fix_found-Sound :
      (net : Net) (node : Node) (i : ℕ) (r : Reply FindSuccessorReply)
      → HasFingers node
      → 0 < i
      → i ≤ finger_table_size
      → r ≢ panic
      → SoundAfterCall r (fix_found str_hash net node i r)
  unfolding fix_found
  fix_found-Sound net node i (ok r) h pos bound no_panic =
      let rest = fix_following str_hash finger_table_size net r.successor_address in
      let name = get_name_rpc str_hash net r.successor_address in
      after_call (ok r) (fix_named str_hash rest r.successor_address node i name) (
        fix_named-Sound rest r.successor_address node i name h pos bound (λ node' h' e.
          fix_following-Sound finger_table_size net r.successor_address node' h' (omega arith)))
  fix_found-Sound net node i err h pos bound no_panic = record {
    fingers = with_next node i h bound;
    ends = inr (inl refl);
  }
  fix_found-Sound net node i panic h pos bound no_panic = absurd (no_panic refl)
  fix_found-Sound net node i no_answer h pos bound no_panic = record {
    fingers = with_next node i h bound;
    ends = inr (inr (refl, refl));
  }

  -- `FindSuccessorRPC` at a node with a successor does not panic, whatever the other nodes do.
  find_successor_rpc-ne-panic :
      (net : Net) (fuel : ℕ) (n : Node) (id : ℕ)
      → 0 < length n.successors
      → find_successor_rpc str_hash net fuel n id ≢ panic
  unfolding find_successor_rpc respond first_successor close_preceding_node
  find_successor_rpc-ne-panic net zero n id room h = cc h
  find_successor_rpc-ne-panic net (suc fuel) n id room h = ground (arith, h, room)

  chord_call-ne-panic : (net : Net) (address : String) → chord_call net address ≢ panic
  unfolding chord_call
  chord_call-ne-panic net address h = ground (arith, h)

  -- The call with which `fixFingers` starts.
  abbrev pub own_lookup : ℕ → Net → Node → Reply FindSuccessorReply
  own_lookup fuel net node = chord_call net node.address >>= λ n.
      find_successor_rpc str_hash net fuel n
        (finger_entry node.identifier (next_finger str_hash node.next))

  own_lookup-ne-panic :
      (fuel : ℕ) (net : Net) (node : Node)
      → ((n : Node) → chord_call net node.address ≡ ok n → 0 < length n.successors)
      → own_lookup fuel net node ≢ panic
  own_lookup-ne-panic fuel net node room = by_reply (chord_call net node.address) refl
    where
      by_reply :
          (r : Reply Node)
          → chord_call net node.address ≡ r
          → (r >>= λ n.
              find_successor_rpc str_hash net fuel n
                (finger_entry node.identifier (next_finger str_hash node.next)))
            ≢ panic
      by_reply (ok n) e h = find_successor_rpc-ne-panic net fuel n _ (room n e) h
      by_reply err e h = cc h
      by_reply panic e h = chord_call-ne-panic net node.address e
      by_reply no_answer e h = cc h

  -- If the node that runs at the node's own address has a successor, then whatever the network answers,
  -- `fixFingers` does not panic or loop, and keeps the table well formed: seven entries, each from 1
  -- on for the identifier 2^(i-1) after the node's, and `next` an index into it. It returns nil or an
  -- error, or it waits for its lookup, when the fuel for the lookup is used up.
  pub fix_fingers-Sound :
      (fuel : ℕ) (net : Net) (node : Node)
      → HasFingers node
      → ((n : Node) → chord_call net node.address ≡ ok n → 0 < length n.successors)
      → SoundAfterCall (own_lookup fuel net node) (fix_fingers str_hash fuel net node)
  unfolding fix_fingers
  fix_fingers-Sound fuel net node h room =
      fix_found-Sound net node (next_finger str_hash node.next) (own_lookup fuel net node) h
        (ground arith) (ground arith) (own_lookup-ne-panic fuel net node room)
