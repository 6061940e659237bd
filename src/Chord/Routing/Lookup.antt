-- ===== src/Chord/Routing/Lookup.antt =====
-- The lookup on a ring whose successor pointers are right, whatever the finger tables hold.
use mathlib.Core.List.{reverse, tail}
use tda596_distributed_syste.Prelude.{
  ℕ, zero, suc, ◌%◌, ◌<◌, ◌≤◌, ◌≡◌, refl, ap, ◌⊎◌, inl, inr, true, false, Bool-cases, Option, none,
  some, List, [], ◌∷◌, String, length, arith,
}
use tda596_distributed_syste.Prelude.Text.{split}
use tda596_distributed_syste.Chord.Ring.{hash_mod, hash_id, between}
use tda596_distributed_syste.Chord.Ring.Arcs.{arc, distance, between_iff, arc-lt_of_arc-lt}
use tda596_distributed_syste.Chord.Node.{Node, FingerEntry, get_name}
use tda596_distributed_syste.Chord.Net.{Reply, ok, err, panic, no_answer, Net, chord_call}
use tda596_distributed_syste.Chord.Routing.{
  FindSuccessorReply, closest, close_preceding_node, find_successor_rpc, respond, first_successor,
  get_name_rpc, find_from, find,
}

-- What the code relies on at one node: it is called at an address of the right form, its identifier
-- is its name's, and its first successor is a node with no other node in between.
pub record IsSettled (str_hash : String → ℕ) (net : Net) (address : String) (n : Node)
    : Type 0 where
  pub callable : length (split b':' address) ≡ 2
  pub identified : n.identifier ≡ hash_id str_hash n.name
  pub successor : String
  pub others : List String
  pub successor_first : n.successors ≡ successor ∷ others
  pub successor_node : Node
  pub successor_runs : net successor ≡ some successor_node
  pub adjacent :
      (b : String) (r : Node)
      → net b ≡ some r
      → between n.identifier r.identifier successor_node.identifier false ≡ false

abbrev pub Settled : (String → ℕ) → Net → Type 0
Settled str_hash net = (a : String) (n : Node) → net a ≡ some n → IsSettled str_hash net a n

-- The first node at or after an identifier, clockwise.
pub record IsSuccessor (net : Net) (id : ℕ) (address : String) : Type 0 where
  pub node : Node
  pub runs : net address ≡ some node
  pub first :
      (b : String) (r : Node)
      → net b ≡ some r
      → distance id node.identifier ≤ distance id r.identifier

pub chord_call_ok :
    (net : Net) (a : String) (n : Node)
    → length (split b':' a) ≡ 2
    → net a ≡ some n
    → chord_call net a ≡ ok n
unfolding chord_call
chord_call_ok net a n c e = rw (c, e)

pub chord_call_inv : (net : Net) (a : String) (n : Node) → chord_call net a ≡ ok n → net a ≡ some n
unfolding chord_call
chord_call_inv net a n e = ground arith

module _ (str_hash : String → ℕ) (net : Net) where
  first_successor_lem :
      (n : Node) (s : String) (rest : List String)
      → n.successors ≡ s ∷ rest
      → first_successor str_hash net n ≡ ok s
  unfolding first_successor
  first_successor_lem n s rest e = ground arith

  pub get_name_rpc_lem :
      (a : String) (n : Node) → chord_call net a ≡ ok n → get_name_rpc str_hash net a ≡ ok n.name
  unfolding get_name_rpc get_name
  get_name_rpc_lem a n e = ground arith

  -- What the loop over the fingers returns is a node that comes before the identifier.
  abbrev Precedes : ℕ → ℕ → String → Type 0
  Precedes identifier id address =
      (r : Node) × (net address ≡ some r)
      × (between identifier (hash_id str_hash r.name) id false ≡ true)

  finger_cases :
      (identifier id : ℕ) (f : FingerEntry) (fs : List FingerEntry) (r : Reply Node) (a : String)
      → chord_call net f.address ≡ r
      → closest str_hash net identifier id (f ∷ fs) ≡ some a
      → (closest str_hash net identifier id fs ≡ some a)
        ⊎ ((a ≡ f.address) × Precedes identifier id f.address)
  unfolding closest get_name get_name_rpc
  finger_cases identifier id f fs (ok n) a er e =
      elim (Bool-cases (between identifier (hash_id str_hash n.name) id false)) [
        | inl before ↦ inr (ground arith, (n, chord_call_inv net f.address n er, before))
        | inr after ↦ inl (ground arith)
      ]
  finger_cases identifier id f fs err a er e = inl (ground arith)
  finger_cases identifier id f fs panic a er e = inl (ground arith)
  finger_cases identifier id f fs no_answer a er e = inl (ground arith)

  closest-Precedes :
      (identifier id : ℕ) (fs : List FingerEntry) (a : String)
      → closest str_hash net identifier id fs ≡ some a
      → Precedes identifier id a
  closest-Precedes identifier id [] a e = unfold closest in absurd (cc e)
  closest-Precedes identifier id (f ∷ fs) a e =
      elim (finger_cases identifier id f fs (chord_call net f.address) a refl e) [
        | inl later ↦ closest-Precedes identifier id fs a later
        | inr (same, found) ↦ rw same found
      ]

  -- One more step: the node that a request is passed to lies closer to the identifier.
  abbrev Closer : Node → ℕ → Reply String → Type 0
  Closer n id r =
      (a : String) × (q : Node) × (r ≡ ok a)
      × (net a ≡ some q)
      × (arc n.identifier q.identifier < arc n.identifier id)

  pub identifier-lt : (a : String) (n : Node) → IsSettled str_hash net a n → n.identifier < hash_mod
  identifier-lt a n h = rw h.identified (omega arith)

  close_preceding_node-Closer :
      (a : String) (n : Node) (id : ℕ)
      → Settled str_hash net
      → net a ≡ some n
      → (h : IsSettled str_hash net a n) → id < hash_mod
      → between n.identifier id h.successor_node.identifier true ≡ false
      → Closer n id (close_preceding_node str_hash net n id)
  unfolding close_preceding_node
  close_preceding_node-Closer a n id all e h bound beyond =
      go (closest str_hash net n.identifier id (reverse (tail n.finger_table))) refl
    where
      go :
          (r : Option String)
          → closest str_hash net n.identifier id (reverse (tail n.finger_table)) ≡ r
          → Closer n id (close_preceding_node str_hash net n id)
      go none er =
          let q = h.successor_node in
          let settled = all h.successor q h.successor_runs in
          let lt = identifier-lt h.successor q settled in
          let lt' = identifier-lt a n h in
          rw (er, close_preceding_node)
            (
              h.successor,
              q,
              first_successor_lem n h.successor h.others h.successor_first,
              h.successor_runs,
              ground (arith, (between_iff n.identifier id q.identifier lt' bound lt).1),
            )
      go (some b) er =
          let (r, runs, before) =
            closest-Precedes n.identifier id (reverse (tail n.finger_table)) b er in
          let settled = all b r runs in
          let before' : between n.identifier r.identifier id false ≡ true =
            rw settled.identified before in
          rw (er, close_preceding_node)
            (
              b,
              r,
              refl,
              runs,
              (between_iff n.identifier r.identifier id (identifier-lt a n h)
                    (identifier-lt b r settled) bound).0.0
                  before',
            )

  -- The answer that a lookup owes.
  abbrev pub Answers : ℕ → Reply FindSuccessorReply → Type 0
  Answers id r =
      (s : String) × (r ≡ ok (record { found = true; successor_address = s }))
      × IsSuccessor net id s

  owned :
      (a : String) (n : Node) (id : ℕ)
      → Settled str_hash net
      → net a ≡ some n
      → (h : IsSettled str_hash net a n) → id < hash_mod
      → between n.identifier id h.successor_node.identifier true ≡ true
      → IsSuccessor net id h.successor
  owned a n id all e h bound within = record {
    node = h.successor_node;
    runs = h.successor_runs;
    first = λ b r er. first_lem b r er;
  }
    where
      first_lem :
          (b : String) (r : Node)
          → net b ≡ some r
          → distance id h.successor_node.identifier ≤ distance id r.identifier
      first_lem b r er =
          let q = h.successor_node in
          let lt = identifier-lt h.successor q (all h.successor q h.successor_runs) in
          let lt' = identifier-lt a n h in
          let lt'' = identifier-lt b r (all b r er) in
          let apart = h.adjacent b r er in
          ground (
            arith,
            between_iff n.identifier id q.identifier lt' bound lt,
            between_iff n.identifier r.identifier q.identifier lt' lt'' lt,
          )

  answered :
      (fuel : ℕ) (a : String) (n : Node) (id : ℕ)
      → Settled str_hash net
      → net a ≡ some n
      → id < hash_mod
      → arc n.identifier id ≤ fuel
      → Answers id (find_successor_rpc str_hash net fuel n id)
  unfolding find_successor_rpc respond
  answered zero a n id all e bound far = absurd (ground (arith, identifier-lt a n (all a n e)))
  answered (suc fuel) a n id all e bound far =
      let h = all a n e in
      let q = h.successor_node in
      let settled = all h.successor q h.successor_runs in
      let called = chord_call_ok net h.successor q settled.callable h.successor_runs in
      let head = first_successor_lem n h.successor h.others h.successor_first in
      let named = get_name_rpc_lem h.successor q called in
      let small : id % hash_mod ≡ id = omega arith in
      elim (Bool-cases (between n.identifier id q.identifier true)) [
        | inl within ↦
            let hashed : between n.identifier id (hash_id str_hash q.name) true ≡ true =
              rw (← settled.identified) within in
            (
              h.successor,
              ground (arith, head, named, small, hashed),
              owned a n id all e h bound within,
            )
        | inr beyond ↦
            let hashed : between n.identifier id (hash_id str_hash q.name) true ≡ false =
              rw (← settled.identified) beyond in
            let (b, r, passed, runs, closer) =
              close_preceding_node-Closer a n id all e h bound beyond in
            let reached = chord_call_ok net b r (all b r runs).callable runs in
            let (s, answer, owner) = answered fuel b r id all runs bound (
              omega (
                arith,
                arc-lt_of_arc-lt n.identifier r.identifier id (identifier-lt a n h)
                    (identifier-lt b r (all b r runs)) bound closer,
              )) in
            (s, ground (arith, head, named, small, hashed, passed, reached, answer), owner)
      ]

  ignores_turns :
      (fuel : ℕ) (n : Node) (id : ℕ)
      → find_successor_rpc str_hash net fuel n id
        ≡ find_successor_rpc str_hash net fuel n (id % hash_mod)
  unfolding find_successor_rpc
  ignores_turns zero n id = refl
  ignores_turns (suc fuel) n id =
      ap (respond str_hash net (find_successor_rpc str_hash net fuel) n) (omega arith)

  -- On a network where each node's first successor is right, `FindSuccessorRPC` at any node, for any
  -- identifier, ends within a chain of 64 calls and reports as found the first node at or after the
  -- identifier. The finger tables may hold anything, addresses where nothing listens included.
  pub find_successor_rpc-Answers :
      (fuel : ℕ) (a : String) (n : Node) (id : ℕ)
      → Settled str_hash net
      → net a ≡ some n
      → hash_mod ≤ fuel
      → Answers (id % hash_mod) (find_successor_rpc str_hash net fuel n id)
  find_successor_rpc-Answers fuel a n id all e enough = rw (ignores_turns fuel n id) (
      answered fuel a n (id % hash_mod) all e (omega arith)
        (ground (arith, identifier-lt a n (all a n e))))

  -- On a network where each node's first successor is right, `find`, started at the address of any
  -- node, returns for any identifier the address of the first node at or after it, with fuel for a
  -- chain of 64 calls. The finger tables may hold anything.
  pub find-IsSuccessor :
      (fuel : ℕ) (a : String) (n : Node) (id : ℕ)
      → Settled str_hash net
      → net a ≡ some n
      → hash_mod ≤ fuel
      → (s : String) × (find str_hash net fuel id a ≡ ok s) × IsSuccessor net (id % hash_mod) s
  unfolding find find_from
  find-IsSuccessor fuel a n id all e enough =
      let (s, answer, owner) =
        answered fuel a n (id % hash_mod) all e (omega arith)
          (ground (arith, identifier-lt a n (all a n e))) in
      let called = chord_call_ok net a n (all a n e).callable e in
      (s, ground (arith, called, answer), owner)
