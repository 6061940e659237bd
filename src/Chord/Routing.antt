-- ===== src/Chord/Routing.antt =====
-- Lab2/Node/routing.go: the lookup of an identifier.
pub mod Lookup
pub mod Newcomer
use text.Mathlib.Text.{◌==◌ as str_eq}
use tda596_distributed_syste.Prelude.{
  ℕ, zero, suc, ◌+◌, ◌%◌, ltb, ◌==◌, if◌then◌else◌, Bool, true, false, Option, none, some, List, [],
  ◌∷◌, String,
}
use mathlib.Core.List.{reverse, tail}
use tda596_distributed_syste.Prelude.Text.{◌&◌}
use tda596_distributed_syste.Chord.Ring.{hash_mod, hash_id, between}
use tda596_distributed_syste.Chord.Node.{Node, FingerEntry, get_name}
use tda596_distributed_syste.Chord.Net.{Reply, ok, err, panic, no_answer, ◌>>=◌, Net, chord_call}

pub record FindSuccessorReply : Type 0 where
  pub found : Bool
  pub successor_address : String

module _ (str_hash : String → ℕ) (net : Net) where
  -- `Node.GetNameRPC` at an address.
  unfoldable pub get_name_rpc : String → Reply String
  get_name_rpc address = chord_call net address >>= λ n. ok (get_name n)

  -- `node.Successors[0]`
  unfoldable pub first_successor : Node → Reply String
  first_successor node = elim node.successors [ [] ↦ panic | s ∷ _ ↦ ok s ]

  -- The loop over the finger table, from its end; entry 0 is not in the list.
  unfoldable pub closest : ℕ → ℕ → List FingerEntry → Option String
  closest identifier id [] = none
  closest identifier id (f ∷ fs) =
      let rest = closest identifier id fs in
      elim (get_name_rpc f.address) [
        | ok name ↦
            if between identifier (hash_id str_hash name) id false then some f.address else rest
        | _ ↦ rest
      ]

  unfoldable pub close_preceding_node : Node → ℕ → Reply String
  close_preceding_node node id =
      elim (closest node.identifier id (reverse (tail node.finger_table))) [
        | some address ↦ ok address
        | none ↦ first_successor node
      ]

  abbrev pub error_at : String → FindSuccessorReply
  error_at address = record {
    found = false;
    successor_address = "Error in findSuccessorRPC at " & address;
  }

  -- The body of `FindSuccessorRPC` for an identifier that is reduced already; `call` is the same RPC
  -- at the next node. Whatever that node answers, unless the call fails, is passed on as found.
  unfoldable pub respond :
      (Node → ℕ → Reply FindSuccessorReply) → Node → ℕ → Reply FindSuccessorReply
  respond call node id = first_successor node >>= λ s. elim (get_name_rpc s) [
    | ok name ↦
        let forward = close_preceding_node node id >>= λ next. elim (chord_call net next) [
          | ok n ↦ elim (call n id) [
            | ok r ↦ ok (record { found = true; successor_address = r.successor_address })
            | no_answer ↦ no_answer
            | _ ↦ ok (error_at next)
          ]
          | _ ↦ ok (error_at next)
        ] in
        if between node.identifier id (hash_id str_hash name) true
        then ok (record { found = true; successor_address = s })
        else forward
    | _ ↦ ok (error_at s)
  ]

  -- `FindSuccessorRPC` with fuel for the depth of the calls from node to node.
  unfoldable pub find_successor_rpc : ℕ → Node → ℕ → Reply FindSuccessorReply
  find_successor_rpc zero node id = no_answer
  find_successor_rpc (suc fuel) node id = respond (find_successor_rpc fuel) node (id % hash_mod)

  -- The loop of `find` with `rounds` of its ten rounds left; a failed call leaves the zero reply.
  find_from : ℕ → ℕ → String → ℕ → Reply String
  find_from fuel zero node id = ok "-1"
  find_from fuel (suc rounds) node id =
      elim (chord_call net node >>= λ n. find_successor_rpc fuel n id) [
        | ok r ↦ elim r.found [
          | true ↦ ok r.successor_address
          | false ↦ find_from fuel rounds r.successor_address id
        ]
        | no_answer ↦ no_answer
        | _ ↦ find_from fuel rounds "" id
      ]

  pub find : ℕ → ℕ → String → Reply String
  unfolding find_from
  find fuel id start = find_from fuel 10 start (id % hash_mod)

  -- `clientLookUp`; an error if `find` gives "-1".
  unfoldable pub client_look_up : ℕ → String → Node → Reply String
  client_look_up fuel key node = find fuel (str_hash key) node.address >>= λ address.
      if str_eq address "-1" then err else ok address
