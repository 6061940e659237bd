-- ===== src/Chord/Routing/Newcomer.antt =====
-- About lookups on a network in which a node listens that the others do not know yet.
use text.Mathlib.Text.{◌==◌ as str_eq}
use mathlib.Core.List.{reverse, tail}
use tda596_distributed_syste.Prelude.{
  ℕ, zero, suc, ◌%◌, ◌≡◌, refl, ap, ◌∙◌, if◌then◌else◌, true, false, none, some, List, [], ◌∷◌,
  String, arith,
}
use tda596_distributed_syste.Prelude.Text.{◌&◌}
use tda596_distributed_syste.Chord.Ring.{hash_mod, hash_id, between}
use tda596_distributed_syste.Chord.Node.{Node, FingerEntry, get_name}
use tda596_distributed_syste.Chord.Net.{
  Reply, ok, err, panic, no_answer, ◌>>=◌, Net, chord_call, update,
}
use tda596_distributed_syste.Chord.Routing.{
  FindSuccessorReply, get_name_rpc, first_successor, closest, close_preceding_node, respond,
  find_successor_rpc,
}
use tda596_distributed_syste.Chord.Routing.Lookup.{chord_call_inv}

abbrev pub NoFinger : String → List FingerEntry → Type 0
NoFinger self [] = Unit {0}
NoFinger self (f ∷ fs) = (str_eq f.address self ≡ false) × NoFinger self fs

abbrev pub FirstNot : String → List String → Type 0
FirstNot self [] = Unit {0}
FirstNot self (s ∷ others) = str_eq s self ≡ false

-- A node that names an address neither as its first successor nor in its finger table.
pub record Unaware (self : String) (n : Node) : Type 0 where
  pub not_successor : FirstNot self n.successors
  pub no_finger : NoFinger self (reverse (tail n.finger_table))

pub chord_call-update :
    (net : Net) (self : String) (node : Node) (a : String)
    → str_eq a self ≡ false
    → chord_call (update net self node) a ≡ chord_call net a
unfolding chord_call
chord_call-update net self node a e = ground (arith, e)

module _ (str_hash : String → ℕ) (net : Net) (self : String) (node : Node) where
  name_same :
      (a : String)
      → str_eq a self ≡ false
      → get_name_rpc str_hash (update net self node) a ≡ get_name_rpc str_hash net a
  unfolding get_name_rpc
  name_same a e = ap (λ r. r >>= λ n. ok (get_name n)) (chord_call-update net self node a e)

  closest_same :
      (identifier id : ℕ) (fs : List FingerEntry)
      → NoFinger self fs
      → closest str_hash (update net self node) identifier id fs
        ≡ closest str_hash net identifier id fs
  unfolding closest
  closest_same identifier id [] h = refl
  closest_same identifier id (f ∷ fs) h =
      ap
        (λ r. elim r [
          | ok name ↦
              if between identifier (hash_id str_hash name) id false
              then some f.address
              else closest str_hash (update net self node) identifier id fs
          | _ ↦ closest str_hash (update net self node) identifier id fs
        ])
        (name_same f.address h.0)
      ∙ ap
          (λ rest. elim (get_name_rpc str_hash net f.address) [
            | ok name ↦
                if between identifier (hash_id str_hash name) id false then some f.address else rest
            | _ ↦ rest
          ])
          (closest_same identifier id fs h.1)

  -- An address that is found is one of the table.
  closest_known :
      (identifier id : ℕ) (fs : List FingerEntry) (a : String)
      → NoFinger self fs
      → closest str_hash net identifier id fs ≡ some a
      → str_eq a self ≡ false
  unfolding closest
  closest_known identifier id [] a h e = ground arith
  closest_known identifier id (f ∷ fs) a h e =
      ground (arith, e, h.0, closest_known identifier id fs a h.1)

  close_preceding_same :
      (n : Node) (id : ℕ)
      → Unaware self n
      → close_preceding_node str_hash (update net self node) n id
        ≡ close_preceding_node str_hash net n id
  unfolding close_preceding_node first_successor
  close_preceding_same n id h =
      ap (λ o. elim o [ some address ↦ ok address | none ↦ first_successor str_hash net n ])
        (closest_same n.identifier id (reverse (tail n.finger_table)) h.no_finger)

  close_preceding_known :
      (n : Node) (id : ℕ) (a : String)
      → Unaware self n
      → close_preceding_node str_hash net n id ≡ ok a
      → str_eq a self ≡ false
  unfolding close_preceding_node first_successor
  close_preceding_known n id a h e = ground (
    arith,
    e,
    h.not_successor,
    closest_known n.identifier id (reverse (tail n.finger_table)) a h.no_finger,
  )

bind_same :
    {A B : Type 0} (r : Reply A) (f f' : A → Reply B)
    → ((x : A) → r ≡ ok x → f' x ≡ f x)
    → (r >>= f') ≡ (r >>= f)
bind_same (ok x) f f' h = h x refl
bind_same err f f' h = refl
bind_same panic f f' h = refl
bind_same no_answer f f' h = refl

-- The answer when a call fails.
abbrev failed_at : String → FindSuccessorReply
failed_at address = record {
  found = false;
  successor_address = "Error in findSuccessorRPC at " & address;
}

abbrev answered : String → Reply FindSuccessorReply → Reply FindSuccessorReply
answered next (ok r) = ok (record { found = true; successor_address = r.successor_address })
answered next no_answer = no_answer
answered next _ = ok (failed_at next)

-- The call at the next node.
abbrev pass_on : Net → (Node → ℕ → Reply FindSuccessorReply) → ℕ → String → Reply FindSuccessorReply
pass_on net call id next = elim (chord_call net next) [
  | ok n ↦ answered next (call n id)
  | _ ↦ ok (failed_at next)
]

module _ (str_hash : String → ℕ) (net : Net) (self : String) (node : Node) where
  pass_on_same :
      (call call' : Node → ℕ → Reply FindSuccessorReply) (id : ℕ) (next : String)
      → str_eq next self ≡ false
      → ((b : String) (m : Node) → net b ≡ some m → call' m id ≡ call m id)
      → pass_on (update net self node) call' id next ≡ pass_on net call id next
  pass_on_same call call' id next other same =
      ap (λ r. elim r [ ok n ↦ answered next (call' n id) | _ ↦ ok (failed_at next) ])
        (chord_call-update net self node next other)
      ∙ called (chord_call net next) refl
    where
      called :
          (r : Reply Node)
          → chord_call net next ≡ r
          → (elim r [ ok n ↦ answered next (call' n id) | _ ↦ ok (failed_at next) ])
            ≡ (elim r [ ok n ↦ answered next (call n id) | _ ↦ ok (failed_at next) ])
      called (ok n) e = ap (answered next) (same next n (chord_call_inv net next n e))
      called err e = refl
      called panic e = refl
      called no_answer e = refl

  forward_same :
      (call call' : Node → ℕ → Reply FindSuccessorReply) (n : Node) (id : ℕ)
      → Unaware self n
      → ((b : String) (m : Node) → net b ≡ some m → call' m id ≡ call m id)
      → (close_preceding_node str_hash (update net self node) n id
          >>= pass_on (update net self node) call' id)
        ≡ (close_preceding_node str_hash net n id >>= pass_on net call id)
  forward_same call call' n id h same =
      ap (λ r. r >>= pass_on (update net self node) call' id)
        (close_preceding_same str_hash net self node n id h)
      ∙ bind_same (close_preceding_node str_hash net n id) (pass_on net call id)
          (pass_on (update net self node) call' id)
          (λ next e.
            pass_on_same call call' id next
              (close_preceding_known str_hash net self node n id next h e) same)

  -- The successor if the identifier is its own, and else what the others say.
  abbrev owner_or :
      Reply String → Node → ℕ → String → Reply FindSuccessorReply → Reply FindSuccessorReply
  owner_or name n id s forward = elim name [
    | ok name ↦
        if between n.identifier id (hash_id str_hash name) true
        then ok (record { found = true; successor_address = s })
        else forward
    | _ ↦ ok (failed_at s)
  ]

  respond_same :
      (call call' : Node → ℕ → Reply FindSuccessorReply) (n : Node) (id : ℕ)
      → Unaware self n
      → ((b : String) (m : Node) → net b ≡ some m → call' m id ≡ call m id)
      → respond str_hash (update net self node) call' n id ≡ respond str_hash net call n id
  unfolding respond first_successor
  respond_same call call' n id h same =
      bind_same (first_successor str_hash net n)
        (λ s.
          owner_or (get_name_rpc str_hash net s) n id s
            (close_preceding_node str_hash net n id >>= pass_on net call id))
        (λ s. owner_or (get_name_rpc str_hash (update net self node) s) n id s (
          close_preceding_node str_hash (update net self node) n id
          >>= pass_on (update net self node) call' id))
        (λ s e.
          ap
            (λ r. owner_or r n id s (
              close_preceding_node str_hash (update net self node) n id
              >>= pass_on (update net self node) call' id))
            (name_same str_hash net self node s (ground (arith, e, h.not_successor)))
          ∙ ap (owner_or (get_name_rpc str_hash net s) n id s)
              (forward_same call call' n id h same))

  -- As long as no node of the network names the new address, a lookup does not see what stands there.
  pub find_successor_rpc-update :
      (fuel : ℕ) (a : String) (n : Node) (id : ℕ)
      → ((b : String) (m : Node) → net b ≡ some m → Unaware self m)
      → net a ≡ some n
      → find_successor_rpc str_hash (update net self node) fuel n id
        ≡ find_successor_rpc str_hash net fuel n id
  unfolding find_successor_rpc
  find_successor_rpc-update zero a n id all e = refl
  find_successor_rpc-update (suc fuel) a n id all e =
      respond_same (find_successor_rpc str_hash net fuel)
        (find_successor_rpc str_hash (update net self node) fuel) n (id % hash_mod) (all a n e)
        (λ b m eb. find_successor_rpc-update fuel b m (id % hash_mod) all eb)
