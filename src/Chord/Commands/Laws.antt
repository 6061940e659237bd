-- ===== src/Chord/Commands/Laws.antt =====
-- What the commands of a node say on a ring whose successor pointers are right.
use tda596_distributed_syste.Prelude.{
  ℕ, zero, suc, ◌≤◌, ◌<◌, ◌≡◌, ◌⊎◌, refl, ap, ◌∙◌, if◌then◌else◌, Bool, Bool-cases, inl, inr, true,
  false, none, some, List, [], ◌∷◌, String, length, get_elem?, arith,
}
use text.Mathlib.Text.{◌==◌ as str_eq}
use mathlib.Core.Option.{some-injective}
use text.Mathlib.TextEquality.{eq_iff}
use tda596_distributed_syste.Prelude.Text.{split}
use tda596_distributed_syste.Chord.Ring.{hash_mod, hash_id}
use tda596_distributed_syste.Chord.Node.{
  Node, BucketEntry, Arguments, create_chord, get_name, new_node, host_port,
}
use tda596_distributed_syste.Chord.Node.Creation.{
  create_chord-Settled, new_node_lem, new_node-successors,
}
use tda596_distributed_syste.Chord.Net.{ok, ◌>>=◌, Net, chord_call, update}
use tda596_distributed_syste.Chord.Routing.{get_name_rpc}
use tda596_distributed_syste.Chord.Routing.Lookup.{Settled, IsSuccessor, chord_call_ok}
use tda596_distributed_syste.Chord.Storage.{Disk, check_file_exist_rpc}
use tda596_distributed_syste.Chord.Client.{Keys, check_args_valid, creates}
use tda596_distributed_syste.Chord.Client.Laws.{look_up_lem, check_args_valid-InRange}
use tda596_distributed_syste.Chord.Commands.{
  Machine, running, start, looked_up, stored_at, not_stored, presence, look_up_command,
}

presence_lem :
    (str_hash : String → ℕ) (keys : Keys) (disk : Disk) (net : Net) (s key : String) (q : Node)
    → chord_call net s ≡ ok q
    → presence str_hash keys disk net s key
      ≡ (if check_file_exist_rpc q.bucket key then stored_at (get_name q) else not_stored)
unfolding presence get_name_rpc
presence_lem str_hash keys disk net s key q called =
    let named : get_name_rpc str_hash net s ≡ ok (get_name q) =
      ap (λ r. r >>= λ n. ok (get_name n)) called in
    ground (arith, called, named)

-- An entry of the bucket has the name.
abbrev pub Holds : String → List BucketEntry → Type 0
Holds key es = (i : ℕ) × (e : BucketEntry) × (get_elem? es i ≡ some e) × (e.name ≡ key)

Holds-cons :
    (key : String) (e : BucketEntry) (es : List BucketEntry) → Holds key es → Holds key (e ∷ es)
Holds-cons key e es (i, x, at, same) = (suc i, x, at, same)

Holds-cases :
    (key : String) (e : BucketEntry) (es : List BucketEntry)
    → Holds key (e ∷ es)
    → (e.name ≡ key) ⊎ Holds key es
Holds-cases key e es (zero, x, at, same) =
    inl (ap (λ (y : BucketEntry). y.name) (some-injective e x at) ∙ same)
Holds-cases key e es (suc i, x, at, same) = inr (i, x, at, same)

check_file_exist_rpc-Holds :
    (es : List BucketEntry) (key : String)
    → ((check_file_exist_rpc es key ≡ true) × Holds key es)
      ⊎ ((check_file_exist_rpc es key ≡ false) × (¬ Holds key es))
unfolding check_file_exist_rpc
check_file_exist_rpc-Holds [] key = inr (refl, λ (i, e, at, same). absurd (ground (arith, at)))
check_file_exist_rpc-Holds (e ∷ es) key = elim (Bool-cases (str_eq e.name key)) [
  | inl same ↦ inl (rw same refl, (0, e, refl, (eq_iff e.name key).0 same))
  | inr other ↦ elim (check_file_exist_rpc-Holds es key) [
    | inl (found, h) ↦ inl (rw other found, Holds-cons key e es h)
    | inr (missing, none_there) ↦ inr (
      rw other missing,
      λ h. elim (Holds-cases key e es h) [
        | inl same ↦ ground (arith, other, eq_iff e.name key, same)
        | inr later ↦ none_there later
      ],
    )
  ]
]

-- On a network where each node's first successor is right, the lookup command of a running node, with
-- fuel for 64 calls, names the first node at or after the key's identifier, and says that the file is
-- stored there, under that node's name, if an entry of its bucket has the file's name, and that it is
-- not stored if none has.
pub look_up_command-IsSuccessor :
    (str_hash : String → ℕ) (keys : Keys) (disk : Disk) (fuel : ℕ) (net : Net) (key : String)
    (node n : Node)
    → Settled str_hash net
    → net node.address ≡ some n
    → hash_mod ≤ fuel
    → (s : String) × (owner : IsSuccessor net (hash_id str_hash key) s) × (((look_up_command
              str_hash keys disk fuel net key node
            ≡ looked_up (some s) (stored_at (get_name owner.node)))
          × Holds key owner.node.bucket)
        ⊎ ((look_up_command str_hash keys disk fuel net key node ≡ looked_up (some s) not_stored)
            × (¬ Holds key owner.node.bucket)))
unfolding look_up_command
look_up_command-IsSuccessor str_hash keys disk fuel net key node n all runs enough =
    let (s, found, owner) = look_up_lem str_hash net fuel key node n all runs enough in
    let called = chord_call_ok net s owner.node (all s owner.node owner.runs).callable owner.runs in
    let said = presence_lem str_hash keys disk net s key owner.node called in
    (
      s,
      owner,
      elim (check_file_exist_rpc-Holds owner.node.bucket key) [
        | inl (there, h) ↦ inl (rw (found, look_up_command, said, there) refl, h)
        | inr (missing, h) ↦ inr (rw (found, look_up_command, said, missing) refl, h)
      ],
    )

-- The node that `main` makes of its arguments.
abbrev pub new_node_of : (String → ℕ) → Machine → Arguments → Node
new_node_of str_hash machine args =
    new_node str_hash machine.ip2 machine.local_address machine.folder args

-- A node that starts with arguments that pass the check and name no ring to join, where no other node
-- listens and its address can be listened at, runs alone, as the node made of the arguments, on a
-- ring on which each node's first successor is right. (It is reached at the address that it names,
-- and that is of the form "ip:port".)
pub start-Settled :
    (str_hash : String → ℕ) (keys : Keys) (disk : Disk) (fuel : ℕ) (is_ip : String → Bool)
    (machine : Machine) (args : Arguments)
    → check_args_valid is_ip args ≡ creates
    → machine.can_listen (host_port args.address args.port) ≡ true
    → machine.reached_at (host_port args.address args.port)
      ≡ (new_node_of str_hash machine args).address
    → length (split b':' (new_node_of str_hash machine args).address) ≡ 2
    → (net : Net) × (start str_hash keys disk fuel is_ip machine args (λ _. none) ≡ running net)
      × (net (new_node_of str_hash machine args).address
          ≡ some (create_chord (new_node_of str_hash machine args)))
      × Settled str_hash net
unfolding start
start-Settled str_hash keys disk fuel is_ip machine args valid listens reached parts =
    let node = new_node_of str_hash machine args in
    let (in_range, _) = check_args_valid-InRange is_ip args (λ bad. ground (arith, valid, bad)) in
    let kept : 0 < length node.successors = omega (
      arith,
      new_node-successors str_hash machine.ip2 machine.local_address machine.folder args,
      in_range.8,
    ) in
    (
      update (λ _. none) node.address (create_chord node),
      rw (valid, listens, reached, start) refl,
      ground (arith, eq_iff node.address node.address),
      (unfold create_chord in
          create_chord-Settled str_hash node parts
            (new_node_lem str_hash machine.ip2 machine.local_address machine.folder args).0 kept),
    )
