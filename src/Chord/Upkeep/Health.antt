-- ===== src/Chord/Upkeep/Health.antt =====
-- The invariant of the periodic tasks of Lab2/Node.
use text.Mathlib.Text.{◌==◌ as str_eq}
use text.Mathlib.TextEquality.{eq_iff}
use tda596_distributed_syste.Prelude.{
  ℕ, suc, ◌<◌, ◌≡◌, refl, sym, ap, ◌∙◌, Bool-cases, inl, inr, true, false, some, List, [], ◌∷◌, map,
  String, length, get_elem?, arith,
}
use tda596_distributed_syste.Chord.Ring.{hash_id, between, finger_entry}
use tda596_distributed_syste.Chord.Node.{Node, create_chord}
use tda596_distributed_syste.Prelude.Text.{split}
use tda596_distributed_syste.Chord.Node.Creation.{alone, alone_cases, create_chord-Settled}
use tda596_distributed_syste.Chord.Net.{Net, update}
use tda596_distributed_syste.Chord.Pointers.{
  Pointers, KeepsPlaces, KeepsPlaces-runs, can_dial, Dialled, update-Dialled, place,
}
use tda596_distributed_syste.Chord.Routing.Lookup.{Settled}
use tda596_distributed_syste.Chord.Repair.Places.{Settled-KeepsPlaces}
use tda596_distributed_syste.Chord.Fingers.Soundness.{HasFingers}

length-map_const : (a : String) (l : List String) → length (map (λ _. a) l) ≡ length l
length-map_const a [] = refl
length-map_const a (x ∷ l) = ap suc (length-map_const a l)

-- What is right at each node: its address is the one that it listens at, its list has the length that
-- all nodes keep, and its finger table is well formed.
pub record IsOrdinary (k : ℕ) (address : String) (n : Node) : Type 0 where
  pub own_address : n.address ≡ address
  pub list_length : length n.successors ≡ k
  pub fingers : HasFingers n

-- A network whose first successors are right, where predecessors can be dialled.
pub record IsHealthy (str_hash : String → ℕ) (k : ℕ) (net : Net) : Type 0 where
  pub settled : Settled str_hash net
  pub dialled : Dialled net
  pub ordinary : (a : String) (n : Node) → net a ≡ some n → IsOrdinary k a n

pub place-HasFingers : (n n' : Node) → place n' ≡ place n → HasFingers n → HasFingers n'
place-HasFingers n n' same h =
    let table = ap (λ (q : Pointers). q.finger_table) same in
    let id = ap (λ (q : Pointers). q.identifier) same in
    record {
      size = ap length table ∙ h.size;
      ids = λ i e ei pos.
          h.ids i e (ap (λ l. get_elem? l i) (sym table) ∙ ei) pos
          ∙ ap (λ k. finger_entry k i) (sym id);
      in_table = ground (arith, ap (λ (q : Pointers). q.next) same, h.in_table);
    }

pub KeepsPlaces-IsHealthy :
    (str_hash : String → ℕ) (k : ℕ) (net net' : Net)
    → IsHealthy str_hash k net
    → KeepsPlaces net net'
    → Dialled net'
    → IsHealthy str_hash k net'
KeepsPlaces-IsHealthy str_hash k net net' h keeps good = record {
  settled = Settled-KeepsPlaces str_hash net net' keeps h.settled;
  dialled = good;
  ordinary = λ a n' e.
      let (n, here, same) = KeepsPlaces-runs net' net a n' (λ b. sym (keeps b)) e in
      let o = h.ordinary a n here in
      let same' : place n' ≡ place n = sym same in
      record {
        own_address = ap (λ (q : Pointers). q.address) same' ∙ o.own_address;
        list_length = ap (λ (q : Pointers). length q.successors) same' ∙ o.list_length;
        fingers = place-HasFingers n n' same' o.fingers;
      };
}

-- A node that is written back in good order, with the same first successor.
module _ (str_hash : String → ℕ) (k : ℕ) (net : Net) (p s : String) (node node' : Node)
    (old others : List String) (healthy : IsHealthy str_hash k net) (here : net p ≡ some node)
    (same_name : node'.name ≡ node.name) (same_id : node'.identifier ≡ node.identifier)
    (first : node.successors ≡ s ∷ old) (first' : node'.successors ≡ s ∷ others) where
  abbrev Renewed : Node → String → Type 0
  Renewed r b = (r' : Node) × (update net p node' b ≡ some r') × (r'.identifier ≡ r.identifier)

  renewed : (b : String) (r : Node) → net b ≡ some r → Renewed r b
  renewed b r e = elim (Bool-cases (str_eq b p)) [
    | inl is_p ↦
        (node', rw is_p refl, ground (arith, same_id, e, here, ap net ((eq_iff b p).0 is_p)))
    | inr other ↦ (r, rw other e, refl)
  ]

  renewed_adjacent :
      (start end : ℕ)
      → ((b : String) (r : Node) → net b ≡ some r → between start r.identifier end false ≡ false)
      → (b : String) (r : Node) → update net p node' b ≡ some r
      → between start r.identifier end false ≡ false
  renewed_adjacent start end old_ones b r e = elim (Bool-cases (str_eq b p)) [
    | inl is_p ↦ ground (arith, is_p, e, same_id, old_ones p node here)
    | inr other ↦ old_ones b r (ground (arith, other, e))
  ]

  renewed-Settled : Settled str_hash (update net p node')
  renewed-Settled a n e = elim (Bool-cases (str_eq a p)) [
    | inl is_p ↦
        let h = healthy.settled p node here in
        let (t, t_runs, t_id) = renewed h.successor h.successor_node h.successor_runs in
        let is_node : n ≡ node' = ground (arith, is_p, e) in
        let is_s : h.successor ≡ s = ground (arith, h.successor_first, first) in
        rw (is_node, (eq_iff a p).0 is_p)
          (record {
            callable = h.callable;
            identified = ground (arith, same_id, same_name, h.identified);
            successor = h.successor;
            others = others;
            successor_first = rw is_s first';
            successor_node = t;
            successor_runs = t_runs;
            adjacent = λ b r runs. ground (
              arith,
              same_id,
              t_id,
              renewed_adjacent node.identifier h.successor_node.identifier h.adjacent b r runs,
            );
          })
    | inr other ↦
        let h = healthy.settled a n (ground (arith, other, e)) in
        let (t, t_runs, t_id) = renewed h.successor h.successor_node h.successor_runs in
        record {
          callable = h.callable;
          identified = h.identified;
          successor = h.successor;
          others = h.others;
          successor_first = h.successor_first;
          successor_node = t;
          successor_runs = t_runs;
          adjacent = rw t_id (renewed_adjacent _ _ h.adjacent);
        }
  ]

  pub update-IsHealthy :
      can_dial node'.predecessor ≡ true
      → IsOrdinary k p node'
      → IsHealthy str_hash k (update net p node')
  update-IsHealthy good ordinary' = record {
    settled = renewed-Settled;
    dialled = update-Dialled net p node' healthy.dialled good;
    ordinary = λ a n e. elim (Bool-cases (str_eq a p)) [
      | inl is_p ↦
          let is_node : n ≡ node' = ground (arith, is_p, e) in
          rw (is_node, (eq_iff a p).0 is_p) ordinary'
      | inr other ↦ healthy.ordinary a n (ground (arith, other, e))
    ];
  }

-- The ring of one node that has just been created is in order.
pub create_chord-IsHealthy :
    (str_hash : String → ℕ) (node : Node)
    → length (split b':' node.address) ≡ 2
    → node.identifier ≡ hash_id str_hash node.name
    → 0 < length node.successors
    → HasFingers node
    → IsHealthy str_hash (length node.successors) (alone (create_chord node))
create_chord-IsHealthy str_hash node parts named kept fingers = record {
  settled = create_chord-Settled str_hash node parts named kept;
  dialled = λ a n e. rw (alone_cases (create_chord node) a n e).1 (unfold create_chord in refl);
  ordinary = λ a n e.
      let (at_node, is_node) = alone_cases (create_chord node) a n e in
      rw (at_node, is_node)
        (unfold create_chord in
          record {
            own_address = refl;
            list_length = length-map_const node.address node.successors;
            fingers = record {
              size = fingers.size;
              ids = fingers.ids;
              in_table = fingers.in_table;
            };
          });
}
