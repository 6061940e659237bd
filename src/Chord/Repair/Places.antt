-- ===== src/Chord/Repair/Places.antt =====
-- Which networks of Lab2/Node have right successor pointers depends on the places of the nodes alone;
-- a node that is put between two neighbours keeps them right.
use text.Mathlib.Text.{◌==◌ as str_eq}
use text.Mathlib.TextEquality.{eq_iff}
use tda596_distributed_syste.Prelude.{
  ℕ, ◌<◌, ◌≡◌, ◌≢◌, refl, sym, ap, Bool-cases, inl, inr, true, false, none, some, List, ◌∷◌, String,
  length, arith,
}
use tda596_distributed_syste.Prelude.Text.{split}
use tda596_distributed_syste.Chord.Ring.{hash_mod, hash_id, between}
use tda596_distributed_syste.Chord.Ring.Arcs.{
  nothing_before, nothing_after, nothing_elsewhere, between-end, between-start,
}
use tda596_distributed_syste.Chord.Node.{Node}
use tda596_distributed_syste.Chord.Net.{Net, update}
use tda596_distributed_syste.Chord.Client.Laws.{Distinct}
use tda596_distributed_syste.Chord.Pointers.{KeepsPlaces, KeepsPlaces-runs}
use tda596_distributed_syste.Chord.Routing.Lookup.{IsSettled, Settled, identifier-lt}

pub Settled-KeepsPlaces :
    (str_hash : String → ℕ) (net net' : Net)
    → KeepsPlaces net net'
    → Settled str_hash net
    → Settled str_hash net'
Settled-KeepsPlaces str_hash net net' k settled a n' e =
    let (n, here, same) = KeepsPlaces-runs net' net a n' (λ b. sym (k b)) e in
    let h = settled a n here in
    let (t', there, t_same) =
      KeepsPlaces-runs net net' h.successor h.successor_node k h.successor_runs in
    record {
      callable = h.callable;
      identified = ground (arith, same, h.identified);
      successor = h.successor;
      others = h.others;
      successor_first = ground (arith, same, h.successor_first);
      successor_node = t';
      successor_runs = there;
      adjacent = λ b r' runs.
          let (r, runs', r_same) = KeepsPlaces-runs net' net b r' (λ b. sym (k b)) runs in
          let before = h.adjacent b r runs' in ground (arith, before, same, t_same, r_same);
    }

-- A node `xn` at an address that nobody had, and its predecessor, which knows it.
abbrev pub with_newcomer : Net → String → Node → String → Node → List String → Net
with_newcomer net x xn p pn others =
    update (update net x xn) p (record pn { successors = x ∷ others })

module _ (str_hash : String → ℕ) (net : Net) (p x s : String) (pn xn sn : Node)
    (rest x_others others : List String) (settled : Settled str_hash net) (distinct : Distinct net)
    (absent : net x ≡ none) (here : net p ≡ some pn) (first : pn.successors ≡ s ∷ rest)
    (there : net s ≡ some sn) (callable : length (split b':' x) ≡ 2)
    (identified : xn.identifier ≡ hash_id str_hash xn.name) (joined : xn.successors ≡ s ∷ x_others)
    (inside : between pn.identifier xn.identifier sn.identifier false ≡ true) where
  abbrev ring : Net
  ring = with_newcomer net x xn p pn others

  -- Every node of the old network is still there, with its identifier.
  abbrev Kept : String → Node → Type 0
  Kept b r = (r' : Node) × (ring b ≡ some r') × (r'.identifier ≡ r.identifier)

  kept : (b : String) (r : Node) → net b ≡ some r → Kept b r
  kept b r e = elim (Bool-cases (str_eq b p)) [
    | inl is_p ↦ (
      record pn { successors = x ∷ others },
      rw is_p refl,
      ground (arith, e, here, ap net ((eq_iff b p).0 is_p)),
    )
    | inr other ↦
        let not_x : str_eq b x ≡ false = ground (arith, e, absent, eq_iff b x) in
        (r, rw (other, not_x) e, refl)
  ]

  -- What does not lie between two nodes: the new node, and none of the old ones.
  nothing_between :
      (start end : ℕ)
      → between start xn.identifier end false ≡ false
      → ((b : String) (r : Node) → net b ≡ some r → between start r.identifier end false ≡ false)
      → (b : String) (r : Node) → ring b ≡ some r
      → between start r.identifier end false ≡ false
  nothing_between start end new old b r e = elim (Bool-cases (str_eq b p)) [
    | inl is_p ↦ ground (arith, is_p, e, old p pn here)
    | inr other ↦ elim (Bool-cases (str_eq b x)) [
      | inl is_x ↦ ground (arith, other, is_x, e, new)
      | inr not_x ↦ old b r (ground (arith, other, not_x, e))
    ]
  ]

  p_settled : IsSettled str_hash net p pn
  p_settled = settled p pn here

  bound : (b : String) (r : Node) → net b ≡ some r → r.identifier < hash_mod
  bound b r e = identifier-lt str_hash net b r (settled b r e)

  x_bound : xn.identifier < hash_mod
  x_bound = rw identified (omega arith)

  -- The successor of `p` in the old network is `s`.
  p_adjacent :
      (b : String) (r : Node)
      → net b ≡ some r
      → between pn.identifier r.identifier sn.identifier false ≡ false
  p_adjacent b r e =
      let is_s : p_settled.successor ≡ s = ground (arith, first, p_settled.successor_first) in
      ground (arith, p_settled.adjacent b r e, ap net is_s, p_settled.successor_runs, there)

  predecessor_settled : IsSettled str_hash ring p (record pn { successors = x ∷ others })
  predecessor_settled = record {
    callable = p_settled.callable;
    identified = p_settled.identified;
    successor = x;
    others = others;
    successor_first = refl;
    successor_node = xn;
    successor_runs = ground (arith, eq_iff x p, eq_iff x x, here, absent);
    adjacent =
        nothing_between pn.identifier xn.identifier (between-end pn.identifier xn.identifier)
          (λ b r e.
            nothing_before pn.identifier xn.identifier sn.identifier r.identifier (bound p pn here)
              x_bound (bound s sn there) (bound b r e) inside (p_adjacent b r e));
  }

  newcomer_settled : IsSettled str_hash ring x xn
  newcomer_settled =
      let (s', s_runs, same) = kept s sn there in
      record {
        callable = callable;
        identified = identified;
        successor = s;
        others = x_others;
        successor_first = joined;
        successor_node = s';
        successor_runs = s_runs;
        adjacent = rw same (
            nothing_between xn.identifier sn.identifier (between-start xn.identifier sn.identifier)
              (λ b r e.
                nothing_after pn.identifier xn.identifier sn.identifier r.identifier
                  (bound p pn here) x_bound (bound s sn there) (bound b r e) inside
                  (p_adjacent b r e)));
      }

  other_settled : (a : String) (n : Node) → net a ≡ some n → a ≢ p → IsSettled str_hash ring a n
  other_settled a n e apart =
      let h = settled a n e in
      let t = h.successor_node in
      let (t', t_runs, same) = kept h.successor t h.successor_runs in
      record {
        callable = h.callable;
        identified = h.identified;
        successor = h.successor;
        others = h.others;
        successor_first = h.successor_first;
        successor_node = t';
        successor_runs = t_runs;
        adjacent = rw same (
            nothing_between n.identifier t.identifier
              (nothing_elsewhere pn.identifier xn.identifier sn.identifier n.identifier
                (bound p pn here) x_bound (bound s sn there) (bound a n e) inside (p_adjacent a n e)
                t.identifier (bound h.successor t h.successor_runs)
                (λ same_id. apart (distinct a p n pn e here same_id)) (h.adjacent p pn here))
              h.adjacent);
      }

  moved :
      (a a' : String) (n n' : Node)
      → a ≡ a'
      → n ≡ n'
      → IsSettled str_hash ring a' n'
      → IsSettled str_hash ring a n
  moved a a' n n' same_a same_n h = rw (same_a, same_n) h

  -- A node between `p` and its successor `s`, which are neighbours, closes the ring again once it
  -- has `s` as its first successor, and `p` has it.
  pub with_newcomer-Settled : Settled str_hash (with_newcomer net x xn p pn others)
  with_newcomer-Settled a n e = elim (Bool-cases (str_eq a p)) [
    | inl is_p ↦
        moved a p n (record pn { successors = x ∷ others }) ((eq_iff a p).0 is_p)
          (ground (arith, is_p, e)) predecessor_settled
    | inr other ↦ elim (Bool-cases (str_eq a x)) [
      | inl is_x ↦
          moved a x n xn ((eq_iff a x).0 is_x) (ground (arith, other, is_x, e)) newcomer_settled
      | inr not_x ↦
          other_settled a n (ground (arith, other, not_x, e))
            (λ is_p. ground (arith, other, eq_iff a p))
    ]
  ]
