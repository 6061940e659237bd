-- ===== src/Chord/Stabilize/Stability.antt =====
-- A run of stablize, Lab2/Node/stabilizing.go, that finds no closer successor.
use text.Mathlib.Text.{◌==◌ as str_eq}
use text.Mathlib.TextEquality.{eq_iff}
use tda596_distributed_syste.Prelude.{
  ℕ, suc, ◌≡◌, ◌≢◌, ◌≤◌, refl, sym, ◌∙◌, if◌then◌else◌, Bool, Bool-cases, inl, inr, true, false,
  not, ◌&&◌, Option, none, some, List, ◌∷◌, String, length, arith,
}
use tda596_distributed_syste.Chord.Ring.{hash_id, between}
use tda596_distributed_syste.Chord.Node.{Node, get_predecessor_rpc, get_name}
use tda596_distributed_syste.Chord.Net.{
  Reply, ok, err, panic, no_answer, ◌>>=◌, End, crashed, Net, chord_call, update,
}
use tda596_distributed_syste.Chord.Routing.{get_name_rpc}
use tda596_distributed_syste.Chord.Routing.Lookup.{chord_call_inv}
use tda596_distributed_syste.Chord.Storage.{Disk}
use tda596_distributed_syste.Chord.Pointers.{
  KeepsPlaces, Keeps-KeepsPlaces, Keeps-Dialled, Dialled, can_dial, update-Dialled,
}
use tda596_distributed_syste.Chord.Notify.{notify_rpc}
use tda596_distributed_syste.Chord.Notify.Pointers.{notify_rpc-KeepsPlaces, notify_rpc-Dialled}
use tda596_distributed_syste.Chord.Stabilize.{adopt, back_up, settle, stablize}
use tda596_distributed_syste.Chord.Stabilize.Pointers.{back_up-Keeps, back_up-ne-crashed}
use tda596_distributed_syste.Chord.Stabilize.Adoption.{
  still_answers, stablize_lem, refresh_successors_fits,
}

and_false : (b : Bool) → (b && false) ≡ false
and_false true = refl
and_false false = refl

module _ (str_hash : String → ℕ) (disk : Disk) where
  -- No other node is put first.
  abbrev Stays : Reply (Option String) → Type 0
  Stays (ok (some pred)) = ⊥
  Stays (ok none) = Unit {0}
  Stays err = Unit {0}
  Stays panic = Unit {0}
  Stays no_answer = Unit {0}

  -- No node that answers lies between the two.
  abbrev pub Calm : Net → String → String → Type 0
  Calm net name name' =
      (b : String) (r : Node)
      → net b ≡ some r
      → between (hash_id str_hash name) (hash_id str_hash r.name) (hash_id str_hash name') false
        ≡ false

  adopt-Stays :
      (net : Net) (node n : Node) (s : String)
      → chord_call net s ≡ ok n
      → Calm net node.name n.name
      → Stays (adopt str_hash disk net node s)
  unfolding adopt get_name_rpc get_name
  adopt-Stays net node n s called calm = rw (called, adopt) (by_predecessor (get_predecessor_rpc n))
    where
      by_call :
          (pred : String) (r : Reply Node)
          → chord_call net pred ≡ r
          → Stays (
              get_name_rpc str_hash net pred >>= λ pred_name.
              if not (str_eq pred "")
                && between
                    (hash_id str_hash node.name)
                    (hash_id str_hash pred_name)
                    (hash_id str_hash n.name)
                    false
              then ok (some pred)
              else ok none)
      by_call pred (ok q) e =
          rw (e, calm pred q (chord_call_inv net pred q e), and_false (not (str_eq pred ""))) tt
      by_call pred err e = rw e tt
      by_call pred panic e = rw e tt
      by_call pred no_answer e = rw e tt

      by_predecessor :
          (o : Option String)
          → Stays (elim o [
            | none ↦ ok none
            | some pred ↦ get_name_rpc str_hash net pred >>= λ pred_name.
                if not (str_eq pred "")
                  && between
                      (hash_id str_hash node.name)
                      (hash_id str_hash pred_name)
                      (hash_id str_hash n.name)
                      false
                then ok (some pred)
                else ok none
          ])
      by_predecessor none = tt
      by_predecessor (some pred) = by_call pred (chord_call net pred) refl

  -- What a run leaves: the node with a new tail of its list, all others in their places.
  abbrev pub Steady : Net → String → Node → String → List String → Net × End → Type 0
  Steady net p node s others r =
      KeepsPlaces (update net p (record node { successors = s ∷ others })) r.0
      × Dialled r.0
      × (r.1 ≢ crashed)

  settle-Stays :
      (net : Net) (p s : String) (node n : Node) (others : List String) (o : Reply (Option String))
      → adopt str_hash disk net node s ≡ o
      → Stays o
      → Dialled net
      → can_dial node.predecessor ≡ true
      → can_dial node.address ≡ true
      → chord_call (update net p (record node { successors = s ∷ others })) s ≡ ok n
      → KeepsPlaces net (update net p (record node { successors = s ∷ others }))
      → Steady net p node s others (settle str_hash disk net p node s others)
  unfolding settle
  settle-Stays net p s node n others (ok (some pred)) e stays good known own called same =
      elim stays [ ]
  settle-Stays net p s node n others (ok none) e stays good known own called same =
      let net' : Net = update net p (record node { successors = s ∷ others }) in
      let told : Net = notify_rpc str_hash disk net' s node.address in
      rw (e, settle, called)
        (
          λ a.
              Keeps-KeepsPlaces told (back_up str_hash disk told p s).0
                (back_up-Keeps str_hash disk told p s) a
              ∙ notify_rpc-KeepsPlaces str_hash disk net' s node.address a,
          Keeps-Dialled told (back_up str_hash disk told p s).0
              (back_up-Keeps str_hash disk told p s)
              (notify_rpc-Dialled str_hash disk net' s node.address
                (update-Dialled net p (record node { successors = s ∷ others }) good known) own),
          back_up-ne-crashed str_hash disk told p s,
        )
  settle-Stays net p s node n others err e stays good known own called same =
      rw (e, settle) (λ a. sym (same a), good, λ crash. cc crash)
  settle-Stays net p s node n others panic e stays good known own called same =
      rw (e, settle) (λ a. sym (same a), good, λ crash. cc crash)
  settle-Stays net p s node n others no_answer e stays good known own called same =
      rw (e, settle) (λ a. sym (same a), good, λ crash. cc crash)

  Calm-update :
      (net : Net) (p : String) (node : Node) (l : List String) (name : String)
      → net p ≡ some node
      → Calm net node.name name
      → Calm (update net p (record node { successors = l })) node.name name
  Calm-update net p node l name here calm b r e = elim (Bool-cases (str_eq b p)) [
    | inl is_p ↦ ground (arith, is_p, e, calm p node here)
    | inr other ↦ calm b r (ground (arith, other, e))
  ]

  -- Where the first successor answers, with a list that fits, and no node that answers lies in
  -- between, `stablize` does not panic, keeps that successor and the length of the list, and changes
  -- nothing else of the ring but predecessors.
  pub stablize_stays :
      (net : Net) (p s : String) (node n : Node) (old : List String)
      → net p ≡ some node
      → node.successors ≡ s ∷ old
      → chord_call net s ≡ ok n
      → length n.successors ≤ suc (length old)
      → Calm net node.name n.name
      → Dialled net
      → can_dial node.address ≡ true
      → (others : List String) × (length others ≡ length old)
        × Steady net p node s others (stablize str_hash disk net p)
  stablize_stays net p s node n old here room called fits calm good own =
      let (others, refreshed, len) =
        refresh_successors_fits str_hash disk net node n s old room called fits in
      let node' : Node = record node { successors = s ∷ others } in
      let net' : Net = update net p node' in
      let here' : net' p ≡ some node' = ground (arith, eq_iff p p) in
      let (n', called', name, _) =
        still_answers str_hash disk net p s node n (s ∷ others) here called in
      let (n'', called'', _, _) =
        still_answers str_hash disk net' p s node' n' (s ∷ others) here' called' in
      let calm' : Calm net' node.name n'.name =
        rw name (Calm-update net p node (s ∷ others) n.name here calm) in
      let (places, dialled, ends) =
        settle-Stays net' p s node' n'' others (adopt str_hash disk net' node' s) refl
          (adopt-Stays net' node' n' s called' calm')
          (update-Dialled net p node' good (good p node here)) (good p node here) own called''
          (λ a. ground arith) in
      let runs = stablize_lem str_hash disk net p node s others here refreshed in
      (others, len, rw runs (λ a. places a ∙ ground arith, dialled, ends))
