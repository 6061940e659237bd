-- ===== src/Chord/Stabilize/Adoption.antt =====
-- A whole run of stablize, Lab2/Node/stabilizing.go, that finds a closer successor.
use text.Mathlib.Text.{◌==◌ as str_eq}
use text.Mathlib.TextEquality.{eq_iff}
use tda596_distributed_syste.Prelude.{
  ℕ, suc, ◌≡◌, ◌≢◌, ◌≤◌, refl, sym, ap, ◌∙◌, Bool-cases, inl, inr, true, false, some, List, [], ◌∷◌,
  String, length, arith,
}
use tda596_distributed_syste.Chord.Ring.{hash_id, between}
use tda596_distributed_syste.Chord.Node.{Node, get_successor_list, get_predecessor_rpc}
use tda596_distributed_syste.Chord.Net.{Reply, ok, crashed, Net, chord_call, update}
use tda596_distributed_syste.Chord.Routing.{get_name_rpc}
use tda596_distributed_syste.Chord.Routing.Lookup.{chord_call_inv, get_name_rpc_lem}
use tda596_distributed_syste.Chord.Routing.Newcomer.{chord_call-update}
use tda596_distributed_syste.Chord.Storage.{Disk}
use tda596_distributed_syste.Chord.Pointers.{place_of, KeepsPlaces, Keeps-KeepsPlaces}
use tda596_distributed_syste.Chord.Notify.{notify_rpc}
use tda596_distributed_syste.Chord.Notify.Pointers.{notify_rpc-KeepsPlaces}
use tda596_distributed_syste.Chord.Stabilize.{
  copy_successors, refresh_successors, adopt, back_up, settle, stablize,
}
use tda596_distributed_syste.Chord.Stabilize.Pointers.{back_up-Keeps, back_up-ne-crashed}

module _ (str_hash : String → ℕ) (disk : Disk) where
  -- A list that is not longer than the node's own fits.
  copy_successors_fits :
      (s : String) (l old : List String)
      → length l ≤ suc (length old)
      → (others : List String) × (copy_successors str_hash disk s l old ≡ some (s ∷ others))
        × (length others ≡ length old)
  unfolding copy_successors
  copy_successors_fits s [] old h = (old, refl, refl)
  copy_successors_fits s (x ∷ []) old h = (old, refl, refl)
  copy_successors_fits s (x ∷ y ∷ xs) [] h = absurd (omega arith)
  copy_successors_fits s (x ∷ y ∷ xs) (o ∷ old) h =
      let (others, e, len) = copy_successors_fits x (y ∷ xs) old (omega arith) in
      (x ∷ others, rw e refl, ap suc len)

  pub refresh_successors_fits :
      (net : Net) (node n : Node) (s : String) (old : List String)
      → node.successors ≡ s ∷ old
      → chord_call net s ≡ ok n
      → length n.successors ≤ suc (length old)
      → (others : List String) × (refresh_successors str_hash disk net node ≡ some (s ∷ others))
        × (length others ≡ length old)
  unfolding refresh_successors get_successor_list
  refresh_successors_fits net node n s old room called fits =
      let (others, e, len) = copy_successors_fits s n.successors old fits in
      (others, rw (room, refresh_successors, called) e, len)

  adopt-between :
      (net : Net) (node n : Node) (s x name : String)
      → chord_call net s ≡ ok n
      → n.predecessor ≡ x
      → x ≢ ""
      → get_name_rpc str_hash net x ≡ ok name
      → between (hash_id str_hash node.name) (hash_id str_hash name) (hash_id str_hash n.name) false
        ≡ true
      → adopt str_hash disk net node s ≡ ok (some x)
  unfolding adopt get_predecessor_rpc
  adopt-between net node n s x name called known named answers inside =
      ground (arith, called, known, answers, inside, eq_iff x "")

  settle_lem :
      (net : Net) (self : String) (node m : Node) (s x : String) (others : List String)
      → adopt str_hash disk net node s ≡ ok (some x)
      → chord_call (update net self (record node { successors = x ∷ others })) x ≡ ok m
      → settle str_hash disk net self node s others
        ≡ back_up str_hash disk
            (notify_rpc str_hash disk
              (update net self (record node { successors = x ∷ others }))
              x
              node.address)
            self
            x
  unfolding settle
  settle_lem net self node m s x others adopted called = rw (adopted, settle, called) refl

  -- What `stablize` does when the successor answers, its list fits, and it names a closer node.
  pub stablize_lem :
      (net : Net) (self : String) (node : Node) (s : String) (others : List String)
      → net self ≡ some node
      → refresh_successors str_hash disk net node ≡ some (s ∷ others)
      → stablize str_hash disk net self ≡ (
          let node' = record node { successors = s ∷ others } in
          settle str_hash disk (update net self node') self node' s others)
  unfolding stablize
  stablize_lem net self node s others here refreshed = rw (here, stablize, refreshed) refl

  -- An address that answers still does when another node listens there.
  chord_call_callable :
      (net net' : Net) (a : String) (n n' : Node)
      → chord_call net a ≡ ok n
      → net' a ≡ some n'
      → chord_call net' a ≡ ok n'
  unfolding chord_call
  chord_call_callable net net' a n n' called here = ground (arith, called, here)

  -- The first successor still answers after the node has a new successor list, with the same name
  -- and predecessor, also if it is the node itself.
  abbrev pub Same : Node → Reply Node → Type 0
  Same n r = (n' : Node) × (r ≡ ok n') × (n'.name ≡ n.name) × (n'.predecessor ≡ n.predecessor)

  pub still_answers :
      (net : Net) (self s : String) (node n : Node) (l : List String)
      → net self ≡ some node
      → chord_call net s ≡ ok n
      → Same n (chord_call (update net self (record node { successors = l })) s)
  still_answers net self s node n l here called = elim (Bool-cases (str_eq s self)) [
    | inl own ↦
        let is_self : s ≡ self = (eq_iff s self).0 own in
        let listed = chord_call_inv net s n called in
        (
          record node { successors = l },
          chord_call_callable net (update net self (record node { successors = l })) s n
              (record node { successors = l }) called (rw own refl),
          ground (arith, here, listed, ap net is_self),
          ground (arith, here, listed, ap net is_self),
        )
    | inr other ↦ (
      n,
      chord_call-update net self (record node { successors = l }) s other ∙ called,
      refl,
      refl,
    )
  ]

  stablize_runs :
      (net : Net) (self s x : String) (others : List String) (node n m : Node)
      → net self ≡ some node
      → refresh_successors str_hash disk net node ≡ some (s ∷ others)
      → chord_call net s ≡ ok n
      → n.predecessor ≡ x
      → x ≢ ""
      → str_eq x self ≡ false
      → chord_call net x ≡ ok m
      → between
          (hash_id str_hash node.name)
          (hash_id str_hash m.name)
          (hash_id str_hash n.name)
          false
        ≡ true
      → stablize str_hash disk net self
        ≡ back_up str_hash disk
            (notify_rpc str_hash disk
              (update
                (update net self (record node { successors = s ∷ others }))
                self
                (record node { successors = x ∷ others }))
              x
              node.address)
            self
            x
  stablize_runs net self s x others node n m here refreshed called pred named other answers inside =
      let node' : Node = record node { successors = s ∷ others } in
      let net' : Net = update net self node' in
      let (n', called', same_name, same_pred) =
        still_answers net self s node n (s ∷ others) here called in
      let answers' = chord_call-update net self node' x other ∙ answers in
      let adopted : adopt str_hash disk net' node' s ≡ ok (some x) =
        adopt-between net' node' n' s x m.name called' (same_pred ∙ pred) named
          (get_name_rpc_lem str_hash net' x m answers')
          (ap
              (λ k.
                between (hash_id str_hash node.name) (hash_id str_hash m.name) (hash_id str_hash k)
                  false)
              same_name
            ∙ inside) in
      stablize_lem net self node s others here refreshed
      ∙ settle_lem net' self node' m s x others adopted
          (chord_call-update net' self (record node { successors = x ∷ others }) x other ∙ answers')

  -- When the first successor answers, with a successor list that fits, and names as its predecessor
  -- another node that lies strictly between the two and answers, `stablize` does not panic; it
  -- puts that node first, and changes nothing else of the ring but predecessors.
  pub stablize_adopts :
      (net : Net) (self s x : String) (old : List String) (node n m : Node)
      → net self ≡ some node
      → node.successors ≡ s ∷ old
      → chord_call net s ≡ ok n
      → length n.successors ≤ suc (length old)
      → n.predecessor ≡ x
      → x ≢ ""
      → str_eq x self ≡ false
      → chord_call net x ≡ ok m
      → between
          (hash_id str_hash node.name)
          (hash_id str_hash m.name)
          (hash_id str_hash n.name)
          false
        ≡ true
      → (others : List String) × KeepsPlaces
          (update net self (record node { successors = x ∷ others }))
          (stablize str_hash disk net self).0
        × ((stablize str_hash disk net self).1 ≢ crashed)
  stablize_adopts net self s x old node n m here room called fits pred named other answers inside =
      let (others, refreshed, _) = refresh_successors_fits net node n s old room called fits in
      let net' : Net =
        update (update net self (record node { successors = s ∷ others })) self
          (record node { successors = x ∷ others }) in
      let told : Net = notify_rpc str_hash disk net' x node.address in
      let runs =
        stablize_runs net self s x others node n m here refreshed called pred named other answers
          inside in
      (
        others,
        λ a.
            ap (λ r. place_of (r.0 a)) runs
            ∙ Keeps-KeepsPlaces told (back_up str_hash disk told self x).0
                (back_up-Keeps str_hash disk told self x) a
            ∙ notify_rpc-KeepsPlaces str_hash disk net' x node.address a
            ∙ ground arith,
        λ crash. back_up-ne-crashed str_hash disk told self x (sym (ap (λ r. r.1) runs) ∙ crash),
      )
