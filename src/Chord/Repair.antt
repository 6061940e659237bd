-- ===== src/Chord/Repair.antt =====
-- How the ring of Lab2/Node closes again around a node that has joined: joinChord of node.go, and then
-- stablize of stabilizing.go at its predecessor.
pub mod Places
use text.Mathlib.Text.{◌==◌ as str_eq}
use text.Mathlib.TextEquality.{eq_iff}
use tda596_distributed_syste.Prelude.{
  ℕ, suc, ◌%◌, ◌<◌, ◌≤◌, ◌≡◌, ◌≢◌, ◌⊎◌, refl, sym, ap, ◌∙◌, if◌then◌else◌, Bool-cases, inl, inr,
  true, false, none, some, List, ◌∷◌, String, length, arith,
}
use tda596_distributed_syste.Prelude.Text.{split}
use tda596_distributed_syste.Chord.Ring.{hash_mod, hash_id, between}
use tda596_distributed_syste.Chord.Ring.Arcs.{distance, end_of_gap}
use tda596_distributed_syste.Chord.Node.{Node}
use tda596_distributed_syste.Chord.Net.{ok, returned, crashed, Net, chord_call, update}
use tda596_distributed_syste.Chord.Pointers.{
  Pointers, pointers, place, place_of, KeepsPlaces, KeepsPlaces-trans, KeepsPlaces-runs,
}
use tda596_distributed_syste.Chord.Routing.Lookup.{
  IsSettled, Settled, IsSuccessor, identifier-lt, chord_call_ok, get_name_rpc_lem,
}
use tda596_distributed_syste.Chord.Routing.Newcomer.{Unaware, chord_call-update}
use tda596_distributed_syste.Chord.Storage.{Disk}
use tda596_distributed_syste.Chord.Notify.{notify, notify_rpc}
use tda596_distributed_syste.Chord.Notify.Acceptance.{notify_takes}
use tda596_distributed_syste.Chord.Notify.Pointers.{notify_rpc_takes, notify_rpc-KeepsPlaces}
use tda596_distributed_syste.Chord.Stabilize.{stablize}
use tda596_distributed_syste.Chord.Stabilize.Adoption.{stablize_adopts}
use tda596_distributed_syste.Chord.Client.{join_chord}
use tda596_distributed_syste.Chord.Client.Joining.{join_chord-IsSuccessor}
use tda596_distributed_syste.Chord.Client.Laws.{Distinct}
use Places.{with_newcomer, with_newcomer-Settled, Settled-KeepsPlaces}

-- A ring whose successor pointers are right, in which `x` follows `p` and comes before `s`.
pub record IsClosed (str_hash : String → ℕ) (p x s : String) (net : Net) : Type 0 where
  pub settled : Settled str_hash net
  pub newcomer : Node
  pub newcomer_runs : net x ≡ some newcomer
  pub newcomer_others : List String
  pub newcomer_first : newcomer.successors ≡ s ∷ newcomer_others
  pub before : Node
  pub before_runs : net p ≡ some before
  pub before_others : List String
  pub before_first : before.successors ≡ x ∷ before_others

distance_from : (i x q s : ℕ) → i ≡ x → distance i q ≤ distance i s → distance x q ≤ distance x s
distance_from i x q s e h = rw (← e) h

callable_named : (a : String) → length (split b':' a) ≡ 2 → a ≢ ""
unfolding split
callable_named a h e =
    let two : length (split b':' "") ≡ 2 = ap (λ t. length (split b':' t)) (sym e) ∙ h in
    absurd (omega arith)

module _ (str_hash : String → ℕ) (disk : Disk) (net : Net) (p x s : String) (pn node sn : Node)
    (rest others : List String) (settled : Settled str_hash net) (distinct : Distinct net)
    (absent : net x ≡ none) (callable : length (split b':' x) ≡ 2)
    (identified : node.identifier ≡ hash_id str_hash node.name) (here : net p ≡ some pn)
    (first : pn.successors ≡ s ∷ rest) (there : net s ≡ some sn)
    (gap : (sn.predecessor ≡ "") ⊎ (sn.predecessor ≡ p))
    (inside : between pn.identifier node.identifier sn.identifier false ≡ true)
    (fits : length sn.successors ≤ suc (length rest)) where
  -- The new node after its lookup.
  abbrev xn : Node
  xn = record node { predecessor = ""; successors = s ∷ others }

  abbrev joined : Net
  joined = update (update net x node) x xn

  abbrev told : Net
  told = notify_rpc str_hash disk joined s x

  other_address : (a : String) (n : Node) → net a ≡ some n → str_eq a x ≡ false
  other_address a n e = ground (arith, eq_iff a x, e, absent)

  joined_call : (a : String) (n : Node) → net a ≡ some n → chord_call joined a ≡ ok n
  joined_call a n e =
      let other = other_address a n e in
      chord_call_ok joined a n (settled a n e).callable (rw other e)

  joined_x : chord_call joined x ≡ ok xn
  joined_x = chord_call_ok joined x xn callable (ground (arith, eq_iff x x))

  hashed :
      between
        (hash_id str_hash pn.name)
        (hash_id str_hash node.name)
        (hash_id str_hash sn.name)
        false
      ≡ true
  hashed =
      rw (← (settled p pn here).identified)
        (rw (← identified) (rw (← (settled s sn there).identified) inside))

  -- The successor takes the new node as its predecessor.
  successor_told :
      (sn' : Node) × (told s ≡ some sn') × (pointers sn' ≡ pointers (record sn { predecessor = x }))
  successor_told =
      let h = settled s sn there in
      notify_rpc_takes str_hash disk joined s x h.successor h.others sn
        (rw (other_address s sn there) there) h.successor_first
        (notify_takes str_hash disk joined sn x p pn.name node.name gap
          (get_name_rpc_lem str_hash joined p pn (joined_call p pn here))
          (get_name_rpc_lem str_hash joined x xn joined_x) (rw h.identified hashed))

  predecessor_updated :
      (pn' : Node) (l : List String)
      → place pn' ≡ place pn
      → KeepsPlaces
          (with_newcomer net x xn p pn l)
          (update told p (record pn' { successors = x ∷ l }))
  predecessor_updated pn' l same a = elim (Bool-cases (str_eq a p)) [
    | inl is_p ↦ rw is_p (ap (λ (q : Pointers). some (record q { successors = x ∷ l })) same)
    | inr other ↦ rw other (notify_rpc-KeepsPlaces str_hash disk joined s x a ∙ ground arith)
  ]

  -- The pointers after the predecessor has run `stablize`.
  abbrev Closed : Net → Type 0
  Closed net' = (l : List String) × KeepsPlaces (with_newcomer net x xn p pn l) net'

  closed : Closed (stablize str_hash disk told p).0 × ((stablize str_hash disk told p).1 ≢ crashed)
  closed =
      let places = notify_rpc-KeepsPlaces str_hash disk joined s x in
      let (sn', s_runs, s_same) = successor_told in
      let (pn', p_runs, p_same) =
        KeepsPlaces-runs joined told p pn places (rw (other_address p pn here) here) in
      let (xn', x_runs, x_same) =
        KeepsPlaces-runs joined told x xn places (ground (arith, eq_iff x x)) in
      let (l, after, ends) =
        stablize_adopts str_hash disk told p s x rest pn' sn' xn' p_runs
          (ap (λ q. q.successors) p_same ∙ first)
          (chord_call_ok told s sn' (settled s sn there).callable s_runs)
          (ground (arith, ap (λ q. q.successors) s_same, fits)) (ap (λ q. q.predecessor) s_same)
          (callable_named x callable) (ground (arith, eq_iff x p, here, absent))
          (chord_call_ok told x xn' callable x_runs)
          (rw (ap (λ q. q.name) p_same, ap (λ q. q.name) x_same, ap (λ q. q.name) s_same) hashed) in
      (
        (
          l,
          KeepsPlaces-trans (with_newcomer net x xn p pn l)
              (update told p (record pn' { successors = x ∷ l })) (stablize str_hash disk told p).0
              (predecessor_updated pn' l p_same) after,
        ),
        ends,
      )

  -- The lookup of the new node finds the node that ends the gap.
  found : (a : String) → IsSuccessor net (node.identifier % hash_mod) a → a ≡ s
  found a owner =
      let q = owner.node in
      let h = settled p pn here in
      let to_s : h.successor ≡ s = ground (arith, h.successor_first, first) in
      let ends = ap net to_s in
      let x_bound : node.identifier < hash_mod = rw identified (omega arith) in
      let next : between pn.identifier q.identifier sn.identifier false ≡ false =
        ground (arith, h.adjacent a q owner.runs, ends, h.successor_runs, there) in
      let small : node.identifier % hash_mod ≡ node.identifier = omega (arith, x_bound) in
      let near : distance node.identifier q.identifier ≤ distance node.identifier sn.identifier =
        distance_from (node.identifier % hash_mod) node.identifier q.identifier sn.identifier small
          (owner.first s sn there) in
      distinct a s q sn owner.runs there (
        end_of_gap pn.identifier node.identifier sn.identifier q.identifier
          (identifier-lt str_hash net p pn h) x_bound
          (identifier-lt str_hash net s sn (settled s sn there))
          (identifier-lt str_hash net a q (settled a q owner.runs)) inside next near)

  repaired-IsClosed : IsClosed str_hash p x s (stablize str_hash disk told p).0
  repaired-IsClosed =
      let ((l, places), ends) = closed in
      let net' = (stablize str_hash disk told p).0 in
      let ring : Net = with_newcomer net x xn p pn l in
      let (xn', x_runs, x_same) =
        KeepsPlaces-runs ring net' x xn places
          (ground (arith, eq_iff x x, eq_iff x p, here, absent)) in
      let (pn', p_runs, p_same) =
        KeepsPlaces-runs ring net' p (record pn { successors = x ∷ l }) places
          (ground (arith, eq_iff p p)) in
      record {
        settled = Settled-KeepsPlaces str_hash ring net' places (
            with_newcomer-Settled str_hash net p x s pn xn sn rest others l settled distinct absent
              here first there callable identified refl inside);
        newcomer = xn';
        newcomer_runs = x_runs;
        newcomer_others = others;
        newcomer_first = ap (λ q. q.successors) x_same;
        before = pn';
        before_runs = p_runs;
        before_others = l;
        before_first = ap (λ q. q.successors) p_same;
      }

-- The ring closes around a new node: on a network where each node's first successor is right and no
-- two nodes have one identifier, let a node join that no other names yet and that lies strictly
-- between the node `p` and its successor `s`, by the address of any node and with fuel for 64 calls;
-- after one `stablize` at `p`, which does not panic, each node's first successor is right again,
-- that of `p` is the new node, and the new node's is `s`. (The new node listens at its own address,
-- of the form "ip:port", its identifier is its name's, and it has room for a successor; `s` names no
-- predecessor but `p`, and its list of successors fits into that of `p`.)
pub join_chord-stablize-IsClosed :
    (str_hash : String → ℕ) (disk : Disk) (fuel : ℕ) (net : Net) (p x s join_node old : String)
    (pn node sn contact : Node) (rest others : List String)
    → Settled str_hash net
    → Distinct net
    → ((b : String) (m : Node) → net b ≡ some m → Unaware x m)
    → net x ≡ none
    → length (split b':' x) ≡ 2
    → node.address ≡ x
    → node.identifier ≡ hash_id str_hash node.name
    → node.successors ≡ old ∷ others
    → net join_node ≡ some contact
    → hash_mod ≤ fuel
    → net p ≡ some pn
    → pn.successors ≡ s ∷ rest
    → net s ≡ some sn
    → (sn.predecessor ≡ "") ⊎ (sn.predecessor ≡ p)
    → between pn.identifier node.identifier sn.identifier false ≡ true
    → length sn.successors ≤ suc (length rest)
    → let joined = join_chord str_hash disk fuel (update net x node) x join_node in
      let r = stablize str_hash disk joined.0 p in
      (joined.1 ≡ returned) × (r.1 ≢ crashed) × IsClosed str_hash p x s r.0
join_chord-stablize-IsClosed str_hash disk fuel net p x s join_node old pn node sn contact rest
      others settled distinct unaware absent callable at identified room runs enough here first
      there gap inside fits =
    let (a, owner, joins) =
      join_chord-IsSuccessor str_hash disk fuel net x join_node old others node contact settled
        unaware absent runs room enough in
    let is_s : a ≡ s =
      found str_hash disk net p x s pn node sn rest others settled distinct absent callable
        identified here first there gap inside fits a owner in
    let (after, ends) =
      closed str_hash disk net p x s pn node sn rest others settled distinct absent callable
        identified here first there gap inside fits in
    let joined_with : String → Net = λ t.
      update (update net x node) x (record node { predecessor = ""; successors = t ∷ others }) in
    let told : join_chord str_hash disk fuel (update net x node) x join_node
        ≡ (notify_rpc str_hash disk (joined_with s) s x, returned) =
      joins
      ∙ ap (λ t. (notify_rpc str_hash disk (joined_with t) t node.address, returned)) is_s
      ∙ ap (λ t. (notify_rpc str_hash disk (joined_with s) s t, returned)) at in
    rw told (
      refl,
      ends,
      repaired-IsClosed str_hash disk net p x s pn node sn rest others settled distinct absent
          callable identified here first there gap inside fits,
    )
