-- ===== src/Chord/Client/Updates.antt =====
-- A network after a node on it has stored files.
use text.Mathlib.Text.{◌==◌ as str_eq}
use text.Mathlib.TextEquality.{eq_iff}
use tda596_distributed_syste.Prelude.{
  ℕ, ◌≡◌, refl, sym, ap, ◌∙◌, Bool, true, false, if◌then◌else◌, some, String, arith,
}
use tda596_distributed_syste.Chord.Ring.{hash_id}
use tda596_distributed_syste.Chord.Node.{Node}
use tda596_distributed_syste.Chord.Net.{Net, update}
use tda596_distributed_syste.Chord.Routing.Lookup.{IsSettled, Settled}

-- Two states of one node that a lookup cannot tell apart by name, identifier and successors.
pub record SameView (n n' : Node) : Type 0 where
  pub name : n'.name ≡ n.name
  pub identifier : n'.identifier ≡ n.identifier
  pub successors : n'.successors ≡ n.successors

same_view : (n : Node) → SameView n n
same_view n = record { name = refl; identifier = refl; successors = refl }

pub update_self : (net : Net) (s : String) (q : Node) → update net s q s ≡ some q
update_self net s q = ground (arith, eq_iff s s)

-- A node of the new network was there before, with the same view.
pub before :
    (net : Net) (s : String) (q q' : Node) (a : String) (n' : Node)
    → net s ≡ some q
    → SameView q q'
    → update net s q' a ≡ some n'
    → (n : Node) × (net a ≡ some n) × SameView n n'
before net s q q' a n' runs same e = go (str_eq a s) refl e
  where
    go :
        (b : Bool)
        → str_eq a s ≡ b
        → (if b then some q' else net a) ≡ some n'
        → (n : Node) × (net a ≡ some n) × SameView n n'
    go true is h =
        let new : n' ≡ q' = ground arith in
        let here : a ≡ s = ground (arith, eq_iff a s) in (q, rw here runs, rw new same)
    go false is h = (n', h, same_view n')

-- A node that was there is there, with the same view.
pub after :
    (net : Net) (s : String) (q q' : Node) (a : String) (n : Node)
    → net s ≡ some q
    → SameView q q'
    → net a ≡ some n
    → (n' : Node) × (update net s q' a ≡ some n') × SameView n n'
after net s q q' a n runs same e = go (str_eq a s) refl
  where
    go :
        (b : Bool)
        → str_eq a s ≡ b
        → (n' : Node) × ((if b then some q' else net a) ≡ some n') × SameView n n'
    go true is =
        let here : a ≡ s = ground (arith, eq_iff a s) in
        let old : n ≡ q = ground (arith, ap net here) in (q', refl, rw old same)
    go false is = (n, e, same_view n)

update-IsSettled :
    (str_hash : String → ℕ) (net : Net) (s : String) (q q' : Node) (a : String) (n n' : Node)
    → Settled str_hash net
    → net s ≡ some q
    → SameView q q'
    → net a ≡ some n
    → SameView n n'
    → IsSettled str_hash (update net s q') a n'
update-IsSettled str_hash net s q q' a n n' all runs same e view =
    let h = all a n e in
    let (next, next_runs, next_view) =
      after net s q q' h.successor h.successor_node runs same h.successor_runs in
    record {
      callable = h.callable;
      identified = view.identifier ∙ h.identified ∙ ap (hash_id str_hash) (sym view.name);
      successor = h.successor;
      others = h.others;
      successor_first = view.successors ∙ h.successor_first;
      successor_node = next;
      successor_runs = next_runs;
      adjacent = λ b r er.
          let (old, old_runs, old_view) = before net s q q' b r runs same er in
          rw (view.identifier, old_view.identifier, next_view.identifier)
            (h.adjacent b old old_runs);
    }

pub update-Settled :
    (str_hash : String → ℕ) (net : Net) (s : String) (q q' : Node)
    → Settled str_hash net
    → net s ≡ some q
    → SameView q q'
    → Settled str_hash (update net s q')
update-Settled str_hash net s q q' all runs same a n' e =
    let (n, old, view) = before net s q q' a n' runs same e in
    update-IsSettled str_hash net s q q' a n n' all runs same old view
