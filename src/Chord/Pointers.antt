-- ===== src/Chord/Pointers.antt =====
-- The part of a node's state that places it on the ring, in node.go of Lab2/Node, and networks that
-- differ in nothing of it.
use text.Mathlib.Text.{◌==◌ as str_eq}
use text.Mathlib.TextEquality.{eq_iff}
use tda596_distributed_syste.Prelude.{
  ℕ, ◌≡◌, ◌==◌, ◌||◌, refl, sym, ap, ◌∙◌, Bool, true, Bool-cases, inl, inr, Option, none, some,
  List, String, length, arith,
}
use tda596_distributed_syste.Prelude.Text.{split}
use tda596_distributed_syste.Chord.Node.{Node, FingerEntry}
use tda596_distributed_syste.Chord.Net.{Net, update}

pub record Pointers : Type 0 where
  pub name : String
  pub identifier : ℕ
  pub address : String
  pub predecessor : String
  pub successors : List String
  pub finger_table : List FingerEntry
  pub next : ℕ

abbrev pub pointers : Node → Pointers
pointers n = record {
  name = n.name;
  identifier = n.identifier;
  address = n.address;
  predecessor = n.predecessor;
  successors = n.successors;
  finger_table = n.finger_table;
  next = n.next;
}

abbrev pub pointers_of : Option Node → Option Pointers
pointers_of none = none
pointers_of (some n) = some (pointers n)

-- No node's pointers differ.
abbrev pub Keeps : Net → Net → Type 0
Keeps net net' = (a : String) → pointers_of (net' a) ≡ pointers_of (net a)

pub Keeps-trans : (net net' net'' : Net) → Keeps net net' → Keeps net' net'' → Keeps net net''
Keeps-trans net net' net'' h k a = k a ∙ h a

-- A node that is written back with the same pointers.
pub update-Keeps :
    (net : Net) (self : String) (old new : Node)
    → net self ≡ some old
    → pointers new ≡ pointers old
    → Keeps net (update net self new)
update-Keeps net self old new e same a = ground (arith, e, same, eq_iff a self)

-- The node at an address still runs, with the same pointers.
pub Keeps-runs :
    (net net' : Net) (a : String) (n : Node)
    → Keeps net net'
    → net a ≡ some n
    → (n' : Node) × (net' a ≡ some n') × (pointers n' ≡ pointers n)
Keeps-runs net net' a n k e = found (net' a) refl
  where
    found :
        (o : Option Node)
        → net' a ≡ o
        → (n' : Node) × (net' a ≡ some n') × (pointers n' ≡ pointers n)
    found none e' = absurd (ground (arith, k a, e, e'))
    found (some n') e' = (n', e', ground (arith, k a, e, e'))

-- The same without the predecessor.
abbrev pub place : Node → Pointers
place n = record (pointers n) { predecessor = "" }

abbrev pub place_of : Option Node → Option Pointers
place_of none = none
place_of (some n) = some (place n)

-- No node's pointers differ, but for predecessors.
abbrev pub KeepsPlaces : Net → Net → Type 0
KeepsPlaces net net' = (a : String) → place_of (net' a) ≡ place_of (net a)

place_of_pointers : (o o' : Option Node) → pointers_of o' ≡ pointers_of o → place_of o' ≡ place_of o
place_of_pointers none none e = refl
place_of_pointers none (some n') e = ground (arith, e)
place_of_pointers (some n) none e = ground (arith, e)
place_of_pointers (some n) (some n') e = ground (arith, e)

pub Keeps-KeepsPlaces : (net net' : Net) → Keeps net net' → KeepsPlaces net net'
Keeps-KeepsPlaces net net' k a = place_of_pointers (net a) (net' a) (k a)

pub KeepsPlaces-trans :
    (net net' net'' : Net) → KeepsPlaces net net' → KeepsPlaces net' net'' → KeepsPlaces net net''
KeepsPlaces-trans net net' net'' h k a = k a ∙ h a

pub update-KeepsPlaces :
    (net : Net) (self : String) (old new : Node)
    → net self ≡ some old
    → place new ≡ place old
    → KeepsPlaces net (update net self new)
update-KeepsPlaces net self old new e same a = ground (arith, e, same, eq_iff a self)

pub KeepsPlaces-runs :
    (net net' : Net) (a : String) (n : Node)
    → KeepsPlaces net net'
    → net a ≡ some n
    → (n' : Node) × (net' a ≡ some n') × (place n' ≡ place n)
KeepsPlaces-runs net net' a n k e = found (net' a) refl
  where
    found : (o : Option Node) → net' a ≡ o → (n' : Node) × (net' a ≡ some n') × (place n' ≡ place n)
    found none e' = absurd (ground (arith, k a, e, e'))
    found (some n') e' = (n', e', ground (arith, k a, e, e'))

-- A predecessor that can be dialled, or none.
abbrev pub can_dial : String → Bool
can_dial address = str_eq address "" || length (split b':' address) == 2

abbrev pub Dialled : Net → Type 0
Dialled net = (a : String) (n : Node) → net a ≡ some n → can_dial n.predecessor ≡ true

pub Keeps-Dialled : (net net' : Net) → Keeps net net' → Dialled net → Dialled net'
Keeps-Dialled net net' k h a n' e =
    let (n, here, same) = Keeps-runs net' net a n' (λ b. sym (k b)) e in
    ap (λ (q : Pointers). can_dial q.predecessor) (sym same) ∙ h a n here

pub update-Dialled :
    (net : Net) (self : String) (node : Node)
    → Dialled net
    → can_dial node.predecessor ≡ true
    → Dialled (update net self node)
update-Dialled net self node h good a n e = elim (Bool-cases (str_eq a self)) [
  | inl here ↦ ground (arith, here, e, good)
  | inr other ↦ h a n (ground (arith, other, e))
]
