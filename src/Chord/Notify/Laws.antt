-- ===== src/Chord/Notify/Laws.antt =====
-- When a node takes a new predecessor, and what becomes of the files that it gives away.
use text.Mathlib.TextEquality.{eq_iff}
use tda596_distributed_syste.Prelude.{
  ℕ, ◌%◌, ◌<◌, ltb, ◌≡◌, ◌≢◌, if◌then◌else◌, true, false, some, none, String, arith, Bool, ◌==◌,
  ==_iff, ◌||◌, List, [], ◌∷◌, Bool-cases, inl, inr, refl, sym, ap, ◌∙◌,
}
use tda596_distributed_syste.Chord.Ring.{hash_mod, hash_id}
use tda596_distributed_syste.Chord.Ring.Arcs.{arc, between_iff}
use tda596_distributed_syste.Chord.Node.{Node, BucketEntry}
use tda596_distributed_syste.Chord.Net.{ok, Net, chord_call}
use tda596_distributed_syste.Chord.Routing.{get_name_rpc}
use tda596_distributed_syste.Chord.Storage.{Disk, has_id, read_file}
use tda596_distributed_syste.Chord.Storage.Laws.{
  store_file_rpc_duplicate, Distinct, read_file-remove_file,
}
use tda596_distributed_syste.Chord.Notify.{
  notify, leaves, delete_entry, delete_file, move_file, packed,
}

-- A node with an identifier below 64 whose predecessor and the caller both answer takes the caller as predecessor exactly when it
-- lies strictly between the two on the way clockwise; otherwise it stays as it is.
notify_closer :
    (str_hash : String → ℕ) (disk : Disk) (net : Net) (node : Node)
    (address pred_name name : String)
    → node.predecessor ≢ ""
    → get_name_rpc str_hash net node.predecessor ≡ ok pred_name
    → get_name_rpc str_hash net address ≡ ok name
    → node.identifier < hash_mod
    → notify str_hash disk net node address ≡ (
        if ltb
          (arc (hash_id str_hash pred_name) (hash_id str_hash name))
          (arc (hash_id str_hash pred_name) node.identifier)
        then ok (record node { predecessor = address }, true)
        else ok (node, false))
unfolding notify
notify_closer str_hash disk net node address pred_name name known called calls bound = ground (
  arith,
  eq_iff node.predecessor "",
  (between_iff (hash_id str_hash pred_name) (hash_id str_hash name) node.identifier (omega arith)
      (omega arith) bound).0,
)

abbrev pub has_ptr : ℕ → List BucketEntry → Bool
has_ptr p [] = false
has_ptr p (e ∷ es) = e.ptr == p || has_ptr p es

-- Each pointer is the key of one entry.
abbrev pub DistinctKeys : List BucketEntry → Type 0
DistinctKeys [] = Unit {0}
DistinctKeys (e ∷ es) = (has_ptr e.ptr es ≡ false) × DistinctKeys es

has_ptr-delete_entry :
    (str_hash : String → ℕ) (disk : Disk) (x : BucketEntry) (es : List BucketEntry)
    → DistinctKeys es
    → has_ptr x.ptr (delete_entry str_hash disk x es) ≡ false
unfolding delete_entry
has_ptr-delete_entry str_hash disk x [] d = refl
has_ptr-delete_entry str_hash disk x (e ∷ es) d = elim (Bool-cases (e.ptr == x.ptr)) [
  | inl same ↦ rw same (ap (λ p. has_ptr p es) (sym ((==_iff e.ptr x.ptr).0 same)) ∙ d.0)
  | inr other ↦ rw (other, other) (has_ptr-delete_entry str_hash disk x es d.1)
]

-- A round at a node that runs, for a file that is refused.
move_file_refused :
    (str_hash : String → ℕ) (disk : Disk) (net : Net) (self address : String) (node target : Node)
    (to : ℕ) (e : BucketEntry)
    → self ≢ address
    → net self ≡ some node
    → net address ≡ some target
    → chord_call net address ≡ ok target
    → leaves str_hash disk node.identifier to e.id ≡ true
    → has_id (e.id % hash_mod) target.bucket ≡ true
    → (move_file str_hash disk self to address net e self
        ≡ some (record node {
          bucket = delete_entry str_hash disk e node.bucket;
          chord_storage = delete_file str_hash disk node.chord_storage e.name;
        }))
      × (move_file str_hash disk self to address net e address ≡ some target)
unfolding move_file
move_file_refused str_hash disk net self address node target to e apart here there called leave
      held =
    let kept = store_file_rpc_duplicate disk target (packed node e) held in
    (
      ground (
        arith,
        eq_iff self address,
        eq_iff address self,
        eq_iff self self,
        eq_iff address address,
        kept,
      ),
      ground (
        arith,
        eq_iff self address,
        eq_iff address self,
        eq_iff self self,
        eq_iff address address,
        kept,
      ),
    )

-- `moveFiles` loses a file that the new node refuses: if an entry of the bucket is to leave, its file
-- can be removed, and the target, a node at another address that answers, holds a file of that
-- identifier already, then after the entry's round the bucket has no entry under its key, the disk
-- has no file of its name, and the target is as it was. (Each key and each file name is there once.)
pub move_file_loses :
    (str_hash : String → ℕ) (disk : Disk) (net : Net) (self address : String) (node target : Node)
    (to : ℕ) (e : BucketEntry)
    → self ≢ address
    → net self ≡ some node
    → net address ≡ some target
    → chord_call net address ≡ ok target
    → has_ptr e.ptr node.bucket ≡ true
    → DistinctKeys node.bucket
    → Distinct node.chord_storage
    → disk.can_remove e.name ≡ true
    → leaves str_hash disk node.identifier to e.id ≡ true
    → has_id (e.id % hash_mod) target.bucket ≡ true
    → (node' : Node) × (move_file str_hash disk self to address net e self ≡ some node')
      × (has_ptr e.ptr node'.bucket ≡ false)
      × (read_file node'.chord_storage e.name ≡ none)
      × (move_file str_hash disk self to address net e address ≡ some target)
unfolding delete_file
move_file_loses str_hash disk net self address node target to e apart here there called entry keys
      names removable leave held =
    let (gone, kept) =
      move_file_refused str_hash disk net self address node target to e apart here there called
        leave held in
    (
      record node {
        bucket = delete_entry str_hash disk e node.bucket;
        chord_storage = delete_file str_hash disk node.chord_storage e.name;
      },
      gone,
      has_ptr-delete_entry str_hash disk e node.bucket keys,
      ground (
        arith,
        removable,
        eq_iff e.name e.name,
        read_file-remove_file node.chord_storage e.name e.name names,
      ),
      kept,
    )
