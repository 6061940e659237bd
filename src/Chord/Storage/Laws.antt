-- ===== src/Chord/Storage/Laws.antt =====
-- About storing and fetching files, cleaning up, and the loss of a predecessor.
use text.Mathlib.Text.{◌==◌ as str_eq}
use text.Mathlib.TextEquality.{eq_iff}
use tda596_distributed_syste.Prelude.{
  Bool-cases, inl, inr, ℕ, ◌%◌, ◌<◌, ◌==◌, ◌≡◌, ◌≢◌, refl, sym, ap, if◌then◌else◌, Bool, true,
  false, not, ◌&&◌, ◌||◌, none, some, List, [], ◌∷◌, String, arith,
}
use tda596_distributed_syste.Prelude.Text.{◌&◌, split}
use tda596_distributed_syste.Chord.Ring.{hash_mod, hash_id}
use tda596_distributed_syste.Chord.Node.{Node, BucketEntry, StoredFile, FileRpc}
use tda596_distributed_syste.Chord.Storage.{
  Disk, read_file, put_file, remove_file, write_file, has_id, name_at, put_entry, received,
  store_chord_file, store_file_rpc, get_file_rpc, keep_files, clean_redundant_file, take_over,
  check_predecessor, nat,
}

pub read_file-put_file :
    (files : List StoredFile) (name content other : String)
    → read_file (put_file files name content) other
      ≡ (if str_eq name other then some content else read_file files other)
unfolding read_file put_file
read_file-put_file [] name content other = ground (arith, eq_iff name other)
read_file-put_file (f ∷ fs) name content other = ground (
  arith,
  eq_iff name other,
  eq_iff f.name name,
  eq_iff f.name other,
  read_file-put_file fs name content other,
)

-- Every pointer in the list has been handed out before.
abbrev pub PtrsBelow : ℕ → List BucketEntry → Type 0
PtrsBelow n [] = Unit {0}
PtrsBelow n (e ∷ es) = (e.ptr < n) × PtrsBelow n es

name_at-put_entry :
    (es : List BucketEntry) (x : BucketEntry)
    → PtrsBelow x.ptr es
    → has_id x.id es ≡ false
    → name_at x.id (put_entry x es) ≡ some x.name
unfolding name_at put_entry has_id
name_at-put_entry [] x below h = ground arith
name_at-put_entry (e ∷ es) x below h = ground (arith, name_at-put_entry es x below.1)

-- A file that a node accepts is what `GetFileRPC` then gives for any id that is the same on the
-- ring: with its name and content. (The node's next pointer is above those in its bucket.)
pub get_file_rpc-store_file_rpc :
    (disk : Disk) (node : Node) (f g : FileRpc)
    → PtrsBelow node.fresh_ptr node.bucket
    → (store_file_rpc disk node f).1 ≡ true
    → g.id % hash_mod ≡ f.id % hash_mod
    → get_file_rpc (store_file_rpc disk node f).0 g
      ≡ some (record { id = f.id % hash_mod; name = f.name; content = f.content })
unfolding get_file_rpc store_file_rpc store_chord_file write_file
get_file_rpc-store_file_rpc disk node f g below stored same = ground (
  arith,
  name_at-put_entry node.bucket (received node f) below,
  read_file-put_file node.chord_storage f.name f.content f.name,
  eq_iff f.name f.name,
)

-- Each name once.
abbrev pub HasNot : String → List StoredFile → Type 0
HasNot name [] = Unit {0}
HasNot name (f ∷ fs) = (str_eq f.name name ≡ false) × HasNot name fs

abbrev pub Distinct : List StoredFile → Type 0
Distinct [] = Unit {0}
Distinct (f ∷ fs) = HasNot f.name fs × Distinct fs

pub read_file-HasNot :
    (name : String) (files : List StoredFile) → HasNot name files → read_file files name ≡ none
unfolding read_file
read_file-HasNot name [] h = refl
read_file-HasNot name (f ∷ fs) h = ground (arith, h.0, read_file-HasNot name fs h.1)

-- Removing a file takes it away, and no other.
pub read_file-remove_file :
    (files : List StoredFile) (name other : String)
    → Distinct files
    → read_file (remove_file files name) other
      ≡ (if str_eq name other then none else read_file files other)
unfolding read_file remove_file
read_file-remove_file [] name other d = ground arith
read_file-remove_file (f ∷ fs) name other d = elim (Bool-cases (str_eq f.name name)) [
  | inl e ↦ rw e (
      ground (
        arith,
        eq_iff f.name name,
        eq_iff name other,
        eq_iff f.name other,
        read_file-HasNot f.name fs d.0,
      ))
  | inr e ↦ rw e (
      ground (
        arith,
        eq_iff f.name name,
        eq_iff name other,
        eq_iff f.name other,
        read_file-remove_file fs name other d.1,
      ))
]

-- A file of the bucket or of the backup.
abbrev pub wanted : (String → ℕ) → Node → String → Bool
wanted str_hash node name =
    has_id (hash_id str_hash name) node.bucket || has_id (hash_id str_hash name) node.backup

hash_eq : (str_hash : String → ℕ) (a b : String) → a ≡ b → hash_id str_hash a ≡ hash_id str_hash b
hash_eq str_hash a b e = ap (hash_id str_hash) e

removable_eq : (disk : Disk) (a b : String) → a ≡ b → disk.can_remove a ≡ disk.can_remove b
removable_eq disk a b e = ap (λ s. disk.can_remove s) e

read_file-keep_files :
    (str_hash : String → ℕ) (disk : Disk) (node : Node) (files : List StoredFile) (name : String)
    → read_file (keep_files str_hash disk node.bucket node.backup files) name ≡ (
        if wanted str_hash node name || not (disk.can_remove name)
        then read_file files name
        else none)
unfolding read_file keep_files
read_file-keep_files str_hash disk node [] name = ground arith
read_file-keep_files str_hash disk node (f ∷ fs) name = ground (
  arith,
  eq_iff f.name name,
  hash_eq str_hash f.name name,
  removable_eq disk f.name name,
  read_file-keep_files str_hash disk node fs name,
)

-- Cleaning up: when the folder can be read, a file is gone exactly when neither the bucket nor the
-- backup has its identifier and the file can be removed; every other file keeps its content, and a
-- folder that cannot be read keeps all.
pub clean_redundant_file-read_file :
    (str_hash : String → ℕ) (disk : Disk) (node : Node) (name : String)
    → read_file (clean_redundant_file str_hash disk node).chord_storage name ≡ (
        if wanted str_hash node name
          || not (disk.can_remove name)
          || not (disk.can_list ("../files/" & node.name & "/chord_storage"))
        then read_file node.chord_storage name
        else none)
unfolding clean_redundant_file
clean_redundant_file-read_file str_hash disk node name =
    ground (arith, read_file-keep_files str_hash disk node node.chord_storage name)

-- One pointer points to one number.
abbrev pub Agrees : BucketEntry → List BucketEntry → Type 0
Agrees x [] = Unit {0}
Agrees x (e ∷ es) = (e.ptr ≡ x.ptr → e.id ≡ x.id) × Agrees x es

abbrev pub AllAgree : List BucketEntry → List BucketEntry → Type 0
AllAgree [] bucket = Unit {0}
AllAgree (e ∷ es) bucket = Agrees e bucket × Agrees e es × AllAgree es bucket

has_id-put_entry :
    (es : List BucketEntry) (x : BucketEntry) (id : ℕ)
    → Agrees x es
    → has_id id (put_entry x es) ≡ (x.id == id || has_id id es)
unfolding has_id put_entry
has_id-put_entry [] x id h = refl
has_id-put_entry (e ∷ es) x id h = ground (arith, has_id-put_entry es x id h.1)

Agrees-put_entry :
    (es : List BucketEntry) (x y : BucketEntry)
    → Agrees y es
    → (x.ptr ≡ y.ptr → x.id ≡ y.id)
    → Agrees y (put_entry x es)
unfolding put_entry
Agrees-put_entry [] x y h k = (k, tt)
Agrees-put_entry (e ∷ es) x y h k = ground (arith, Agrees-put_entry es x y h.1 k)

AllAgree-put_entry :
    (es bucket : List BucketEntry) (x : BucketEntry)
    → Agrees x es
    → AllAgree es bucket
    → AllAgree es (put_entry x bucket)
AllAgree-put_entry [] bucket x h k = tt
AllAgree-put_entry (e ∷ es) bucket x h k = (
  Agrees-put_entry bucket x e k.0 (λ same. sym (h.0 (sym same))),
  k.1,
  AllAgree-put_entry es bucket x h.1 k.2,
)

-- An entry with this id whose name is not empty.
pub has_named : ℕ → List BucketEntry → Bool
has_named id [] = false
has_named id (e ∷ es) = (not (str_eq e.name "") && e.id == id) || has_named id es

pub has_id-take_over :
    (backup bucket : List BucketEntry) (id : ℕ)
    → AllAgree backup bucket
    → has_id id (take_over backup bucket) ≡ (has_named id backup || has_id id bucket)
unfolding take_over has_named
has_id-take_over [] bucket id h = refl
has_id-take_over (e ∷ es) bucket id h = ground (
  arith,
  has_id-put_entry bucket e id h.0,
  AllAgree-put_entry es bucket e h.1 h.2,
  has_id-take_over es bucket id h.2,
  has_id-take_over es (put_entry e bucket) id,
)

-- When the predecessor does not answer, the node forgets it, and afterwards has exactly the ids in
-- its bucket that were there or in its backup under a file name; nothing else of it changes. (The
-- predecessor's address has a port, and a pointer of the bucket or backup points to one number.)
pub check_predecessor_dead :
    (dial : String → Bool) (local_address ip port : String) (rest : List String) (node : Node)
    → node.predecessor ≢ ""
    → split b':' node.predecessor ≡ ip ∷ port ∷ rest
    → dial (nat local_address ip & ":" & port) ≡ false
    → AllAgree node.backup node.bucket
    → (bucket : List BucketEntry) × (check_predecessor dial local_address node
        ≡ some (record node { predecessor = ""; bucket = bucket }))
      × ((id : ℕ) → has_id id bucket ≡ (has_named id node.backup || has_id id node.bucket))
unfolding check_predecessor
check_predecessor_dead dial local_address ip port rest node known parts dead agree = (
  take_over node.backup node.bucket,
  ground (arith, eq_iff node.predecessor ""),
  λ id. has_id-take_over node.backup node.bucket id agree,
)

pub store_file_rpc_duplicate :
    (disk : Disk) (node : Node) (f : FileRpc)
    → has_id (f.id % hash_mod) node.bucket ≡ true
    → store_file_rpc disk node f ≡ (node, false)
unfolding store_file_rpc store_chord_file
store_file_rpc_duplicate disk node f h = rw h
