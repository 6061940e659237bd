-- ===== src/Chord/Storage.antt =====
-- Lab2/Node/node.go and stabilizing.go: the files that a node stores, and the RPCs on them.
pub mod Laws
pub mod Pointers
use text.Mathlib.Text.{◌==◌ as str_eq}
use tda596_distributed_syste.Prelude.{
  ℕ, suc, ◌+◌, ◌%◌, ◌==◌, if◌then◌else◌, Bool, true, false, not, ◌&&◌, ◌||◌, Option, none, some,
  List, [], ◌∷◌, ◌++◌, String,
}
use tda596_distributed_syste.Prelude.Text.{◌&◌, split}
use tda596_distributed_syste.Chord.Ring.{hash_mod, hash_id}
use tda596_distributed_syste.Chord.Node.{Node, BucketEntry, StoredFile, FileRpc}

-- Which files `os.Create` can make, `Write` can fill and `os.Remove` can delete, and which folders
-- `ioutil.ReadDir` can read.
pub record Disk : Type 0 where
  pub can_create : String → Bool
  pub can_write : String → Bool
  pub can_remove : String → Bool
  pub can_list : String → Bool

unfoldable pub read_file : List StoredFile → String → Option String
read_file [] name = none
read_file (f ∷ fs) name = if str_eq f.name name then some f.content else read_file fs name

-- A file with this name and content; an old one of that name is replaced.
unfoldable pub put_file : List StoredFile → String → String → List StoredFile
put_file [] name content = record { name = name; content = content } ∷ []
put_file (f ∷ fs) name content =
    if str_eq f.name name
    then record { name = name; content = content } ∷ fs
    else f ∷ put_file fs name content

unfoldable pub remove_file : List StoredFile → String → List StoredFile
remove_file [] name = []
remove_file (f ∷ fs) name = if str_eq f.name name then fs else f ∷ remove_file fs name

-- `os.Create` and `Write`: the files afterwards, and whether both went well. A file that can be made
-- and not written is left empty.
unfoldable pub write_file : Disk → List StoredFile → String → String → List StoredFile × Bool
write_file disk files name content =
    if disk.can_create name
    then if disk.can_write name
      then (put_file files name content, true)
      else (put_file files name "", false)
    else (files, false)

unfoldable pub has_id : ℕ → List BucketEntry → Bool
has_id id [] = false
has_id id (e ∷ es) = e.id == id || has_id id es

pub name_at : ℕ → List BucketEntry → Option String
name_at id [] = none
name_at id (e ∷ es) = if e.id == id then some e.name else name_at id es

-- `bucket[key] = name` for a pointer of the map.
unfoldable pub put_entry : BucketEntry → List BucketEntry → List BucketEntry
put_entry x [] = x ∷ []
put_entry x (e ∷ es) = if e.ptr == x.ptr then x ∷ es else e ∷ put_entry x es

-- The entry of a file that came over the network: its id is reduced, under a new pointer.
abbrev pub received : Node → FileRpc → BucketEntry
received node f = record { ptr = node.fresh_ptr; id = f.id % hash_mod; name = f.name }

unfoldable pub store_on_disk : Disk → Node → FileRpc → Node × Bool
store_on_disk disk node f =
    let (files, stored) = write_file disk node.chord_storage f.name f.content in
    (record node { chord_storage = files }, stored)

unfoldable pub store_chord_file : Disk → Node → FileRpc → Bool → Node × Bool
unfolding store_on_disk
store_chord_file disk node f true =
    if has_id (f.id % hash_mod) node.backup
    then (node, false)
    else store_on_disk disk
        (record node {
          backup = put_entry (received node f) node.backup;
          fresh_ptr = suc node.fresh_ptr;
        })
        f
store_chord_file disk node f false =
    if has_id (f.id % hash_mod) node.bucket
    then (node, false)
    else store_on_disk disk
        (record node {
          bucket = put_entry (received node f) node.bucket;
          fresh_ptr = suc node.fresh_ptr;
        })
        f

-- The reply's `Backup` is read before anything sets it, so it is false.
unfoldable pub store_file_rpc : Disk → Node → FileRpc → Node × Bool
store_file_rpc disk node f = store_chord_file disk node f false

unfoldable pub check_file_exist_rpc : List BucketEntry → String → Bool
check_file_exist_rpc [] name = false
check_file_exist_rpc (e ∷ es) name = str_eq e.name name || check_file_exist_rpc es name

-- `none` is an error: no entry with this id, or no such file on disk.
pub get_file_rpc : Node → FileRpc → Option FileRpc
get_file_rpc node f = elim (name_at (f.id % hash_mod) node.bucket) [
  | none ↦ none
  | some name ↦ elim (read_file node.chord_storage name) [
    | none ↦ none
    | some content ↦ some (record { id = f.id % hash_mod; name = name; content = content })
  ]
]

pub delete_successor_backup : Node → Node
delete_successor_backup node = record node { backup = [] }

-- Always reports success; the entry is added whatever the backup holds.
pub successor_store_file : Disk → Node → FileRpc → Node
successor_store_file disk node f = record node {
  backup = put_entry (received node f) node.backup;
  fresh_ptr = suc node.fresh_ptr;
  chord_storage = (write_file disk node.chord_storage f.name f.content).0;
}

-- The files whose id is neither in the bucket nor in the backup are deleted, if they can be.
keep_files :
    (String → ℕ) → Disk → List BucketEntry → List BucketEntry → List StoredFile → List StoredFile
keep_files str_hash disk bucket backup [] = []
keep_files str_hash disk bucket backup (f ∷ fs) =
    let rest = keep_files str_hash disk bucket backup fs in
    let removed = disk.can_remove f.name in
    if has_id (hash_id str_hash f.name) bucket || has_id (hash_id str_hash f.name) backup
    then f ∷ rest
    else if removed
    then rest
    else f ∷ rest

-- A folder that cannot be read is empty for the loop.
pub clean_redundant_file : (String → ℕ) → Disk → Node → Node
unfolding keep_files
clean_redundant_file str_hash disk node = record node {
  chord_storage =
      if disk.can_list ("../files/" & node.name & "/chord_storage")
      then keep_files str_hash disk node.bucket node.backup node.chord_storage
      else node.chord_storage;
}

-- The loop of `checkPredecessor` that moves the backup into the bucket, under the same pointers.
pub take_over : List BucketEntry → List BucketEntry → List BucketEntry
take_over [] bucket = bucket
take_over (e ∷ es) bucket =
    take_over es (if not (str_eq e.name "") then put_entry e bucket else bucket)

-- The address that `NAT` makes of an internal one; `local_address` is `getLocalAddress()`.
unfoldable pub nat : String → String → String
nat local_address addr =
    if str_eq addr "172.31.82.96"
    then "18.233.168.46"
    else if str_eq addr "192.168.254.89"
    then "50.93.222.140"
    else if str_eq addr "192.168.31.153"
    then "95.80.36.91"
    else if str_eq addr "192.168.31.236"
    then "95.80.36.91"
    else if str_eq addr "172.31.21.112"
    then "54.145.27.145"
    else if str_eq addr local_address
    then "localhost"
    else addr

-- `checkPredecessor`; `dial` is whether an address answers. `none` is the panic where the
-- predecessor's address has no port.
pub check_predecessor : (String → Bool) → String → Node → Option Node
unfolding nat
check_predecessor dial local_address node =
    if str_eq node.predecessor "" then some node else elim (split b':' node.predecessor) [
      | ip ∷ port ∷ _ ↦
          if dial (nat local_address ip & ":" & port)
          then some node
          else some (record node { predecessor = ""; bucket = take_over node.backup node.bucket })
      | _ ↦ none
    ]
