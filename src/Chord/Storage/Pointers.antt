-- ===== src/Chord/Storage/Pointers.antt =====
-- The file RPCs of Lab2/Node/node.go and stabilizing.go leave a node's place on the ring alone.
use tda596_distributed_syste.Prelude.{
  ℕ, ◌≡◌, refl, ap, Bool, true, false, Bool-cases, ◌⊎◌, inl, inr, Option, none, some, List, [], ◌∷◌,
  String, length, arith,
}
use tda596_distributed_syste.Prelude.Text.{split, ◌&◌}
use text.Mathlib.Text.{◌==◌ as str_eq}
use tda596_distributed_syste.Chord.Node.{Node, FileRpc}
use tda596_distributed_syste.Chord.Pointers.{pointers, can_dial}
use tda596_distributed_syste.Chord.Storage.{
  Disk, store_file_rpc, store_chord_file, delete_successor_backup, successor_store_file,
  clean_redundant_file, check_predecessor, nat,
}

module _ (disk : Disk) (n : Node) (f : FileRpc) where
  pub store_file_rpc-pointers : pointers (store_file_rpc disk n f).0 ≡ pointers n
  unfolding store_file_rpc store_chord_file
  store_file_rpc-pointers = ground arith

  pub successor_store_file-pointers : pointers (successor_store_file disk n f) ≡ pointers n
  unfolding successor_store_file
  successor_store_file-pointers = refl

pub clean_redundant_file-pointers :
    (str_hash : String → ℕ) (disk : Disk) (n : Node)
    → pointers (clean_redundant_file str_hash disk n) ≡ pointers n
unfolding clean_redundant_file
clean_redundant_file-pointers str_hash disk n = refl

pub delete_successor_backup-pointers :
    (n : Node) → pointers (delete_successor_backup n) ≡ pointers n
unfolding delete_successor_backup
delete_successor_backup-pointers n = refl

-- `checkPredecessor` at a node that has no predecessor, or one whose address has a port.
abbrev pub Checked : Node → Option Node → Type 0
Checked node none = ⊥
Checked node (some node') =
    (pointers node' ≡ pointers node)
    ⊎ (pointers node' ≡ pointers (record node { predecessor = "" }))

pub check_predecessor-Checked :
    (dial : String → Bool) (local_address : String) (node : Node)
    → can_dial node.predecessor ≡ true
    → Checked node (check_predecessor dial local_address node)
unfolding check_predecessor
check_predecessor-Checked dial local_address node good =
    elim (Bool-cases (str_eq node.predecessor "")) [
      | inl alone ↦ rw alone (inl refl)
      | inr known ↦ by_parts known (split b':' node.predecessor) refl
    ]
  where
    by_parts :
        str_eq node.predecessor "" ≡ false
        → (l : List String) → split b':' node.predecessor ≡ l
        → Checked node (check_predecessor dial local_address node)
    by_parts known [] e = absurd (ground (arith, good, known, ap length e))
    by_parts known (ip ∷ []) e = absurd (ground (arith, good, known, ap length e))
    by_parts known (ip ∷ port ∷ more) e =
        elim (Bool-cases (dial (nat local_address ip & ":" & port))) [
          | inl answers ↦ rw (known, e, check_predecessor, answers) (inl refl)
          | inr silent ↦ rw (known, e, check_predecessor, silent) (inr refl)
        ]
