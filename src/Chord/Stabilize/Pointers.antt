-- ===== src/Chord/Stabilize/Pointers.antt =====
-- The backup of stablize, Lab2/Node/stabilizing.go, changes files and no pointer of any node.
use text.Mathlib.Text.{◌==◌ as str_eq}
use tda596_distributed_syste.Prelude.{
  ℕ, ◌≡◌, ◌≢◌, refl, sym, ap, ◌∙◌, if◌then◌else◌, Bool-cases, inl, inr, Option, none, some, List,
  [], ◌∷◌, String, arith,
}
use tda596_distributed_syste.Chord.Node.{Node, BucketEntry, StoredFile, FileRpc}
use tda596_distributed_syste.Chord.Net.{
  Reply, ok, err, panic, no_answer, End, returned, failed, crashed, waiting, Net, chord_call,
  update,
}
use tda596_distributed_syste.Chord.Routing.Lookup.{chord_call_inv}
use tda596_distributed_syste.Chord.Storage.{
  Disk, read_file, delete_successor_backup, successor_store_file, clean_redundant_file,
}
use tda596_distributed_syste.Chord.Storage.Pointers.{
  successor_store_file-pointers, delete_successor_backup-pointers, clean_redundant_file-pointers,
}
use tda596_distributed_syste.Chord.Pointers.{pointers_of, Keeps, Keeps-trans, update-Keeps}
use tda596_distributed_syste.Chord.Stabilize.{copy_bucket, clean, back_up}

module _ (str_hash : String → ℕ) (disk : Disk) where
  abbrev sent : Net → String → BucketEntry → String → Reply Node → Net
  sent net s e content (ok n) =
      update net s
        (successor_store_file disk n (record { id = e.id; name = e.name; content = content }))
  sent net s e content _ = net

  sent-Keeps :
      (net : Net) (s : String) (e : BucketEntry) (content : String) (r : Reply Node)
      → chord_call net s ≡ r
      → Keeps net (sent net s e content r)
  sent-Keeps net s e content (ok n) called a =
      let file : FileRpc = record { id = e.id; name = e.name; content = content } in
      update-Keeps net s n (successor_store_file disk n file) (chord_call_inv net s n called)
        (successor_store_file-pointers disk n file) a
  sent-Keeps net s e content err called a = refl
  sent-Keeps net s e content panic called a = refl
  sent-Keeps net s e content no_answer called a = refl

  -- A file of the bucket that has been read, or could not be; `rest` is the loop over the others.
  abbrev backed_up : (Net → Net × End) → Net → String → BucketEntry → Option String → Net × End
  backed_up rest net s e none = (net, failed)
  backed_up rest net s e (some content) = rest (sent net s e content (chord_call net s))

  backed_up-Keeps :
      (rest : Net → Net × End) (net : Net) (s : String) (e : BucketEntry) (o : Option String)
      → ((net' : Net) → Keeps net' (rest net').0)
      → Keeps net (backed_up rest net s e o).0
  backed_up-Keeps rest net s e none k a = refl
  backed_up-Keeps rest net s e (some content) k a =
      let net' = sent net s e content (chord_call net s) in
      Keeps-trans net net' (rest net').0 (sent-Keeps net s e content (chord_call net s) refl)
        (k net') a

  copy_bucket_lem :
      (net : Net) (s : String) (files : List StoredFile) (last : String) (e : BucketEntry)
      (es : List BucketEntry)
      → copy_bucket str_hash disk net s files last (e ∷ es) ≡ (
          if str_eq e.name last
          then (net, returned)
          else if str_eq e.name ""
          then copy_bucket str_hash disk net s files last es
          else backed_up
              (λ net'. copy_bucket str_hash disk net' s files e.name es)
              net
              s
              e
              (read_file files e.name))
  unfolding copy_bucket
  copy_bucket_lem net s files last e es = ground arith

  copy_bucket-Keeps :
      (net : Net) (s : String) (files : List StoredFile) (last : String) (es : List BucketEntry)
      → Keeps net (copy_bucket str_hash disk net s files last es).0
  copy_bucket-Keeps net s files last [] a = unfold copy_bucket in refl
  copy_bucket-Keeps net s files last (e ∷ es) a = ground (
    arith,
    copy_bucket_lem net s files last e es,
    copy_bucket-Keeps net s files last es a,
    backed_up-Keeps (λ net'. copy_bucket str_hash disk net' s files e.name es) net s e
        (read_file files e.name) (λ net'. copy_bucket-Keeps net' s files e.name es) a,
  )

  abbrev cleaned_at : Net → String → Option Node → Net
  cleaned_at net self none = net
  cleaned_at net self (some node) = update net self (clean_redundant_file str_hash disk node)

  cleaned_at-Keeps :
      (net : Net) (self : String) (o : Option Node)
      → net self ≡ o
      → Keeps net (cleaned_at net self o)
  cleaned_at-Keeps net self none here a = refl
  cleaned_at-Keeps net self (some node) here a =
      update-Keeps net self node (clean_redundant_file str_hash disk node) here
        (clean_redundant_file-pointers str_hash disk node) a

  clean-Keeps : (net : Net) (self : String) → Keeps net (clean str_hash disk net self)
  unfolding clean
  clean-Keeps net self a = cleaned_at-Keeps net self (net self) refl a

  -- The node tidies up once its whole bucket has been copied.
  abbrev tidied : Net → End → String → Net × End
  tidied net returned self = (clean str_hash disk net self, returned)
  tidied net failed self = (net, failed)
  tidied net crashed self = (net, crashed)
  tidied net waiting self = (net, waiting)

  tidied-Keeps :
      (net net' : Net) (e : End) (self : String) → Keeps net net' → Keeps net (tidied net' e self).0
  tidied-Keeps net net' returned self k a =
      Keeps-trans net net' (clean str_hash disk net' self) k (clean-Keeps net' self) a
  tidied-Keeps net net' failed self k a = k a
  tidied-Keeps net net' crashed self k a = k a
  tidied-Keeps net net' waiting self k a = k a

  abbrev saved : Net → String → String → Option Node → Net × End
  saved net self s none = (net, returned)
  saved net self s (some node) =
      let copied = copy_bucket str_hash disk net s node.chord_storage "" node.bucket in
      if str_eq s node.address then (net, returned) else tidied copied.0 copied.1 self

  saved-Keeps : (net : Net) (self s : String) (o : Option Node) → Keeps net (saved net self s o).0
  saved-Keeps net self s none a = refl
  saved-Keeps net self s (some node) a =
      let copied = copy_bucket str_hash disk net s node.chord_storage "" node.bucket in
      elim (Bool-cases (str_eq s node.address)) [
        | inl alone ↦ rw alone refl
        | inr other ↦ rw other (
            tidied-Keeps net copied.0 copied.1 self
              (copy_bucket-Keeps net s node.chord_storage "" node.bucket) a)
      ]

  abbrev answered : Net → String → String → Reply Node → Net × End
  answered net self s (ok n) =
      let net' = update net s (delete_successor_backup n) in saved net' self s (net' self)
  answered net self s _ = (net, failed)

  answered-Keeps :
      (net : Net) (self s : String) (r : Reply Node)
      → chord_call net s ≡ r
      → Keeps net (answered net self s r).0
  answered-Keeps net self s (ok n) called a =
      let net' = update net s (delete_successor_backup n) in
      Keeps-trans net net' (saved net' self s (net' self)).0
        (update-Keeps net s n (delete_successor_backup n) (chord_call_inv net s n called)
          (delete_successor_backup-pointers n))
        (saved-Keeps net' self s (net' self)) a
  answered-Keeps net self s err called a = refl
  answered-Keeps net self s panic called a = refl
  answered-Keeps net self s no_answer called a = refl

  back_up_lem :
      (net : Net) (self s : String) (r : Reply Node)
      → chord_call net s ≡ r
      → back_up str_hash disk net self s ≡ answered net self s r
  unfolding back_up
  back_up_lem net self s (ok n) called = rw (called, back_up) (ground arith)
  back_up_lem net self s err called = rw (called, back_up) refl
  back_up_lem net self s panic called = rw (called, back_up) refl
  back_up_lem net self s no_answer called = rw (called, back_up) refl

  -- Whether the first successor answers or not, the backup leaves all pointers as they are.
  pub back_up-Keeps : (net : Net) (self s : String) → Keeps net (back_up str_hash disk net self s).0
  back_up-Keeps net self s a =
      ap (λ r. pointers_of (r.0 a)) (back_up_lem net self s (chord_call net s) refl)
      ∙ answered-Keeps net self s (chord_call net s) refl a

  backed_up-ne-crashed :
      (rest : Net → Net × End) (net : Net) (s : String) (e : BucketEntry) (o : Option String)
      → ((net' : Net) → (rest net').1 ≢ crashed)
      → (backed_up rest net s e o).1 ≢ crashed
  backed_up-ne-crashed rest net s e none k h = cc h
  backed_up-ne-crashed rest net s e (some content) k h =
      k (sent net s e content (chord_call net s)) h

  copy_bucket-ne-crashed :
      (net : Net) (s : String) (files : List StoredFile) (last : String) (es : List BucketEntry)
      → (copy_bucket str_hash disk net s files last es).1 ≢ crashed
  copy_bucket-ne-crashed net s files last [] h = unfold copy_bucket in cc h
  copy_bucket-ne-crashed net s files last (e ∷ es) h = ground (
    arith,
    h,
    copy_bucket_lem net s files last e es,
    copy_bucket-ne-crashed net s files last es,
    backed_up-ne-crashed (λ net'. copy_bucket str_hash disk net' s files e.name es) net s e
        (read_file files e.name) (λ net'. copy_bucket-ne-crashed net' s files e.name es),
  )

  tidied-ne-crashed :
      (net : Net) (e : End) (self : String) → e ≢ crashed → (tidied net e self).1 ≢ crashed
  tidied-ne-crashed net returned self k h = cc h
  tidied-ne-crashed net failed self k h = cc h
  tidied-ne-crashed net crashed self k h = k refl
  tidied-ne-crashed net waiting self k h = cc h

  saved-ne-crashed :
      (net : Net) (self s : String) (o : Option Node) → (saved net self s o).1 ≢ crashed
  saved-ne-crashed net self s none h = cc h
  saved-ne-crashed net self s (some node) h =
      let copied = copy_bucket str_hash disk net s node.chord_storage "" node.bucket in
      ground (
        arith,
        h,
        tidied-ne-crashed copied.0 copied.1 self
            (copy_bucket-ne-crashed net s node.chord_storage "" node.bucket),
      )

  -- The backup never panics.
  pub back_up-ne-crashed :
      (net : Net) (self s : String) → (back_up str_hash disk net self s).1 ≢ crashed
  back_up-ne-crashed net self s h = by_reply (chord_call net s) refl
    where
      by_reply : (r : Reply Node) → chord_call net s ≡ r → ⊥
      by_reply (ok n) called =
          let net' = update net s (delete_successor_backup n) in
          saved-ne-crashed net' self s (net' self)
            (sym (ap (λ r. r.1) (back_up_lem net self s (ok n) called)) ∙ h)
      by_reply err called = cc (h, back_up_lem net self s err called)
      by_reply panic called = cc (h, back_up_lem net self s panic called)
      by_reply no_answer called = cc (h, back_up_lem net self s no_answer called)
