-- ===== src/Chord/Client/Laws.antt =====
-- About storing and fetching a file by the client commands, and the test of the arguments.
use text.Mathlib.Text.{◌==◌ as str_eq}
use text.Mathlib.TextEquality.{eq_iff}
use mathlib.Core.Option.{some-injective}
use tda596_distributed_syste.Prelude.{
  ℕ, ◌%◌, ◌<◌, ◌≤◌, ◌≡◌, ◌≢◌, refl, sym, ap, ◌∙◌, ◌⊎◌, inl, inr, Bool, Bool-cases, true, false, not,
  if◌then◌else◌, some, List, String, length, arith, ◌||◌,
}
use tda596_distributed_syste.Prelude.Text.{split}
use tda596_distributed_syste.Chord.Ring.{hash_mod, hash_id}
use tda596_distributed_syste.Chord.Ring.Arcs.{distance}
use tda596_distributed_syste.Chord.Node.{Node, FileRpc, StoredFile, Arguments}
use tda596_distributed_syste.Chord.Net.{ok, Net, chord_call, update}
use tda596_distributed_syste.Chord.Routing.{client_look_up}
use tda596_distributed_syste.Chord.Routing.Lookup.{
  chord_call_ok, Settled, IsSuccessor, find-IsSuccessor, identifier-lt,
}
use tda596_distributed_syste.Chord.Storage.{
  Disk, read_file, write_file, put_file, store_file_rpc, store_chord_file, store_on_disk,
  get_file_rpc, has_id,
}
use tda596_distributed_syste.Chord.Storage.Laws.{
  PtrsBelow, read_file-put_file, get_file_rpc-store_file_rpc,
}
use tda596_distributed_syste.Chord.Client.{
  Keys, encrypt_file, decrypt_file, sealed, send_file, client_store_file, store_local_file,
  client_get_file, ArgsCheck, invalid, joins, creates, out_of, check_args_valid,
}
use tda596_distributed_syste.Chord.Client.Updates.{
  SameView, update_self, before, after, update-Settled,
}

-- No two nodes have one identifier.
abbrev pub Distinct : Net → Type 0
Distinct net =
    (a b : String) (n r : Node)
    → net a ≡ some n
    → net b ≡ some r
    → n.identifier ≡ r.identifier
    → a ≡ b

-- A disk that takes every file.
abbrev pub Accepts : Disk → Type 0
Accepts disk = (name : String) → (disk.can_create name ≡ true) × (disk.can_write name ≡ true)

-- A node that holds no file of the identifier yet.
abbrev pub HasRoom : ℕ → Node → Type 0
HasRoom id n = PtrsBelow n.fresh_ptr n.bucket × (has_id id n.bucket ≡ false)

store_file_rpc-SameView :
    (disk : Disk) (n : Node) (f : FileRpc) → SameView n (store_file_rpc disk n f).0
unfolding store_file_rpc store_chord_file store_on_disk
store_file_rpc-SameView disk n f = record {
  name = ground arith;
  identifier = ground arith;
  successors = ground arith;
}

store_file_rpc_accepted :
    (disk : Disk) (n : Node) (f : FileRpc)
    → Accepts disk
    → has_id (f.id % hash_mod) n.bucket ≡ false
    → (store_file_rpc disk n f).1 ≡ true
unfolding store_file_rpc store_chord_file store_on_disk write_file
store_file_rpc_accepted disk n f takes room = ground (arith, (takes f.name).0, (takes f.name).1)

not_sentinel : (s : String) → length (split b':' s) ≡ 2 → str_eq s "-1" ≡ false
not_sentinel s h = elim (Bool-cases (str_eq s "-1")) [
  | inl same ↦
      let is : s ≡ "-1" = (eq_iff s "-1").0 same in
      let one : length (split b':' "-1") ≡ 1 = unfold split in refl in
      absurd (ground (arith, one, ap (λ x. length (split b':' x)) is))
  | inr other ↦ other
]

distance_inj :
    (id x y : ℕ)
    → id < hash_mod
    → x < hash_mod
    → y < hash_mod
    → distance id x ≡ distance id y
    → x ≡ y
distance_inj id x y hi hx hy h = ground arith

module _ (str_hash : String → ℕ) where
  pub look_up_lem :
      (net : Net) (fuel : ℕ) (name : String) (node n : Node)
      → Settled str_hash net
      → net node.address ≡ some n
      → hash_mod ≤ fuel
      → (s : String) × (client_look_up str_hash net fuel name node ≡ ok s)
        × IsSuccessor net (hash_id str_hash name) s
  unfolding client_look_up
  look_up_lem net fuel name node n all runs enough =
      let (s, found, owner) =
        find-IsSuccessor str_hash net fuel node.address n (str_hash name) all runs enough in
      let listening = (all s owner.node owner.runs).callable in
      (s, ground (arith, found, not_sentinel s listening), owner)

  -- With distinct identifiers there is one successor, whatever the nodes store.
  same_owner :
      (net : Net) (id : ℕ) (s s' : String) (q q' : Node)
      → Settled str_hash net
      → Distinct net
      → id < hash_mod
      → net s ≡ some q
      → SameView q q'
      → IsSuccessor net id s
      → IsSuccessor (update net s q') id s'
      → s' ≡ s
  same_owner net id s s' q q' all apart bound runs same o o' =
      let (r, r_runs, view) = before net s q q' s' o'.node runs same o'.runs in
      let is_q : o.node ≡ q = some-injective o.node q (sym o.runs ∙ runs) in
      let one : distance id o.node.identifier ≤ distance id r.identifier = o.first s' r r_runs in
      let two : distance id o'.node.identifier ≤ distance id q'.identifier =
        o'.first s q' (update_self net s q') in
      let q_bound = identifier-lt str_hash net s q (all s q runs) in
      let r_bound = identifier-lt str_hash net s' r (all s' r r_runs) in
      apart s' s r q r_runs runs (
        distance_inj id r.identifier q.identifier bound r_bound q_bound
          (ground (arith, view.identifier, same.identifier, is_q, ap (λ n. n.identifier) is_q)))

  store_step :
      (keys : Keys) (fuel : ℕ) (disk : Disk) (net : Net) (uploads : List StoredFile)
      (name content s : String) (node q : Node)
      → client_look_up str_hash net fuel name node ≡ ok s
      → chord_call net s ≡ ok q
      → read_file uploads name ≡ some content
      → client_store_file str_hash keys fuel disk net uploads name node
        ≡ ok (update net s (store_file_rpc disk q (sealed str_hash keys node name content)).0)
  unfolding client_store_file send_file
  store_step keys fuel disk net uploads name content s node q found called here =
      ground (arith, found, called, here)

  get_step :
      (keys : Keys) (fuel : ℕ) (disk : Disk) (net : Net) (downloads : List StoredFile)
      (name content cipher s : String) (id : ℕ) (node q : Node)
      → client_look_up str_hash net fuel name node ≡ ok s
      → chord_call net s ≡ ok q
      → get_file_rpc q (record { id = hash_id str_hash name; name = name; content = "" })
        ≡ some (record { id = id; name = name; content = cipher })
      → (if node.encrypt_flag then decrypt_file keys cipher else cipher) ≡ content
      → Accepts disk
      → client_get_file str_hash keys fuel disk net downloads name node
        ≡ ok (put_file downloads name content, true)
  unfolding client_get_file store_local_file write_file
  get_step keys fuel disk net downloads name content cipher s id node q found called got opened
        takes =
      ground (arith, found, called, got, (takes name).0, (takes name).1, opened)

  opened :
      (keys : Keys) (node : Node) (name content secret : String)
      → keys.encrypt content ≡ some secret
      → keys.decrypt secret ≡ some content
      → (if node.encrypt_flag
          then decrypt_file keys (sealed str_hash keys node name content).content
          else (sealed str_hash keys node name content).content)
        ≡ content
  unfolding encrypt_file decrypt_file
  opened keys node name content secret sealing opening = ground (arith, sealing, opening)

  -- A file of the folder `file_upload` that a client stores on a ring where each node's first
  -- successor is right, and identifiers are distinct, is fetched again with the same content by the
  -- same client: both commands succeed. (The client's node runs, the lookups have
  -- fuel for a chain of 64 calls, all disks take the file, no node
  -- holds a file of its identifier yet, and what the keys encrypt they decrypt.)
  pub client_get_file-client_store_file :
      (keys : Keys) (fuel : ℕ) (disk : Disk) (net : Net) (uploads downloads : List StoredFile)
      (name content secret : String) (node : Node)
      → Settled str_hash net
      → Distinct net
      → net node.address ≡ some node
      → hash_mod ≤ fuel
      → Accepts disk
      → ((a : String) (n : Node) → net a ≡ some n → HasRoom (hash_id str_hash name) n)
      → read_file uploads name ≡ some content
      → keys.encrypt content ≡ some secret
      → keys.decrypt secret ≡ some content
      → (net' : Net) × (files : List StoredFile) × (client_store_file str_hash keys fuel disk net
            uploads name node
          ≡ ok net')
        × (client_get_file str_hash keys fuel disk net' downloads name node ≡ ok (files, true))
        × (read_file files name ≡ some content)
  client_get_file-client_store_file keys fuel disk net uploads downloads name content secret node
        all apart runs enough takes room here sealing opening =
      let id = hash_id str_hash name in
      let f = sealed str_hash keys node name content in
      let (s, found, owner) = look_up_lem net fuel name node node all runs enough in
      let q = owner.node in
      let q' = (store_file_rpc disk q f).0 in
      let same = store_file_rpc-SameView disk q f in
      let net' = update net s q' in
      let all' = update-Settled str_hash net s q q' all owner.runs same in
      let (start, start_runs, _) = after net s q q' node.address node owner.runs same runs in
      let (s', found', owner') = look_up_lem net' fuel name node start all' start_runs enough in
      let again : s' ≡ s =
        same_owner net id s s' q q' all apart (omega arith) owner.runs same owner owner' in
      let parts = (all s q owner.runs).callable in
      let called = chord_call_ok net s q parts owner.runs in
      let called' = chord_call_ok net' s q' parts (update_self net s q') in
      let (below, free) = room s q owner.runs in
      let reduced : f.id % hash_mod ≡ id = omega arith in
      let got =
        get_file_rpc-store_file_rpc disk q f (record { id = id; name = name; content = "" }) below
          (store_file_rpc_accepted disk q f takes (rw reduced free)) refl in
      (
        net',
        put_file downloads name content,
        store_step keys fuel disk net uploads name content s node q found called here,
        get_step keys fuel disk net' downloads name content f.content s (f.id % hash_mod) node q'
            (found' ∙ ap ok again) called' got
            (opened keys node name content secret sealing opening) takes,
        ground (arith, read_file-put_file downloads name content name, eq_iff name name),
      )

-- The ranges that the usage text promises, and a joining address where the check says to join.
abbrev pub InRange : Arguments → Type 0
InRange args =
    (1024 ≤ args.port)
    × (args.port ≤ 65535)
    × (1 ≤ args.stabilize)
    × (args.stabilize ≤ 60000)
    × (1 ≤ args.fix_fingers)
    × (args.fix_fingers ≤ 60000)
    × (1 ≤ args.check_pred)
    × (args.check_pred ≤ 60000)
    × (1 ≤ args.successors)
    × (args.successors ≤ 32)

passed :
    (b : Bool) (rest : ArgsCheck)
    → (if b then invalid else rest) ≢ invalid
    → (b ≡ false) × (rest ≢ invalid)
passed true rest h = absurd (h refl)
passed false rest h = (refl, h)

within : (low high n : ℕ) → out_of low high n ≡ false → (low ≤ n) × (n ≤ high)
within low high n h = ground arith

joining :
    (unspecified known : Bool) (port : ℕ)
    → (if not unspecified
        then if known then if out_of 1024 65535 port then invalid else joins else invalid
        else creates)
      ≢ invalid
    → (unspecified ≡ true) ⊎ ((1024 ≤ port) × (port ≤ 65535))
joining true known port h = inl refl
joining false false port h = absurd (h refl)
joining false true port h = inr (within 1024 65535 port (passed (out_of 1024 65535 port) joins h).0)

-- Arguments that `CheckArgsValid` does not refuse have all numbers in their ranges, the port to join
-- at included unless no address to join is given.
pub check_args_valid-InRange :
    (is_ip : String → Bool) (args : Arguments)
    → check_args_valid is_ip args ≢ invalid
    → InRange args
      × ((args.join_address ≡ "Unspecified") ⊎ ((1024 ≤ args.join_port) × (args.join_port ≤ 65535)))
unfolding check_args_valid
check_args_valid-InRange is_ip args h0 =
    let (_, h1) = passed _ _ h0 in
    let (port, h2) = passed _ _ h1 in
    let (stab, h3) = passed _ _ h2 in
    let (fix, h4) = passed _ _ h3 in
    let (pred, h5) = passed _ _ h4 in
    let (succs, h6) = passed _ _ h5 in
    let known = is_ip args.join_address || str_eq args.join_address "localhost" in
    let join = joining (str_eq args.join_address "Unspecified") known args.join_port h6 in
    let (p, p') = within 1024 65535 args.port port in
    let (s, s') = within 1 60000 args.stabilize stab in
    let (f, f') = within 1 60000 args.fix_fingers fix in
    let (c, c') = within 1 60000 args.check_pred pred in
    let (k, k') = within 1 32 args.successors succs in
    (
      (p, p', s, s', f, f', c, c', k, k'),
      elim join [ inl e ↦ inl ((eq_iff args.join_address "Unspecified").0 e) | inr r ↦ inr r ],
    )
