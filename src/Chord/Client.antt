-- ===== src/Chord/Client.antt =====
-- Lab2/Node/tools.go and node.go: the client commands on a node: storing and fetching a file, joining
-- a ring, and the test of the command line's arguments.
pub mod Joining
pub mod Updates
pub mod Laws
use text.Mathlib.Text.{◌==◌ as str_eq}
use tda596_distributed_syste.Prelude.{
  ℕ, ltb, if◌then◌else◌, Bool, true, false, not, ◌&&◌, ◌||◌, Option, none, some, String, List, [],
  ◌∷◌,
}
use tda596_distributed_syste.Chord.Ring.{hash_id}
use tda596_distributed_syste.Chord.Node.{Node, FileRpc, StoredFile, Arguments}
use tda596_distributed_syste.Chord.Net.{
  Reply, ok, err, panic, no_answer, ◌>>=◌, Net, chord_call, update, End, returned, failed, crashed,
}
use tda596_distributed_syste.Chord.Routing.{client_look_up, find_successor_rpc, FindSuccessorReply}
use tda596_distributed_syste.Chord.Storage.{
  Disk, read_file, write_file, store_file_rpc, get_file_rpc,
}
use tda596_distributed_syste.Chord.Notify.{notify_rpc}

-- `rsa.EncryptPKCS1v15` under the node's public key and `rsa.DecryptPKCS1v15` under its private key.
pub record Keys : Type 0 where
  pub encrypt : String → Option String
  pub decrypt : String → Option String

-- Both answer with no bytes when RSA fails.
pub encrypt_file : Keys → String → String
encrypt_file keys content = elim (keys.encrypt content) [ none ↦ "" | some c ↦ c ]

pub decrypt_file : Keys → String → String
decrypt_file keys content = elim (keys.decrypt content) [ none ↦ "" | some c ↦ c ]

module _ (str_hash : String → ℕ) (keys : Keys) where
  -- What `clientStoreFile` sends.
  abbrev pub sealed : Node → String → String → FileRpc
  sealed node name content = record {
    id = hash_id str_hash name;
    name = name;
    content = if node.encrypt_flag then encrypt_file keys content else content;
  }

  -- `StoreFileRPC` at an address. Only an error of the call and of the reply together counts, and a
  -- call that fails leaves the reply's error nil, so the command never reports a failure here.
  pub send_file : Disk → Net → String → FileRpc → Net
  send_file disk net address f = elim (chord_call net address) [
    | ok target ↦ update net address (store_file_rpc disk target f).0
    | _ ↦ net
  ]

  -- `clientStoreFile`, with the files of the folder `file_upload`; `err` changes nothing.
  pub client_store_file : ℕ → Disk → Net → List StoredFile → String → Node → Reply Net
  client_store_file fuel disk net uploads name node =
      client_look_up str_hash net fuel name node >>= λ address. elim (read_file uploads name) [
        | none ↦ err
        | some content ↦ ok (send_file disk net address (sealed node name content))
      ]

  -- `storeLocalFile`: a file in the folder `file_download`.
  pub store_local_file : Disk → List StoredFile → FileRpc → List StoredFile × Bool
  store_local_file disk downloads f = write_file disk downloads f.name f.content

  -- `clientGetFile`: the folder `file_download` afterwards, and whether the command succeeded. The
  -- reply overwrites the name that was asked for.
  pub client_get_file :
      ℕ → Disk → Net → List StoredFile → String → Node → Reply (List StoredFile × Bool)
  client_get_file fuel disk net downloads name node =
      client_look_up str_hash net fuel name node >>= λ address. chord_call net address >>= λ target.
      elim (get_file_rpc target
        (record { id = hash_id str_hash name; name = name; content = "" })) [
          | none ↦ err
          | some f ↦ ok (
              store_local_file disk downloads (record f {
                content = if node.encrypt_flag then decrypt_file keys f.content else f.content;
              }))
        ]

module _ (str_hash : String → ℕ) (disk : Disk) where
  -- The node with no predecessor, and this first successor; `none` is an index out of range.
  joined : Node → String → Option Node
  joined node s = elim node.successors [
    | [] ↦ none
    | _ ∷ others ↦ some (record node { predecessor = ""; successors = s ∷ others })
  ]

  -- The last step: the successor is notified of the new node.
  announce : Net → Node → String → Net × End
  announce net node s = elim (chord_call net s) [
    | ok _ ↦ (notify_rpc str_hash disk net s node.address, returned)
    | _ ↦ (net, failed)
  ]

  settle_join : Net → String → Node → String → (Net → Net × End) → Net × End
  unfolding joined
  settle_join net self node s rest = elim (joined node s) [
    | none ↦ (net, crashed)
    | some node' ↦ rest (update net self node')
  ]

  -- `joinChord` of the node at `self`. A lookup that fails leaves the reply's address empty, and that is written before the error is
  -- looked at.
  pub join_chord : ℕ → Net → String → String → Net × End
  unfolding announce settle_join
  join_chord fuel net self join_node = elim (net self) [
    | none ↦ (net, crashed)
    | some node ↦
        elim (chord_call net join_node >>= λ n.
        find_successor_rpc str_hash net fuel n node.identifier) [
          | ok r ↦
              settle_join net self node r.successor_address
                (λ net'. announce net' node r.successor_address)
          | _ ↦ settle_join net self node "" (λ net'. (net', failed))
        ]
  ]

-- What `CheckArgsValid` returns: -1, 0 and 1.
pub data ArgsCheck : Type 0 where
  invalid joins creates : ArgsCheck

abbrev pub out_of : ℕ → ℕ → ℕ → Bool
out_of low high n = ltb n low || ltb high n

-- The numbers are natural: a negative one is refused as 0 is. `is_ip` is whether `net.ParseIP` accepts a text; the pattern of the client's name allows no
-- digits at all, so that every name matches.
unfoldable pub check_args_valid : (String → Bool) → Arguments → ArgsCheck
check_args_valid is_ip args =
    if not (is_ip args.address) && not (str_eq args.address "localhost")
    then invalid
    else if out_of 1024 65535 args.port
    then invalid
    else if out_of 1 60000 args.stabilize
    then invalid
    else if out_of 1 60000 args.fix_fingers
    then invalid
    else if out_of 1 60000 args.check_pred
    then invalid
    else if out_of 1 32 args.successors
    then invalid
    else if not (str_eq args.join_address "Unspecified")
    then if is_ip args.join_address || str_eq args.join_address "localhost"
      then if out_of 1024 65535 args.join_port then invalid else joins
      else invalid
    else creates
