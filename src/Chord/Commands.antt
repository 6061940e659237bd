-- ===== src/Chord/Commands.antt =====
-- Lab2/Node/main.go: how a node starts, and the commands that it reads. The periodic tasks are those of
-- Stabilize, Fingers and Storage.
pub mod Laws
use text.Mathlib.Text.{◌==◌ as str_eq}
use tda596_distributed_syste.Prelude.{
  ℕ, if◌then◌else◌, Bool, true, false, ◌||◌, Option, none, some, List, [], ◌∷◌, String,
}
use tda596_distributed_syste.Chord.Node.{
  Node, StoredFile, Arguments, create_chord, get_name, new_node, host_port,
}
use tda596_distributed_syste.Chord.Net.{
  Reply, ok, err, panic, no_answer, ◌>>=◌, Net, chord_call, update, End, returned, failed, crashed,
  waiting,
}
use tda596_distributed_syste.Chord.Routing.{client_look_up, get_name_rpc}
use tda596_distributed_syste.Chord.Storage.{Disk, check_file_exist_rpc}
use tda596_distributed_syste.Chord.Client.{
  Keys, client_store_file, client_get_file, join_chord, ArgsCheck, invalid, joins, creates,
  check_args_valid,
}

-- `os.Exit(1)`, a panic, a node that has started, or one whose join still waits for an answer.
pub data Started : Type 0 where
  exited : Started
  aborted : Started
  running : Net → Started
  blocked : Started

-- What the lookup command says of the file, after the address of the key.
pub data Presence : Type 0 where
  stored_at : String → Presence
  not_stored : Presence
  check_failed : Presence
  name_failed : Presence

-- What a command does; `waits` is a call that does not end.
pub data Effect : Type 0 where
  state_printed : Effect
  looked_up : Option String → Presence → Effect
  stored : Option Net → Effect
  got : Option (List StoredFile × Bool) → Effect
  quits : Effect
  invalid_command : Effect
  dies : Effect
  waits : Effect

abbrev pub is_command : String → String → String → Bool
is_command command long short = str_eq command long || str_eq command short

-- The machine of a node: its addresses as `getip2` and `getLocalAddress` find them, the files of an
-- existing folder of the node, the addresses that can be resolved and listened at, and the address
-- at which other nodes reach what listens at an address.
pub record Machine : Type 0 where
  pub ip2 : String
  pub local_address : String
  pub folder : Option (List StoredFile)
  pub can_listen : String → Bool
  pub reached_at : String → String

-- What `main` does with the result of `joinChord`.
after_join : Net × End → Started
after_join (net, returned) = running net
after_join (net, failed) = exited
after_join (net, crashed) = aborted
after_join (net, waiting) = blocked

module _ (str_hash : String → ℕ) (keys : Keys) (disk : Disk) where
  -- `main` up to its loop. `machine` is what the operating system says: the node listens at the
  -- address of its arguments, if that is possible, and is then reached at some address.
  pub start : ℕ → (String → Bool) → Machine → Arguments → Net → Started
  unfolding after_join
  start fuel is_ip machine args net =
      let node = new_node str_hash machine.ip2 machine.local_address machine.folder args in
      let ip_addr = host_port args.address args.port in
      let self = machine.reached_at ip_addr in
      let remote_addr = host_port args.join_address args.join_port in
      elim (check_args_valid is_ip args) [
        | invalid ↦ exited
        | joins ↦
            if machine.can_listen ip_addr
            then after_join (join_chord str_hash disk fuel (update net self node) self remote_addr)
            else exited
        | creates ↦
            if machine.can_listen ip_addr
            then running (update net self (create_chord node))
            else exited
      ]

  -- The file's presence at an address; an address that was not found is the empty one.
  presence : Net → String → String → Presence
  presence net address key = elim (chord_call net address) [
    | ok target ↦
        if check_file_exist_rpc target.bucket key
        then elim (get_name_rpc str_hash net address) [ ok name ↦ stored_at name | _ ↦ name_failed ]
        else not_stored
    | _ ↦ check_failed
  ]

  pub look_up_command : ℕ → Net → String → Node → Effect
  unfolding presence
  look_up_command fuel net key node = elim (client_look_up str_hash net fuel key node) [
    | ok address ↦ looked_up (some address) (presence net address key)
    | err ↦ looked_up none (presence net "" key)
    | panic ↦ dies
    | no_answer ↦ waits
  ]

  -- One round of the loop: a command in capitals and the line after it, which only some commands read.
  pub command : ℕ → Net → List StoredFile → List StoredFile → String → String → Node → Effect
  command fuel net uploads downloads text line node =
      if is_command text "PRINTSTATE" "PS"
      then state_printed
      else if is_command text "LOOKUP" "L"
      then look_up_command fuel net line node
      else if is_command text "STOREFILE" "S"
      then elim (client_store_file str_hash keys fuel disk net uploads line node) [
        | ok net' ↦ stored (some net')
        | err ↦ stored none
        | panic ↦ dies
        | no_answer ↦ waits
      ]
      else if is_command text "QUIT" "Q"
      then quits
      else if is_command text "GET" "G"
      then elim (client_get_file str_hash keys fuel disk net downloads line node) [
        | ok r ↦ got (some r)
        | err ↦ got none
        | panic ↦ dies
        | no_answer ↦ waits
      ]
      else invalid_command
