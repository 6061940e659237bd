-- ===== src/Chord/Net.antt =====
-- Lab2/Node/tools.go: `ChordCall`. The network is what listens at each address; a call that is
-- refused, or whose address is not of the form "ip:port", is an error of the caller.
use text.Mathlib.Text.{◌==◌ as str_eq}
use tda596_distributed_syste.Prelude.{◌==◌, if◌then◌else◌, Option, none, some, String, length}
use tda596_distributed_syste.Prelude.Text.{split}
use tda596_distributed_syste.Chord.Node.{Node}

-- How an RPC, or a function that makes one, ends. A panic takes its process down, so its caller
-- reads an error; `no_answer` is a call that is still running when the fuel is used up.
pub data Reply {ℓ} (A : Type ℓ) : Type ℓ where
  ok : A → Reply A
  err : Reply A
  panic : Reply A
  no_answer : Reply A

infixl 5 ◌>>=◌
abbrev pub ◌>>=◌ {ℓ κ} : {A : Type ℓ} {B : Type κ} → Reply A → (A → Reply B) → Reply B
ok a >>= f = f a
err >>= f = err
panic >>= f = panic
no_answer >>= f = no_answer

abbrev pub Net : Type 0
Net = String → Option Node

-- `len(strings.Split(address, ":")) == 2`, then `Dial` at the two parts joined again.
unfoldable pub chord_call : Net → String → Reply Node
chord_call net address =
    if length (split b':' address) == 2
    then elim (net address) [ none ↦ err | some n ↦ ok n ]
    else err

-- The network with a new state at an address.
abbrev pub update : Net → String → Node → Net
update net address node a = if str_eq a address then some node else net a

-- A task returns nil or an error, or panics, or is still waiting for an answer; in each case with the
-- network as it left it.
pub data End : Type 0 where
  returned failed crashed waiting : End
