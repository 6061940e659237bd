-- ===== src/WebServer/Connections.antt =====
-- Lab1/Server/main.go: the accept loop and the loop of each connection, as events on one state. The
-- counter `current_conn`, which the goroutines change without a lock and only print, is left out.
pub mod Laws
pub mod Requests
mod Examples
use text.Mathlib.Text.{◌==◌ as str_eq}
use tda596_distributed_syste.Prelude.{
  ℕ, zero, suc, ◌+◌, ◌<◌, ◌≤◌, ◌≡◌, ◌↔◌, if◌then◌else◌, Bool, true, false, Option, none, some, List,
  [], ◌∷◌, ◌++◌, String, length, get_elem?, remove_at,
}
use tda596_distributed_syste.Prelude.Int.{ℤ, pos, inc, dec}
use tda596_distributed_syste.Chord.Node.{StoredFile}
use tda596_distributed_syste.Chord.Storage.{Disk}
use tda596_distributed_syste.WebServer.{
  FileSystem, Response, get_handler, post_handler, unsupported_method_handler,
}

-- `main`: the address that the server listens on, from the result of `GetAddr`.
unfoldable pub listen_address : String → String
listen_address addr =
    if str_eq addr "-1" then "localhost:8080" else if str_eq addr "-2" then "0.0.0.0:8080" else addr

-- `golimit`, by what its documentation says: at most so many holders at a time; `none` is a caller
-- that waits.
pub record GoLimit : Type 1 where
  pub Limit : Type 0
  pub new_go_limit : ℕ → Limit
  pub add : Limit → Option Limit
  pub done : Limit → Limit

pub record Request : Type 0 where
  pub method : String
  pub path : String
  pub body : String

-- What `http.ReadRequest` makes of a connection.
pub data Incoming : Type 0 where
  request : Request → Incoming
  end_of_file : Incoming
  malformed : Incoming

-- What is written to a connection.
pub data Sent : Type 0 where
  response : Response → Sent
  raw : String → Sent

pub record Server (g : GoLimit) : Type 0 where
  pub limit : g.Limit
  pub files : List StoredFile
  -- The connections that have a handler.
  pub handlers : List ℕ
  -- What has been sent, and to which connection, the latest first.
  pub sent : List (ℕ × Sent)

-- `Lab1/Server/main.go`'s goroutines at work: a connection is accepted, `Accept` fails, or the
-- handler at a position reads something.
pub data Event : Type 0 where
  accept : ℕ → Event
  accept_error : Event
  read : ℕ → Incoming → Event

-- The choice of the handler by the method. `fs` is what the operating system says of the files.
pub answer :
    Disk
    → (List StoredFile → FileSystem)
    → List StoredFile
    → Request
    → Option (List StoredFile × Response)
answer disk fs files r =
    if str_eq r.method "GET"
    then some (files, get_handler (fs files) r.path)
    else if str_eq r.method "POST"
    then post_handler disk (fs files).pwd files r.path r.body
    else some (files, unsupported_method_handler)

module _ (g : GoLimit) where
  pub close_handler : Server g → ℕ → Server g
  close_handler s k = record s { limit = g.done s.limit; handlers = remove_at s.handlers k }

  -- The handler's round after a request; `request.Response.Body.Close` panics if there is no body.
  pub serve : Disk → (List StoredFile → FileSystem) → Server g → ℕ → Request → Option (Server g)
  serve disk fs s c r = elim (answer disk fs s.files r) [
    | none ↦ none
    | some (files, resp) ↦ elim resp.body [
      | none ↦ none
      | some _ ↦ some (record s { files = files; sent = (c, response resp) ∷ s.sent })
    ]
  ]

  -- A round of `HandleConnection` for the connection `c` of the handler at position `k`.
  pub handle :
      Disk → (List StoredFile → FileSystem) → Server g → ℕ → ℕ → Incoming → Option (Server g)
  unfolding close_handler serve
  handle disk fs s k c (request r) = serve disk fs s c r
  handle disk fs s k c end_of_file = some (close_handler s k)
  handle disk fs s k c malformed =
      some (record (close_handler s k) { sent = (c, raw "HTTP/1.1 400 Bad Request\r") ∷ s.sent })

  -- One event; `none` is a panic, which ends the server. A connection for which there is no room
  -- waits, and so does the loop that accepts.
  pub step : Disk → (List StoredFile → FileSystem) → Server g → Event → Option (Server g)
  unfolding handle
  step disk fs s (accept c) = elim (g.add s.limit) [
    | none ↦ some s
    | some limit ↦ some (record s { limit = limit; handlers = c ∷ s.handlers })
  ]
  step disk fs s accept_error = some s
  step disk fs s (read k i) = elim (get_elem? s.handlers k) [
    | none ↦ some s
    | some c ↦ handle disk fs s k c i
  ]

  pub run : Disk → (List StoredFile → FileSystem) → Server g → List Event → Option (Server g)
  run disk fs s [] = some s
  run disk fs s (e ∷ es) = elim (step disk fs s e) [ none ↦ none | some s' ↦ run disk fs s' es ]

  -- `ListenAndServe` before its loop.
  pub listen_and_serve : List StoredFile → Server g
  listen_and_serve files = record {
    limit = g.new_go_limit 10;
    files = files;
    handlers = [];
    sent = [];
  }
