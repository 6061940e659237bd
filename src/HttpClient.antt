-- ===== src/HttpClient.antt =====
-- Lab1/Client/main.go and tools.go: the interactive HTTP client.
pub mod Laws
mod Examples
use text.Mathlib.Text.{◌==◌ as str_eq}
use tda596_distributed_syste.Prelude.{
  ℕ, ◌==◌, if◌then◌else◌, Bool, true, false, ◌&&◌, ◌||◌, not, Option, none, some, List, [], ◌∷◌,
  String,
}
use tda596_distributed_syste.Prelude.Int.{ℤ}
use tda596_distributed_syste.Prelude.Text.{◌&◌, split}
use tda596_distributed_syste.Chord.Node.{StoredFile}
use tda596_distributed_syste.Chord.Storage.{Disk, read_file, write_file}
use tda596_distributed_syste.WebServer.{Response, check_file_ending, copy_name}
use tda596_distributed_syste.Proxy.{check_parts}

pub record ClientRequest : Type 0 where
  pub method : String
  pub url : String
  pub body : String
  pub content_type : Option String

-- What becomes of a request on the connection.
pub data Exchange : Type 0 where
  responded : Response → Exchange
  write_failed : Exchange
  no_response : Exchange

-- The machine of the client.
pub record Machine : Type 0 where
  pub pwd : String
  pub disk : Disk
  pub can_open : String → Bool
  -- What can be read of a file that opens.
  pub read_all : String → String
  pub detect : String → Option String
  -- Whether `http.NewRequest` accepts a method and a URL.
  pub accepts : String → String → Bool

-- How a command ends, with the files of the working directory.
pub data Ended : Type 0 where
  returned : List StoredFile → Ended
  exited : List StoredFile → Ended
  panicked : Ended

-- `SetProxyAddr` on the line that was read; the caller puts its default in the place of "-1".
pub set_proxy_addr : (String → String) → (String → Option ℤ) → (String → Bool) → String → String
set_proxy_addr trim atoi is_ip line = if str_eq line "" then "-1" else elim (split b':' line) [
  | ip ∷ port ∷ [] ↦ check_parts trim atoi is_ip (ip & ":" & port) "localhost:8081" (ip ∷ port ∷ [])
  | parts ↦ check_parts trim atoi is_ip line "localhost:8081" parts
]

-- `GetClientAddr`
pub get_client_addr : (String → String) → (String → Option ℤ) → (String → Bool) → String → String
get_client_addr trim atoi is_ip line =
    if str_eq line "" then "-1" else check_parts trim atoi is_ip line "-1" (split b':' line)

-- `DownloadFile`; that a file cannot be made or written is printed only.
pub download_file : Disk → List StoredFile → String → String → Ended
download_file disk files name body = elim (read_file files name) [
  | none ↦ returned (write_file disk files name body).0
  | some _ ↦ elim (copy_name name) [
    | none ↦ panicked
    | some other ↦ returned (write_file disk files other body).0
  ]
]

abbrev pub body_text : Response → String
body_text r = elim r.body [ none ↦ "" | some s ↦ s ]

-- The content type of a file that is posted.
abbrev pub content_type : Machine → String → String → String
content_type m url path =
    let detected : String = elim (m.detect path) [ none ↦ "" | some t ↦ t ] in
    if str_eq (check_file_ending url).0 "css" then "text/css; charset=utf-8" else detected

-- A command's request; `none` if nothing is sent.
pub prepare : Machine → String → String → String → String → Option ClientRequest
prepare m host method root file_name =
    let url = "http://" & host & root & "/" & file_name in
    let path = m.pwd & root & "/" & file_name in
    if str_eq method "GET"
    then some (record { method = method; url = url; body = ""; content_type = none })
    else if str_eq method "POST"
    then if m.can_open path
      then some (record {
        method = method;
        url = url;
        body = m.read_all path;
        content_type = some (content_type m url path);
      })
      else none
    else if str_eq method ""
    then none
    else some (record { method = method; url = url; body = ""; content_type = none })

-- The switch on the status; every other status is only printed.
pub receive : Machine → List StoredFile → String → String → Response → Ended
unfolding download_file
receive m files method file_name r =
    if r.status == 200
    then if str_eq method "GET"
      then if str_eq file_name ""
        then returned files
        else download_file m.disk files file_name (body_text r)
      else returned files
    else returned files

pub send : Machine → List StoredFile → (ClientRequest → Exchange) → ClientRequest → String → Ended
unfolding receive
send m files transport q file_name =
    if m.accepts q.method q.url
    then elim (transport q) [
      | responded r ↦ receive m files q.method file_name r
      | write_failed ↦ exited files
      | no_response ↦ panicked
    ]
    else panicked

pub sender :
    Machine
    → String
    → List StoredFile
    → (ClientRequest → Exchange)
    → String
    → String
    → String
    → Ended
unfolding prepare send
sender m host files transport method root file_name = elim (prepare m host method root file_name) [
  | none ↦ returned files
  | some q ↦ send m files transport q file_name
]

-- `proxy`: a request of any method through the proxy; that it could not be written is printed only,
-- and then there is no response to read.
pub proxy :
    Machine
    → String
    → List StoredFile
    → (ClientRequest → Exchange)
    → String
    → String
    → String
    → Ended
unfolding download_file
proxy m host files transport method root file_name =
    let url = "http://" & host & root & "/" & file_name in
    if m.accepts method url
    then elim (transport (record { method = method; url = url; body = ""; content_type = none })) [
      | responded r ↦
          if r.status == 200 && not (str_eq file_name "")
          then download_file m.disk files file_name (body_text r)
          else returned files
      | _ ↦ panicked
    ]
    else panicked

-- A line of commands: method, root and file.
pub record Command : Type 0 where
  pub method : String
  pub root : String
  pub file_name : String

-- The loop of `main` on the commands that are typed; `upper` is `strings.ToUpper` after
-- `strings.TrimSpace`, and `transport` may answer each command in its own way.
pub command_loop :
    (String → String)
    → (String → String)
    → Bool
    → Machine
    → String
    → List (Command × (ClientRequest → Exchange))
    → List StoredFile
    → Ended
unfolding sender proxy
command_loop upper trim by_proxy m host [] files = returned files
command_loop upper trim by_proxy m host ((c, transport) ∷ rest) files =
    let method = upper c.method in
    let root = "/" & trim c.root in
    let ended =
      if by_proxy
      then proxy m host files transport method root (trim c.file_name)
      else sender m host files transport method root (trim c.file_name) in
    if str_eq method "EXIT" then exited files else elim ended [
      | returned files' ↦ command_loop upper trim by_proxy m host rest files'
      | exited files' ↦ exited files'
      | panicked ↦ panicked
    ]
