-- ===== src/HttpClient/Laws.antt =====
-- The client and the server together.
use text.Mathlib.Text.{◌==◌ as str_eq}
use text.Mathlib.TextEquality.{eq_iff}
use tda596_distributed_syste.Prelude.{
  ◌≡◌, refl, ◌∙◌, true, false, Option, none, some, List, String, arith,
}
use tda596_distributed_syste.Prelude.Text.{◌&◌}
use tda596_distributed_syste.Chord.Node.{StoredFile}
use tda596_distributed_syste.Chord.Storage.{Disk, read_file, write_file, put_file}
use tda596_distributed_syste.Chord.Storage.Laws.{read_file-put_file}
use tda596_distributed_syste.WebServer.{FileSystem, Response, plain, check_file_ending}
use tda596_distributed_syste.WebServer.Connections.{Request, answer}
use tda596_distributed_syste.WebServer.Connections.Requests.{
  IsView, post_request, answer-get_after_post,
}
use tda596_distributed_syste.HttpClient.{
  ClientRequest, Exchange, responded, no_response, Machine, returned, download_file, prepare,
  receive, send, sender,
}

-- What the server reads of a client's request; `path_of` is the path of a URL.
abbrev pub to_request : (String → String) → ClientRequest → Request
to_request path_of q = record { method = q.method; path = path_of q.url; body = q.body }

-- The server with these files, as the client's transport.
abbrev pub served_by :
    (String → String)
    → Disk
    → (List StoredFile → FileSystem)
    → List StoredFile
    → ClientRequest
    → Exchange
served_by path_of disk fs files q = elim (answer disk fs files (to_request path_of q)) [
  | none ↦ no_response
  | some (files', r) ↦ responded r
]

-- A download of a file whose name is free, onto a disk that takes it.
downloaded :
    (disk : Disk) (files : List StoredFile) (name body : String)
    → read_file files name ≡ none
    → disk.can_create name ≡ true
    → disk.can_write name ≡ true
    → download_file disk files name body ≡ returned (put_file files name body)
unfolding download_file write_file
downloaded disk files name body free creates writes = ground (arith, free, creates, writes)

-- The URL of a command, and the path of the file that a POST sends.
abbrev pub url_of : String → String → String → String
url_of host root file_name = "http://" & host & root & "/" & file_name

abbrev pub local_path : Machine → String → String → String
local_path m root file_name = m.pwd & root & "/" & file_name

post_sent :
    (m : Machine) (host root file_name : String) (files : List StoredFile)
    (transport : ClientRequest → Exchange) (r : Response)
    → m.can_open (local_path m root file_name) ≡ true
    → m.accepts "POST" (url_of host root file_name) ≡ true
    → ((type : Option String)
        → transport (record {
          method = "POST";
          url = url_of host root file_name;
          body = m.read_all (local_path m root file_name);
          content_type = type;
        })
          ≡ responded r)
    → sender m host files transport "POST" root file_name ≡ returned files
unfolding sender prepare send receive
post_sent m host root file_name files transport r opens accepts answers =
    rw (opens, accepts, answers, sender, prepare, send) (ground arith)

got_file :
    (m : Machine) (host root file_name body : String) (files : List StoredFile)
    (transport : ClientRequest → Exchange) (r : Response)
    → str_eq file_name "" ≡ false
    → m.accepts "GET" (url_of host root file_name) ≡ true
    → transport (record {
      method = "GET";
      url = url_of host root file_name;
      body = "";
      content_type = none;
    })
      ≡ responded r
    → r.status ≡ 200
    → r.body ≡ some body
    → sender m host files transport "GET" root file_name ≡ download_file m.disk files file_name body
unfolding sender prepare send receive
got_file m host root file_name body files transport r named accepts answers ok text =
    rw (accepts, answers, send, ok, named, text) refl

served :
    (path_of : String → String) (disk : Disk) (fs : List StoredFile → FileSystem)
    (files files' : List StoredFile) (method url body path : String) (type : Option String)
    (r : Response)
    → path_of url ≡ path
    → answer disk fs files (record { method = method; path = path; body = body }) ≡ some (files', r)
    → served_by path_of disk fs files
        (record { method = method; url = url; body = body; content_type = type })
      ≡ responded r
served path_of disk fs files files' method url body path type r at_path e =
    rw (at_path, e, served_by) refl

-- From one client's disk to another's, through the server: a client that POSTs a readable file, whose
-- URL has a path with a known ending that is free on the server, leaves its own files as they are and
-- the file's content on the server; another client that then sends a GET for it, with that name free,
-- has a file with the same content. Each request goes over a connection of its own; the disks take the
-- files, both requests can be built and sent, and the operating system of the server shows the files
-- that are there.
pub sender-get_after_post :
    (alice bob : Machine) (host root file_name p : String) (path_of : String → String) (disk : Disk)
    (fs : List StoredFile → FileSystem) (files alice_files bob_files : List StoredFile)
    → path_of (url_of host root file_name) ≡ "/" & p
    → str_eq file_name "" ≡ false
    → alice.can_open (local_path alice root file_name) ≡ true
    → alice.accepts "POST" (url_of host root file_name) ≡ true
    → bob.accepts "GET" (url_of host root file_name) ≡ true
    → IsView fs
    → (check_file_ending ("/" & p)).1 ≡ true
    → read_file files ((fs files).pwd & "/" & p) ≡ none
    → disk.can_create ((fs files).pwd & "/" & p) ≡ true
    → disk.can_write ((fs files).pwd & "/" & p) ≡ true
    → read_file bob_files file_name ≡ none
    → bob.disk.can_create file_name ≡ true
    → bob.disk.can_write file_name ≡ true
    → let content = alice.read_all (local_path alice root file_name) in
      (files' bob_files' : List StoredFile) × (answer disk fs files (post_request ("/" & p) content)
        ≡ some (files', plain 200 "OK"))
      × (sender alice host alice_files (served_by path_of disk fs files) "POST" root file_name
          ≡ returned alice_files)
      × (sender bob host bob_files (served_by path_of disk fs files') "GET" root file_name
          ≡ returned bob_files')
      × (read_file bob_files' file_name ≡ some content)
sender-get_after_post alice bob host root file_name p path_of disk fs files alice_files bob_files
      at_path named opens accepts_post accepts_get view known free creates writes bob_free
      bob_creates bob_writes =
    let content = alice.read_all (local_path alice root file_name) in
    let (files', resp, posted, fetched, ok, text) =
      answer-get_after_post disk fs files p content view known free creates writes in
    (
      files',
      put_file bob_files file_name content,
      posted,
      post_sent alice host root file_name alice_files (served_by path_of disk fs files)
          (plain 200 "OK") opens accepts_post
          (λ type.
            served path_of disk fs files files' "POST" (url_of host root file_name) content
              ("/" & p) type (plain 200 "OK") at_path posted),
      got_file bob host root file_name content bob_files (served_by path_of disk fs files') resp
            named accepts_get
            (served path_of disk fs files' files' "GET" (url_of host root file_name) "" ("/" & p)
              none resp at_path fetched)
            ok text
          ∙ downloaded bob.disk bob_files file_name content bob_free bob_creates bob_writes,
      read_file-put_file bob_files file_name content file_name
          ∙ ground (arith, eq_iff file_name file_name),
    )
