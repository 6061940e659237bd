-- ===== src/WebServer/Connections/Requests.antt =====
-- What becomes of the requests of a connection: the files that they leave and read, and panics.
use text.Mathlib.Text.{◌==◌ as str_eq}
use text.Mathlib.TextEquality.{eq_iff}
use tda596_distributed_syste.Prelude.{
  is_some, ℕ, ◌≡◌, refl, ap, ◌∙◌, inl, inr, true, false, ◌&&◌, Option, none, some, List, [], ◌∷◌,
  String, get_elem?, Option-cases, Bool-cases, arith,
}
use tda596_distributed_syste.Prelude.Text.{◌&◌}
use tda596_distributed_syste.Chord.Node.{StoredFile}
use tda596_distributed_syste.Chord.Storage.{Disk, read_file, write_file}
use tda596_distributed_syste.WebServer.{
  FileSystem, Response, plain, check_file_ending, get_handler, get_directory, get_file,
  download_file, copy_name, post_handler, unsupported_method_handler,
}
use tda596_distributed_syste.WebServer.Laws.{post_handler-read_file}
use tda596_distributed_syste.WebServer.Endings.{known_ending_lem}
use tda596_distributed_syste.WebServer.Connections.{
  GoLimit, Request, request, end_of_file, malformed, Server, Event, accept, accept_error, read,
  response, answer, serve, handle, step, run,
}

-- What the operating system says of the files that are there.
pub record IsView (fs : List StoredFile → FileSystem) : Type 0 where
  pub same_pwd : (files files' : List StoredFile) → (fs files).pwd ≡ (fs files').pwd
  pub shows :
      (files : List StoredFile) (name content : String)
      → read_file files name ≡ some content
      → ((fs files).stat name ≡ some false)
        × ((fs files).can_open name ≡ true)
        × ((fs files).read_all name ≡ some content)

abbrev pub get_request : String → Request
get_request path = record { method = "GET"; path = path; body = "" }

abbrev pub post_request : String → String → Request
post_request path body = record { method = "POST"; path = path; body = body }

get_handler-known :
    (fs : FileSystem) (path content : String)
    → (check_file_ending (fs.pwd & path)).1 ≡ true
    → fs.stat (fs.pwd & path) ≡ some false
    → fs.can_open (fs.pwd & path) ≡ true
    → fs.read_all (fs.pwd & path) ≡ some content
    → ((get_handler fs path).status ≡ 200) × ((get_handler fs path).body ≡ some content)
unfolding get_handler get_file
get_handler-known fs path content known stat opens reads =
    (ground (arith, known, stat, opens, reads), ground (arith, known, stat, opens, reads))

-- What a client posts it gets back: a POST of a file with a known ending whose name is free, onto a
-- disk that takes it, is answered with status 200, and a GET of the same path afterwards is answered
-- with status 200 and the posted body, if the operating system shows the files that are there.
pub answer-get_after_post :
    (disk : Disk) (fs : List StoredFile → FileSystem) (files : List StoredFile) (p body : String)
    → IsView fs
    → (check_file_ending ("/" & p)).1 ≡ true
    → read_file files ((fs files).pwd & "/" & p) ≡ none
    → disk.can_create ((fs files).pwd & "/" & p) ≡ true
    → disk.can_write ((fs files).pwd & "/" & p) ≡ true
    → (files' : List StoredFile) × (resp : Response) × (answer disk fs files
          (post_request ("/" & p) body)
        ≡ some (files', plain 200 "OK"))
      × (answer disk fs files' (get_request ("/" & p)) ≡ some (files', resp))
      × (resp.status ≡ 200)
      × (resp.body ≡ some body)
unfolding answer
answer-get_after_post disk fs files p body view known free creates writes =
    let name = (fs files).pwd & "/" & p in
    let (files', posted, reads) =
      post_handler-read_file disk (fs files).pwd ("/" & p) body files known free creates writes in
    let stored : read_file files' name ≡ some body =
      reads name ∙ ground (arith, eq_iff name name) in
    let same_name : (fs files').pwd & "/" & p ≡ name =
      ap (λ pwd. pwd & "/" & p) (view.same_pwd files' files) in
    let (stat, opens, content) = view.shows files' name body stored in
    let ending = (known_ending_lem (fs files').pwd p known).0 in
    let (status, got) =
      get_handler-known (fs files') ("/" & p) body (ap (λ e. e.1) ending ∙ known)
        (rw same_name stat) (rw same_name opens) (rw same_name content) in
    (files', get_handler (fs files') ("/" & p), posted, refl, status, got)

-- A disk that takes every file.
abbrev pub TakesAll : Disk → Type 0
TakesAll disk = (name : String) → (disk.can_create name ≡ true) × (disk.can_write name ≡ true)

-- The path of a request begins with a slash.
abbrev pub Rooted : Event → Type 0
Rooted (read k (request r)) = (p : String) × (r.path ≡ "/" & p)
Rooted _ = Unit {0}

abbrev pub AllRooted : List Event → Type 0
AllRooted [] = Unit {0}
AllRooted (e ∷ es) = Rooted e × AllRooted es

-- An answer with a body.
abbrev HasBody : Option (List StoredFile × Response) → Type 0
HasBody none = ⊥
HasBody (some (files, resp)) = is_some resp.body ≡ true

get_handler_body : (fs : FileSystem) (path : String) → is_some (get_handler fs path).body ≡ true
unfolding get_handler get_file get_directory
get_handler_body fs path = ground arith

taken :
    (disk : Disk) (files : List StoredFile) (name body : String)
    → TakesAll disk
    → (write_file disk files name body).1 ≡ true
unfolding write_file
taken disk files name body all = ground (arith, (all name).0, (all name).1)

download_file_taken :
    (disk : Disk) (files : List StoredFile) (name body copied : String)
    → TakesAll disk
    → copy_name name ≡ some copied
    → (files' : List StoredFile) × (download_file disk files name body ≡ some (files', true))
unfolding download_file
download_file_taken disk files name body copied all e = elim (Option-cases (read_file files name)) [
  | inl free ↦
      ((write_file disk files name body).0, ground (arith, free, taken disk files name body all))
  | inr (old, used) ↦ (
    (write_file disk files copied body).0,
    ground (arith, used, e, taken disk files copied body all),
  )
]

post_handler-HasBody :
    (disk : Disk) (pwd p body : String) (files : List StoredFile)
    → TakesAll disk
    → HasBody (post_handler disk pwd files ("/" & p) body)
unfolding post_handler
post_handler-HasBody disk pwd p body files all = elim (Bool-cases (check_file_ending ("/" & p)).1) [
  | inl known ↦
      let (_, copied, ec) = known_ending_lem pwd p known in
      let (files', ed) = download_file_taken disk files (pwd & "/" & p) body copied all ec in
      rw (known, ed) refl
  | inr unknown ↦ rw unknown refl
]

answer-HasBody :
    (disk : Disk) (fs : List StoredFile → FileSystem) (files : List StoredFile) (r : Request)
    (p : String)
    → TakesAll disk
    → r.path ≡ "/" & p
    → HasBody (answer disk fs files r)
unfolding answer
answer-HasBody disk fs files r p all e = elim (Bool-cases (str_eq r.method "GET")) [
  | inl get ↦ rw (get, answer) (get_handler_body (fs files) r.path)
  | inr other ↦ elim (Bool-cases (str_eq r.method "POST")) [
    | inl post ↦
        rw (other, post, e, answer) (post_handler-HasBody disk (fs files).pwd p r.body files all)
    | inr neither ↦ rw (other, neither, answer) (unfold unsupported_method_handler in refl)
  ]
]

step_returns :
    (g : GoLimit) (disk : Disk) (fs : List StoredFile → FileSystem) (s : Server g) (e : Event)
    → TakesAll disk
    → Rooted e
    → is_some (step g disk fs s e) ≡ true
unfolding step handle serve
step_returns g disk fs s (accept c) all h = ground arith
step_returns g disk fs s accept_error all h = refl
step_returns g disk fs s (read k end_of_file) all h = ground arith
step_returns g disk fs s (read k malformed) all h = ground arith
step_returns g disk fs s (read k (request r)) all (p, e) =
    elim (Option-cases (get_elem? s.handlers k)) [
      | inl ek ↦ rw (ek, step) refl
      | inr (c, ek) ↦
          rw (ek, step)
            (written c (answer disk fs s.files r) (answer-HasBody disk fs s.files r p all e))
    ]
  where
    written :
        (c : ℕ) (o : Option (List StoredFile × Response))
        → HasBody o
        → is_some {A = Server g} (elim o [
          | none ↦ none
          | some (files, resp) ↦ elim resp.body [
            | none ↦ none
            | some _ ↦ some (record s { files = files; sent = (c, response resp) ∷ s.sent })
          ]
        ])
          ≡ true
    written c none x = absurd x
    written c (some (files, resp)) x = ground (arith, x)

-- On a disk that takes every file, the server does not panic: however connections come, send requests
-- with paths that begin with a slash, and end, every handler returns.
pub run_returns :
    (g : GoLimit) (disk : Disk) (fs : List StoredFile → FileSystem) (s : Server g) (es : List Event)
    → TakesAll disk
    → AllRooted es
    → is_some (run g disk fs s es) ≡ true
unfolding run
run_returns g disk fs s [] all h = refl
run_returns g disk fs s (e ∷ es) all h =
    after (step g disk fs s e) (step_returns g disk fs s e all h.0)
      (λ s'. run_returns g disk fs s' es all h.1)
  where
    after :
        (o : Option (Server g))
        → is_some o ≡ true
        → ((s' : Server g) → is_some (run g disk fs s' es) ≡ true)
        → is_some {A = Server g} (elim o [ none ↦ none | some s' ↦ run g disk fs s' es ]) ≡ true
    after none x k = x
    after (some s') x k = k s'

-- A POST that cannot be stored takes the server down: if a connection has a handler and it reads a
-- POST of a file with a known ending whose name is free and which cannot be created or written, the
-- answer has no body, and closing that body panics.
pub failed_post_panics :
    (g : GoLimit) (disk : Disk) (fs : List StoredFile → FileSystem) (s : Server g) (k c : ℕ)
    (path body : String)
    → get_elem? s.handlers k ≡ some c
    → (check_file_ending path).1 ≡ true
    → read_file s.files ((fs s.files).pwd & path) ≡ none
    → (disk.can_create ((fs s.files).pwd & path) && disk.can_write ((fs s.files).pwd & path))
      ≡ false
    → step g disk fs s (read k (request (post_request path body))) ≡ none
unfolding step handle serve answer post_handler download_file write_file
failed_post_panics g disk fs s k c path body ek known free refuses =
    ground (arith, ek, known, free, refuses)
