-- ===== src/WebServer.antt =====
-- Lab1/Server/handler.go and tools.go: the handlers of the HTTP server. The length headers, which
-- repeat the length of the body, are left out.
pub mod Laws
pub mod Endings
pub mod Connections
pub mod Examples
use text.Mathlib.Text.{◌==◌ as str_eq}
use tda596_distributed_syste.Prelude.{
  ℕ, leb, if◌then◌else◌, Bool, true, false, ◌&&◌, ◌||◌, Option, none, some, List, [], ◌∷◌, String,
}
use tda596_distributed_syste.Prelude.Int.{ℤ, pos, negsuc}
use tda596_distributed_syste.Prelude.Text.{◌&◌, split}
use tda596_distributed_syste.Chord.Node.{StoredFile}
use tda596_distributed_syste.Chord.Storage.{Disk, read_file, write_file}

-- What the server asks the operating system for.
pub record FileSystem : Type 0 where
  pub pwd : String
  -- Whether a path is there, and whether it is a directory.
  pub stat : String → Option Bool
  pub can_open : String → Bool
  pub read_dir : String → Option (List String)
  pub read_all : String → Option String
  -- `http.DetectContentType` of the first bytes.
  pub detect : String → Option String

pub record Response : Type 0 where
  pub status : ℕ
  -- `none` is a nil `Body`.
  pub body : Option String
  pub content_type : Option String

abbrev pub plain : ℕ → String → Response
plain status body = record { status = status; body = some body; content_type = none }

abbrev pub no_body : ℕ → Response
no_body status = record { status = status; body = none; content_type = none }

unfoldable pub last_part : String → List String → String
last_part x [] = x
last_part x (y ∷ ys) = last_part y ys

abbrev pub is_known : String → Bool
is_known e =
    str_eq e "html"
    || str_eq e "txt"
    || str_eq e "gif"
    || str_eq e "jpeg"
    || str_eq e "jpg"
    || str_eq e "css"

unfoldable pub check_file_ending : String → String × Bool
check_file_ending url = let e = last_part "" (split b'.' url) in (e, is_known e)

listing : List String → String
listing [] = ""
listing (n ∷ ns) = n & " " & listing ns

get_directory : FileSystem → String → Response
unfolding listing
get_directory fs url = elim (fs.read_dir url) [
  | none ↦ plain 500 "Internal server error"
  | some names ↦ plain 200 (listing names)
]

-- The content type is empty if it cannot be detected.
get_file : FileSystem → String → Response
get_file fs url =
    let (ending, valid) = check_file_ending url in
    let detected : String = elim (fs.detect url) [ none ↦ "" | some t ↦ t ] in
    let content_type = if str_eq ending "css" then "text/css; charset=utf-8" else detected in
    if valid
    then elim (fs.read_all url) [
      | none ↦ plain 500 "Internal server error"
      | some content ↦ record {
        status = 200;
        body = some content;
        content_type = some content_type;
      }
    ]
    else plain 400 "Bad request"

pub get_handler : FileSystem → String → Response
unfolding get_directory get_file
get_handler fs path =
    let url = fs.pwd & path in
    elim (fs.stat url) [
      | none ↦ plain 404 "Resource not found"
      | some is_dir ↦
          if fs.can_open url
          then if is_dir then get_directory fs url else get_file fs url
          else plain 404 "Resource not found"
    ]

-- The name for a file whose own name is taken; `none` is an index out of range.
unfoldable pub copy_name : String → Option String
copy_name name = elim (split b'.' name) [
  | stem ∷ ending ∷ _ ↦ some (stem & "(1)." & ending)
  | _ ↦ none
]

-- `DownloadFile`: the files afterwards, and whether there was no error. `none` is a panic.
unfoldable pub download_file :
    Disk → List StoredFile → String → String → Option (List StoredFile × Bool)
download_file disk files name body = elim (read_file files name) [
  | none ↦ some (write_file disk files name body)
  | some _ ↦ elim (copy_name name) [
    | none ↦ none
    | some other ↦ some (write_file disk files other body)
  ]
]

unfoldable pub post_handler :
    Disk → String → List StoredFile → String → String → Option (List StoredFile × Response)
post_handler disk pwd files path body =
    if (check_file_ending path).1
    then elim (download_file disk files (pwd & path) body) [
      | none ↦ none
      | some (files', stored) ↦
          if stored then some (files', plain 200 "OK") else some (files', no_body 500)
    ]
    else some (files, plain 400 "Bad request")

pub unsupported_method_handler : Response
unsupported_method_handler = plain 501 "Method not allowed"

abbrev pub is_port : Option ℤ → Bool
is_port none = false
is_port (some (pos n)) = leb n 65535
is_port (some (negsuc n)) = false

-- `GetAddr` on the arguments after the program's name.
pub get_addr : (String → String) → (String → Option ℤ) → (String → Bool) → List String → String
get_addr trim atoi is_ip [] = "-1"
get_addr trim atoi is_ip (arg ∷ _) = elim (split b':' arg) [
  | port ∷ [] ↦
      if str_eq (trim port) "docker"
      then "-2"
      else if is_port (atoi (trim port))
      then "localhost:" & port
      else "-1"
  | ip ∷ port ∷ [] ↦
      if (str_eq ip "localhost" || is_ip ip) && is_port (atoi (trim port)) then arg else "-1"
  | _ ↦ "localhost:8080"
]
